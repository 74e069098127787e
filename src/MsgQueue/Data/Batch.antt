-- ===== src/MsgQueue/Data/Batch.antt =====
-- include/ilias/msg_queue.h: `dequeue` of several messages, the destructor and the move constructor of a
-- typed message queue.
use ilias_async.Base.{
  ℕ, zero, suc, ◌+◌, ◌≡◌, refl, ap, Bool, false, Bool-cases, inl, inr, List, [], ◌∷◌, ◌||◌,
  if◌then◌else◌, length, arith,
}
use ilias_async.MsgQueue.Data.{
  Data, value, destroy, dequeue, dequeue_loop, clear, clear_loop, move_construct, move_loop, fresh,
}

abbrev pub take : ℕ → List ℕ → List ℕ
take zero xs = []
take (suc n) [] = []
take (suc n) (x ∷ xs) = x ∷ take n xs

abbrev pub drop : ℕ → List ℕ → List ℕ
drop zero xs = xs
drop (suc n) [] = []
drop (suc n) (x ∷ xs) = drop n xs

-- The messages up to the first on which the functor throws, and whether there is one.
abbrev pub up_to : (ℕ → Bool) → List ℕ → List ℕ
up_to throws [] = []
up_to throws (x ∷ xs) = x ∷ (if throws x then [] else up_to throws xs)

abbrev pub any : (ℕ → Bool) → List ℕ → Bool
any throws [] = false
any throws (x ∷ xs) = throws x || any throws xs

-- The loop agrees with the description.
pub record Agrees (throws : ℕ → Bool) (n : ℕ) (xs : List ℕ) (r : Data × List ℕ × Bool)
    : Type 0 where
  pub given : r.1 ≡ up_to throws (take n xs)
  pub left : r.0.items ≡ drop (length (up_to throws (take n xs))) xs
  pub thrown : r.2 ≡ any throws (take n xs)

dequeue_loop-Agrees :
    (throws : ℕ → Bool) (n : ℕ) (xs : List ℕ) (q : Data)
    → Agrees throws n xs (dequeue_loop throws n xs q)
unfolding dequeue_loop
dequeue_loop-Agrees throws zero xs q = record { given = refl; left = refl; thrown = refl }
dequeue_loop-Agrees throws (suc n) [] q = record { given = refl; left = refl; thrown = refl }
dequeue_loop-Agrees throws (suc n) (x ∷ xs) q =
    let rest = dequeue_loop-Agrees throws n xs (destroy (value x) q) in
    elim (Bool-cases (throws x)) [
      | inl t ↦ rw t (record { given = rw t refl; left = rw t refl; thrown = rw t refl })
      | inr t ↦ rw t (record {
        given = rw t (ap (λ l. x ∷ l) rest.given);
        left = rw t rest.left;
        thrown = rw t rest.thrown;
      })
    ]

-- `dequeue` of at most `n` messages: the functor is given the first `n` messages, up to the first on
-- which it throws; the others stay in the queue, in their order; an exception leaves `dequeue` exactly
-- where the functor throws on one of them.
pub dequeue-Agrees :
    (throws : ℕ → Bool) (n : ℕ) (q : Data) → Agrees throws n q.items (dequeue throws n q)
unfolding dequeue
dequeue-Agrees throws n q = dequeue_loop-Agrees throws n q.items q

-- The move constructor makes an empty queue, and leaves the other as it is, whatever its messages.
pub move_construct-keeps : (mq : Data) → move_construct mq ≡ (fresh, mq)
unfolding move_construct move_loop
move_construct-keeps mq = refl

clear_loop-frees :
    (xs : List ℕ) (q : Data) (h f : ℕ)
    → q.allocated ≡ length xs + h
    → q.constructed ≡ length xs + f
    → ((clear_loop xs q).items ≡ [])
      × ((clear_loop xs q).allocated ≡ h)
      × ((clear_loop xs q).constructed ≡ f)
unfolding clear_loop destroy
clear_loop-frees [] q h f a c = (refl, omega (arith, a), omega (arith, c))
clear_loop-frees (x ∷ xs) q h f a c =
    clear_loop-frees xs (destroy (value x) q) h f (omega (arith, a)) (omega (arith, c))

-- The destructor destroys and frees all elements of the list.
pub clear-frees :
    (q : Data) (h f : ℕ)
    → q.allocated ≡ length q.items + h
    → q.constructed ≡ length q.items + f
    → ((clear q).items ≡ []) × ((clear q).allocated ≡ h) × ((clear q).constructed ≡ f)
unfolding clear
clear-frees q h f a c = clear_loop-frees q.items q h f a c
