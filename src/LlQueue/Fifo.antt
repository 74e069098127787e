-- ===== src/LlQueue/Fifo.antt =====
-- src/ll_queue.cc: the calls of a queue, and the same calls on a sequence.
use ilias_async.Base.{
  ℕ, suc, zero, ◌==◌, ◌≢◌, ◌<◌, ◌+◌, ◌≤◌, refl, true, false, Bool-cases, List, [], ◌∷◌,
  if◌then◌else◌, length, length-append, word, arith, inl, inr,
}
use ilias_async.LlList.Memory.{Memory, Run, returns, fails, runs_on, ◌>>=◌}
use ilias_async.LlList.Ops.{link_front, link_back, pop_front}
use ilias_async.LlList.Whole.{size-length}
use ilias_async.LlList.Refine.{Represents, Yields}
use ilias_async.LlList.Program.{Yields-then}
use ilias_async.LlList.Deque.{
  insert_front, insert_back, link_front-Represents, link_back-Represents,
}
use ilias_async.LlList.Pops.{take_front, pop_front-Represents, empty-Represents}
use ilias_async.LlQueue.{
  Reply, done, refused, popped, counted, answer, Request, pushes_back, pushes_front, pops, counts,
  asks, push_back, push_front, push_back_, push_front_, pop_front_, serve, serve_all,
}

-- The same request to a sequence.
unfoldable pub fifo : Request → List ℕ → List ℕ × Reply
fifo (pushes_back x) xs = if x == 0 then (xs, refused) else ((insert_back x xs).0, done)
fifo (pushes_front x) xs = if x == 0 then (xs, refused) else ((insert_front x xs).0, done)
fifo pops xs = let (ys, e) = take_front xs in (ys, popped e)
fifo counts xs = (xs, counted (length xs))
fifo asks xs = (xs, answer (elim xs [ [] ↦ true | (y ∷ ys) ↦ false ]))

unfoldable pub fifos : List Request → List ℕ → List ℕ × List Reply
unfolding fifo
fifos [] xs = (xs, [])
fifos (q ∷ qs) xs = let (ys, r) = fifo q xs in let (zs, rs) = fifos qs ys in (zs, r ∷ rs)

-- The head of the list is not pushed.
abbrev pub IsRequest : ℕ → Request → Type 0
IsRequest hd (pushes_back x) = x ≢ hd
IsRequest hd (pushes_front x) = x ≢ hd
IsRequest hd q = Unit

abbrev pub AreRequests : ℕ → List Request → Type 0
AreRequests hd [] = Unit
AreRequests hd (q ∷ qs) = IsRequest hd q × AreRequests hd qs

drop_answer :
    {A : Type 0} (P : Memory → Type 0) (a : A) (m : Run (Memory × A))
    → Yields P a m
    → Yields P done (m >>= (λ r. returns r.0) >>= λ k. returns (k, done))
unfolding Yields
drop_answer P a (returns (h, x)) (e, p) = (refl, p)
drop_answer P a fails y = y
drop_answer P a runs_on y = y

module _ (fuel hd : ℕ) (h : Memory) (xs : List ℕ) (r : Represents hd h xs) where
  push_back-refines :
      (x : ℕ)
      → x ≢ hd
      → Yields
          (λ k. Represents hd k (fifo (pushes_back x) xs).0)
          (fifo (pushes_back x) xs).1
          (push_back (suc fuel) hd x h)
  unfolding Yields fifo push_back push_back_
  push_back-refines x n = elim (Bool-cases (x == 0)) [
    | inl z ↦ rw z (refl, r)
    | inr z ↦
        let nz : x ≢ 0 = λ e. absurd (ground (arith, e, z)) in
        rw z (
          drop_answer (λ k. Represents hd k (insert_back x xs).0) (insert_back x xs).1
            (link_back (suc fuel) hd x h) (link_back-Represents hd fuel x h xs nz n r))
  ]

  push_front-refines :
      (x : ℕ)
      → x ≢ hd
      → Yields
          (λ k. Represents hd k (fifo (pushes_front x) xs).0)
          (fifo (pushes_front x) xs).1
          (push_front (suc fuel) hd x h)
  unfolding Yields fifo push_front push_front_
  push_front-refines x n = elim (Bool-cases (x == 0)) [
    | inl z ↦ rw z (refl, r)
    | inr z ↦
        let nz : x ≢ 0 = λ e. absurd (ground (arith, e, z)) in
        rw z (
          drop_answer (λ k. Represents hd k (insert_front x xs).0) (insert_front x xs).1
            (link_front (suc fuel) hd x h) (link_front-Represents hd fuel x h xs nz n r))
  ]

  serve-refines :
      (q : Request)
      → IsRequest hd q
      → length xs < word
      → length xs < suc fuel
      → Yields (λ k. Represents hd k (fifo q xs).0) (fifo q xs).1 (serve (suc fuel) hd q h)
  unfolding Yields fifo serve pop_front_
  serve-refines (pushes_back x) n b f = push_back-refines x n
  serve-refines (pushes_front x) n b f = push_front-refines x n
  serve-refines pops n b f =
      Yields-then (λ k. Represents hd k (take_front xs).0) (take_front xs).1
        (pop_front (suc fuel) hd h) popped (pop_front-Represents hd fuel h xs r)
  serve-refines counts n b f = rw (size-length hd h (suc fuel) xs r b f) (refl, r)
  serve-refines asks n b f = rw (empty-Represents hd (suc fuel) h xs r) (refl, r)

length-fifo : (q : Request) (xs : List ℕ) → length (fifo q xs).0 ≤ suc (length xs)
unfolding fifo
length-fifo (pushes_back x) xs = ground (arith, length-append xs (x ∷ []))
length-fifo (pushes_front x) xs = ground arith
length-fifo pops [] = omega arith
length-fifo pops (x ∷ xs) = omega arith
length-fifo counts xs = omega arith
length-fifo asks xs = omega arith

then-serve :
    (fuel hd : ℕ) (qs : List Request) (a : Reply) (ys : List ℕ) (m : Run (Memory × Reply))
    → Yields (λ k. Represents hd k ys) a m
    → ((k : Memory)
        → Represents hd k ys
        → Yields (λ j. Represents hd j (fifos qs ys).0) (fifos qs ys).1 (serve_all fuel hd qs k))
    → Yields
        (λ j. Represents hd j (fifos qs ys).0)
        (a ∷ (fifos qs ys).1)
        (m >>= λ (k, s). serve_all fuel hd qs k >>= λ (j, rs). returns (j, s ∷ rs))
unfolding Yields
then-serve fuel hd qs a ys (returns (k, s)) (e, p) f = rw e (
    Yields-then (λ j. Represents hd j (fifos qs ys).0) (fifos qs ys).1 (serve_all fuel hd qs k)
      (λ (rs : List Reply). a ∷ rs) (f k p))
then-serve fuel hd qs a ys fails y f = absurd y
then-serve fuel hd qs a ys runs_on y f = absurd y

-- Any calls on a queue return what they return on a sequence, and fail no assertion: `push_back`
-- and `push_front` of `nullptr` are refused, of an element that is in the queue change nothing,
-- and of any other put it at that end; `pop_front` takes the first element. The fuel, and 2^64,
-- are more than the elements and the calls.
pub queue_refines :
    (fuel hd : ℕ) (qs : List Request) (h : Memory) (xs : List ℕ)
    → AreRequests hd qs
    → length xs + length qs < word
    → length xs + length qs < fuel
    → Represents hd h xs
    → Yields (λ k. Represents hd k (fifos qs xs).0) (fifos qs xs).1 (serve_all fuel hd qs h)
unfolding Yields serve_all fifos
queue_refines zero hd qs h xs n b f r = absurd (omega (arith, f))
queue_refines (suc fuel) hd [] h xs n b f r = (refl, r)
queue_refines (suc fuel) hd (q ∷ qs) h xs n b f r =
    let more = length-fifo q xs in
    then-serve (suc fuel) hd qs (fifo q xs).1 (fifo q xs).0 (serve (suc fuel) hd q h)
      (serve-refines fuel hd h xs r q n.0 (omega (arith, b)) (omega (arith, f)))
      (λ k p.
        queue_refines (suc fuel) hd qs k (fifo q xs).0 n.1 (omega (arith, b, more))
          (omega (arith, f, more)) p)
