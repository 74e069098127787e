-- ===== src/MsgQueue/Count.antt =====
-- `void_msg_queue` of include/ilias/msg_queue.h: where the messages go.
use ilias_async.Base.{
  ℕ, zero, suc, ◌+◌, ◌-◌, ◌≤◌, ◌<◌, ◌≡◌, ◌≢◌, Bool, false, List, [], ◌∷◌, arith, word,
}
use ilias_async.MsgQueue.{Attempt, taken, _dequeue, least, deliver, dequeue}

-- Whatever other threads do to the size meanwhile, `_dequeue` takes as many messages as there are,
-- up to `max`, and leaves the others.
pub _dequeue-exact :
    (max sz : ℕ) (ts : List Attempt) {before after count : ℕ}
    → _dequeue max sz ts ≡ taken before after count
    → (before ≢ 0) × (count ≡ least before max) × (after + count ≡ before)
unfolding _dequeue
_dequeue-exact max zero ts e = ground arith
_dequeue-exact max (suc n) [] e = ground arith
_dequeue-exact max (suc n) (t ∷ ts) {before = b} {after = a} {count = c} e =
    ground (arith, _dequeue-exact max t.found ts {before = b} {after = a} {count = c})

deliver-total :
    (i : ℕ) (throws : ℕ → Bool) (k size : ℕ)
    → size + i < word
    → (deliver i throws k size).calls + (deliver i throws k size).size ≡ k + i + size
unfolding deliver
deliver-total zero throws k size h = omega arith
deliver-total (suc i) throws k size h = ground (arith, deliver-total i throws (k + 1) size)

-- Every message is either fed to the functor once or still in the queue, also where the functor
-- throws, and it is never called more than `n` times.
pub dequeue-conserves :
    (n : ℕ) (throws : ℕ → Bool) (size : ℕ)
    → size < word
    → (dequeue n throws size).calls + (dequeue n throws size).size ≡ size
unfolding dequeue
dequeue-conserves n throws size h =
    ground (arith, deliver-total (least size n) throws 0 (size - least size n))

deliver-calls : (i : ℕ) (throws : ℕ → Bool) (k size : ℕ) → (deliver i throws k size).calls ≤ k + i
unfolding deliver
deliver-calls zero throws k size = omega arith
deliver-calls (suc i) throws k size = ground (arith, deliver-calls i throws (k + 1) size)

deliver-quiet :
    (i : ℕ) (throws : ℕ → Bool) (k size : ℕ)
    → ((j : ℕ) → throws j ≡ false)
    → (deliver i throws k size).calls ≡ k + i
unfolding deliver
deliver-quiet zero throws k size q = omega arith
deliver-quiet (suc i) throws k size q = ground (arith, q k, deliver-quiet i throws (k + 1) size q)

-- A functor that never throws is called for every message, up to `n`.
pub dequeue-quiet :
    (n : ℕ) (throws : ℕ → Bool) (size : ℕ)
    → ((j : ℕ) → throws j ≡ false)
    → (dequeue n throws size).calls ≡ least size n
unfolding dequeue
dequeue-quiet n throws size q =
    ground (arith, deliver-quiet (least size n) throws 0 (size - least size n) q)
