-- ===== src/MsgQueue.antt =====
-- src/msg_queue.cc and include/ilias/msg_queue.h: the queue of untyped messages, which is a count,
-- and the events that tell a reader of new messages.
pub mod Count
pub mod Events
pub mod Wakeup
pub mod Data
mod Tests
use ilias_async.Base.{
  ℕ, zero, suc, ◌+◌, ◌-◌, Bool, true, false, List, [], ◌∷◌, ◌==◌, if◌then◌else◌, ltb, add_word,
}

-- `std::min`
abbrev pub least : ℕ → ℕ → ℕ
least a b = if ltb b a then b else a

-- What a `compare_exchange_weak` meets: the size, as other threads have left it, and whether the
-- exchange fails although the size is the expected one.
pub record Attempt : Type 0 where
  pub found : ℕ
  pub spurious : Bool

pub data Dequeued : Type 0 where
  taken : (before after count : ℕ) → Dequeued  -- the sizes that were exchanged, and the result
  empty : Dequeued  -- the result 0
  looping : Dequeued  -- the attempts are used up

-- `void_msg_queue::_dequeue`, with the size that was loaded first.
pub _dequeue : ℕ → ℕ → List Attempt → Dequeued
_dequeue max zero ts = empty
_dequeue max (suc n) [] = looping
_dequeue max (suc n) (t ∷ ts) =
    let sz : ℕ = suc n in
    let subtract = least sz max in
    let again = _dequeue max t.found ts in
    if t.spurious then again else if t.found == sz then taken sz (sz - subtract) subtract else again

-- `void_msg_queue::enqueue_n`
pub enqueue_n : ℕ → ℕ → ℕ
enqueue_n n size = add_word size n

-- The loop of `dequeue` over `i` messages: `throws` says of each call of the functor, by its number,
-- whether it throws. The result is the number of calls and the size after the messages that were not
-- fed to the functor are put back.
pub record Delivered : Type 0 where
  pub calls : ℕ
  pub size : ℕ
  pub threw : Bool

pub deliver : ℕ → (ℕ → Bool) → ℕ → ℕ → Delivered
unfolding enqueue_n
deliver zero throws k size = record { calls = k; size = size; threw = false }
deliver (suc i) throws k size =
    let rest = deliver i throws (k + 1) size in
    if throws k then record { calls = k + 1; size = enqueue_n i size; threw = true } else rest

-- `dequeue`, where nobody interferes.
pub dequeue : ℕ → (ℕ → Bool) → ℕ → Delivered
unfolding deliver
dequeue n throws size = let got = least size n in deliver got throws 0 (size - got)
