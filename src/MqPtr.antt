-- ===== src/MqPtr.antt =====
-- include/ilias/mq_ptr.h: the reference counts of a message queue with pointers for its input and its
-- output.
pub mod Leaks
mod Tests
use ilias_async.Base.{
  ℕ, zero, suc, ◌+◌, ◌-◌, ◌%◌, Bool, true, false, if◌then◌else◌, ◌==◌, ltb, leb, word, add_word,
}

-- `refcount`, whether the queue was deleted, and how often its event was fired.
pub record Mq : Type 0 where
  pub count : ℕ
  pub input : ℕ
  pub deleted : Bool
  pub fires : ℕ

-- What a call ends in: it returns, an assertion fails, or the calls are nested deeper than its fuel.
pub data Run : Type 0 where
  returns : Mq → Run
  fails runs_on : Run

abbrev pub then_do : Run → (Mq → Run) → Run
then_do (returns m) f = f m
then_do fails f = fails
then_do runs_on f = runs_on

abbrev pub sub_word : ℕ → ℕ → ℕ
sub_word x n = (x + word - n) % word

-- `refcount::has_input`
unfoldable pub has_input : Mq → Bool
has_input m = ltb 0 m.input

-- `out_refcount_mgr`
unfoldable pub out_acquire : ℕ → Mq → Run
out_acquire n m =
    if ltb m.count (add_word m.count n)
    then returns (record m { count = add_word m.count n })
    else fails

unfoldable pub out_release : ℕ → Mq → Run
out_release n m =
    if leb n m.count
    then returns (record m {
      count = sub_word m.count n;
      deleted = if m.count == n then true else m.deleted;
    })
    else fails

-- `in_refcount_mgr::acquire`
unfoldable pub in_acquire : ℕ → Mq → Run
unfolding out_acquire
in_acquire n m =
    let k = record m { input = add_word m.input n } in
    if ltb m.input (add_word m.input n)
    then (if m.input == n then out_acquire 1 k else returns k)
    else fails

-- `_fire_event` with the argument of `_fire`, which it takes a copy of. The event leaves the pointers as
-- they were.
abbrev pub fire_with : (ℕ → Mq → Run) → Mq → Run
fire_with release m = then_do (in_acquire 1 m) (λ j.
    then_do (in_acquire 1 j)
      (λ k. then_do (release 1 (record k { fires = k.fires + 1 })) (λ l. release 1 l)))

-- `in_refcount_mgr::release`. The argument of `_fire` is a `mq_out_ptr`, which is made from the queue
-- for the call; it and its copy are released by the same `release`, one level deeper.
unfoldable pub in_release : ℕ → ℕ → Mq → Run
unfolding in_acquire out_release
in_release zero n m = runs_on
in_release (suc fuel) n m =
    let k = record m { input = sub_word m.input n } in
    let fired = then_do (fire_with (in_release fuel) k) (λ j. out_release 1 j) in
    if leb n m.input then (if m.input == n then fired else returns k) else fails

-- `refcounted_mq::enqueue` and `enqueue_n`, as far as they go with the counts: `_fire` on a queue
-- whose event does not run.
unfoldable pub enqueue : ℕ → Mq → Run
unfolding in_release
enqueue fuel m = fire_with (in_release fuel) m

-- `refcounted_mq::enqueue_n` of the queue without values.
unfoldable pub enqueue_n : ℕ → ℕ → Mq → Run
unfolding enqueue
enqueue_n fuel n m = if ltb 0 n then enqueue fuel m else returns m

-- `mq_in_ptr::create`, where the counts of the new queue are 0.
unfoldable pub create : Run
unfolding in_acquire
create = in_acquire 1 (record { count = 0; input = 0; deleted = false; fires = 0 })
