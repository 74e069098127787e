-- ===== src/MqPtr/Leaks.antt =====
-- include/ilias/mq_ptr.h: what becomes of a queue whose pointers go.
use ilias_async.Base.{
  ℕ, zero, suc, ◌+◌, ◌<◌, ◌≡◌, refl, Bool, true, false, Bool-cases, inl, inr, if◌then◌else◌, ◌==◌,
  ltb, word, add_word, arith,
}
use ilias_async.MqPtr.{
  Mq, Run, returns, fails, runs_on, then_do, sub_word, out_acquire, in_acquire, in_release, enqueue,
}

-- Whether a call came to its end.
abbrev pub returns? : Run → Bool
returns? (returns m) = true
returns? fails = false
returns? runs_on = false

in_acquire-other :
    (m : Mq)
    → 0 < m.input
    → m.input + 1 < word
    → m.count + 1 < word
    → in_acquire 1 m
      ≡ returns
          (record m { count = m.count + (if m.input == 1 then 1 else 0); input = m.input + 1 })
unfolding in_acquire
in_acquire-other m p q r = ground arith

in_release-other :
    (fuel : ℕ) (m : Mq)
    → 1 < m.input
    → m.input < word
    → in_release (suc fuel) 1 m ≡ returns (record m { input = sub_word m.input 1 })
unfolding in_release
in_release-other fuel m p q = ground arith

in_acquire-again :
    (m : Mq)
    → 1 < m.input
    → m.input + 1 < word
    → in_acquire 1 m ≡ returns (record m { input = m.input + 1 })
unfolding in_acquire
in_acquire-again m p q = ground arith

sub_word-one : (x : ℕ) → x < word → 0 < x → sub_word x 1 + 1 ≡ x
sub_word-one x p q = ground arith

-- A message arrives at a queue with a pointer: the call returns, the event is fired once and the pointers are
-- as before, but where there is just one pointer a reference of the queue is taken that nothing
-- gives back.
pub enqueue-leaks :
    (fuel : ℕ) (m : Mq)
    → 0 < m.input
    → m.input + 2 < word
    → m.count + 1 < word
    → enqueue (suc fuel) m
      ≡ returns
          (record m { count = m.count + (if m.input == 1 then 1 else 0); fires = m.fires + 1 })
unfolding enqueue
enqueue-leaks fuel m p q r =
    let j = record m { count = m.count + (if m.input == 1 then 1 else 0); input = m.input + 1 } in
    let k = record j { input = m.input + 1 + 1; fires = m.fires + 1 } in
    let l = record k { input = sub_word k.input 1 } in
    let a : in_acquire 1 j ≡ returns (record j { input = j.input + 1 }) =
      in_acquire-again j (omega arith) (omega arith) in
    rw
      (
        in_acquire-other m p (omega arith) r,
        a,
        in_release-other fuel k (omega arith) (omega arith),
        in_release-other fuel l (ground arith) (ground arith),
      )
      (ground arith)

then_do-stuck : (r : Run) (f : Mq → Run) → returns? r ≡ false → returns? (then_do r f) ≡ false
then_do-stuck (returns m) f e = cc
then_do-stuck fails f e = refl
then_do-stuck runs_on f e = refl

-- The reference that the copy takes either overflows the count or stays.
then_acquire :
    (count fires : ℕ) (gone : Bool) (f : Mq → Run)
    → ((c : ℕ)
        → returns? (f (record { count = c; input = 2; deleted = gone; fires = fires })) ≡ false)
    → returns? (
        then_do
          (out_acquire 1 (record { count = count; input = 2; deleted = gone; fires = fires }))
          f)
      ≡ false
unfolding out_acquire
then_acquire count fires gone f h = elim (Bool-cases (ltb count (add_word count 1))) [
  | inl e ↦ rw e (h (add_word count 1))
  | inr e ↦ rw e
]

-- The only pointer of a queue is released: the release makes and releases such a pointer itself, so
-- that it does not return, however deep the calls may be nested.
pub last_release_recurs :
    (fuel count fires : ℕ) (gone : Bool)
    → returns?
        (in_release fuel 1 (record { count = count; input = 1; deleted = gone; fires = fires }))
      ≡ false
unfolding in_release
last_release_recurs zero count fires gone = refl
last_release_recurs (suc zero) count fires gone =
    then_do-stuck _ _ (then_acquire count fires gone _ (λ c. refl))
last_release_recurs (suc (suc fuel)) count fires gone =
    then_do-stuck _ _
      (then_acquire count fires gone _ (λ c. last_release_recurs (suc fuel) c (fires + 1) gone))
