-- ===== src/Workq/Locks/Serial.antt =====
-- src/workq.cc: the threads that hold a workq, and the steps that they take in any order.
use ilias_async.Base.{ℕ, ◌+◌, ◌-◌, ◌<◌, ◌≡◌, ◌≢◌, ◌⊎◌, ◌↔◌, if◌then◌else◌, ok, assert_failed, arith}
use ilias_async.Workq.Job.{uint}
use ilias_async.Workq.Locks.{
  Locks, RunLck, run_single, run_parallel, unlocked, lock_run, lock_run_parallel, unlock_run,
  downgrade_add, downgrade_drop, destroy,
}

-- The locks of a workq and the threads that hold one; `both` counts those between the two steps of
-- a downgrade.
pub record Held : Type 0 where
  pub locks : Locks
  pub singles : ℕ
  pub parallels : ℕ
  pub both : ℕ

abbrev pub none_held : Held
none_held = record { locks = unlocked; singles = 0; parallels = 0; both = 0 }

abbrev pub hold : RunLck → Held → Held
hold run_single h = record h { singles = h.singles + 1 }
hold run_parallel h = record h { parallels = h.parallels + 1 }

abbrev pub holders : RunLck → Held → ℕ
holders run_single h = h.singles
holders run_parallel h = h.parallels

abbrev pub let_go : RunLck → Held → Held
let_go run_single h = record h { singles = h.singles - 1 }
let_go run_parallel h = record h { parallels = h.parallels - 1 }

pub data Step (h : Held) : Held → Type 0 where
  locks_run : Step h (hold (lock_run h.locks).1 (record h { locks = (lock_run h.locks).0 }))
  locks_parallel :
      Step h
        (hold (lock_run_parallel h.locks).1 (record h { locks = (lock_run_parallel h.locks).0 }))
  unlocks :
      (how : RunLck) {l : Locks}
      → 0 < holders how h
      → unlock_run how h.locks ≡ ok l
      → Step h (let_go how (record h { locks = l }))
  starts_downgrade :
      0 < h.singles
      → Step h
          (record h { locks = downgrade_add h.locks; singles = h.singles - 1; both = h.both + 1 })
  ends_downgrade :
      {l : Locks}
      → 0 < h.both
      → downgrade_drop h.locks ≡ ok l
      → Step h (record h { locks = l; both = h.both - 1; parallels = h.parallels + 1 })

-- An `unsigned int` can count the threads.
abbrev pub HasRoom : Held → Type 0
HasRoom h = h.parallels + h.both + 1 < uint

pub data Reach : Held → Type 0 where
  here : Reach none_held
  next : {g h : Held} → Reach g → HasRoom g → Step g h → Reach h

pub record Inv (h : Held) : Type 0 where
  pub single : (if h.locks.run_single then 1 else 0) ≡ h.singles + h.both
  pub parallel : h.locks.run_parallel ≡ h.parallels + h.both

pub Step-Inv : {g h : Held} → HasRoom g → Step g h → Inv g → Inv h
unfolding lock_run lock_run_parallel unlock_run downgrade_add downgrade_drop
Step-Inv room locks_run v = ground arith
Step-Inv room locks_parallel v = ground arith
Step-Inv room (unlocks run_single h e) v = ground arith
Step-Inv room (unlocks run_parallel h e) v = ground arith
Step-Inv room (starts_downgrade h) v = ground arith
Step-Inv room (ends_downgrade h e) v = ground arith

pub Reach-Inv : {h : Held} → Reach h → Inv h
Reach-Inv here = ground arith
Reach-Inv (next r room st) = Step-Inv room st (Reach-Inv r)

-- Never do two threads hold a workq for themselves, one that is about to downgrade included.
pub at_most_one_single : {h : Held} → Reach h → h.singles + h.both < 2
at_most_one_single r = let v = Reach-Inv r in ground arith

-- A thread gets the workq for itself exactly when no other has it.
pub lock_run-single :
    {h : Held} → Reach h → ((lock_run h.locks).1 ≡ run_single) ↔ (h.singles + h.both ≡ 0)
unfolding lock_run lock_run_parallel
lock_run-single r = let v = Reach-Inv r in (λ e. ground arith, λ e. ground arith)

-- No assertion on the locks fails: not for a thread that gives back what it holds, nor in a
-- downgrade, nor, once all is given back, in the destructor.
pub lock_asserts_hold :
    {h : Held}
    → Reach h
    → HasRoom h
    → ((h.singles ≡ 0) ⊎ (unlock_run run_single h.locks ≢ assert_failed))
      × ((h.parallels ≡ 0) ⊎ (unlock_run run_parallel h.locks ≢ assert_failed))
      × ((h.both ≡ 0) ⊎ (downgrade_drop h.locks ≢ assert_failed))
      × ((h.singles + h.both + h.parallels ≢ 0) ⊎ (destroy h.locks ≡ ok tt))
unfolding unlock_run downgrade_drop destroy
lock_asserts_hold r room = let v = Reach-Inv r in ground arith
