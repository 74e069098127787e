-- ===== src/Workq/Locks.antt =====
-- src/workq.cc: `workq::lock_run` and its kin, the locks that threads hold on one workq.
pub mod Serial
use ilias_async.Base.{
  ℕ, ◌+◌, ◌-◌, ◌%◌, ◌<◌, Bool, true, false, not, ◌==◌, if◌then◌else◌, Checked, ok, check, ◌>>=◌,
}
use ilias_async.Workq.Job.{uint}

-- `workq::run_lck`
pub data RunLck : Type 0 where
  run_single run_parallel : RunLck

-- `m_run_single` and `m_run_parallel`, an `unsigned int`.
pub record Locks : Type 0 where
  pub run_single : Bool
  pub run_parallel : ℕ

abbrev pub unlocked : Locks
unlocked = record { run_single = false; run_parallel = 0 }

abbrev pub is_single : RunLck → Bool
is_single run_single = true
is_single run_parallel = false

-- The assertions of `~workq` on the locks.
pub destroy : Locks → Checked (Unit {0})
destroy l = check (not l.run_single) (check (l.run_parallel == 0) (ok tt))

unfoldable pub lock_run_parallel : Locks → Locks × RunLck
lock_run_parallel l = (record l { run_parallel = (l.run_parallel + 1) % uint }, run_parallel)

unfoldable pub lock_run : Locks → Locks × RunLck
unfolding lock_run_parallel
lock_run l =
    if not l.run_single then (record l { run_single = true }, run_single) else lock_run_parallel l

unfoldable pub unlock_run : RunLck → Locks → Checked Locks
unlock_run run_single l = check l.run_single (ok (record l { run_single = false }))
unlock_run run_parallel l =
    check (not (l.run_parallel == 0))
      (ok (record l { run_parallel = (l.run_parallel + uint - 1) % uint }))

-- The two atomic steps of `lock_run_downgrade` on `RUN_SINGLE`.
unfoldable pub downgrade_add : Locks → Locks
unfolding lock_run_parallel
downgrade_add l = (lock_run_parallel l).0

unfoldable pub downgrade_drop : Locks → Checked Locks
downgrade_drop l = check l.run_single (ok (record l { run_single = false }))

-- Both, with nothing in between.
unfoldable pub lock_run_downgrade : RunLck → Locks → Checked (Locks × RunLck)
unfolding downgrade_add downgrade_drop
lock_run_downgrade run_single l = do l' ← downgrade_drop (downgrade_add l); ok (l', run_parallel)
lock_run_downgrade run_parallel l = ok (l, run_parallel)
