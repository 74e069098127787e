-- ===== src/Workq/Job/Race.antt =====
-- `workq_job` in src/workq.cc: further runs of a job, and calls of `deactivate`.
use ilias_async.Base.{ℕ, ◌<◌, ◌≡◌, ◌≢◌, true, false, arith}
use ilias_async.Workq.Job.{
  JobType, JobState, running, lock_run, activate, clear, deactivate_loops, uint,
}
use ilias_async.Workq.Job.Flow.{Flow, Reach}
use ilias_async.Workq.Job.Activation.{Reach-Inv}

-- A job of type `TYPE_ONCE` runs again whenever it is activated again: its run lock is granted in
-- every state that the job can come to in which it is active and not running.
pub once_runs_again :
    {ty : JobType} {f : Flow}
    → Reach ty f
    → ty.once ≡ true
    → f.job.running ≡ false
    → (lock_run ty (activate f.job).0).1 ≡ running
unfolding lock_run activate
once_runs_again r once still = let v = Reach-Inv r in ground arith

-- A call of `deactivate` from outside that reads the generation, while a job that is active and not
-- running gets its run lock before the flag is cleared, returns at once although the job runs.
pub deactivate_returns_early :
    (ty : JobType) (s : JobState)
    → (lock_run ty s).1 ≡ running
    → s.run_gen < uint
    → let locked = (lock_run ty s).0 in
      let cleared = clear locked in
      (deactivate_loops false s.run_gen locked cleared ≡ false) × (cleared.running ≡ true)
unfolding lock_run clear deactivate_loops
deactivate_returns_early ty s h fits = ground arith

-- Where the generation is read during the run, `deactivate` loops until the job has stopped or has
-- been started anew.
pub deactivate_waits :
    (gen : ℕ) (seen now : JobState)
    → seen.running ≡ true
    → deactivate_loops false gen seen now ≡ false
    → gen ≢ now.run_gen
unfolding deactivate_loops
deactivate_waits gen seen now h e q = ground arith
