-- ===== src/Workq/Job/Activation.antt =====
-- `workq_job` in src/workq.cc: the activations and the runs of one job.
use ilias_async.Base.{◌+◌, ◌<◌, ◌≡◌, ◌≢◌, ◌⊎◌, true, false, if◌then◌else◌, assert_failed, arith}
use ilias_async.Workq.Job.{JobType, running, lock_run, activate, unlock_run, clear}
use ilias_async.Workq.Job.Flow.{
  Flow, Step, activates, links, pops, pops_parallel, locks, locks_immediately, erases,
  erases_parallel, deactivates, unlocks, Reach, here, next,
}

-- Somebody is going to look at the job: it is on a queue or in the hands of a thread.
abbrev pub IsNoticed : Flow → Type 0
IsNoticed f = (f.runq ≡ true) ⊎ (f.p_runq ≡ true) ⊎ (0 < f.linking + f.popping)

pub record Inv (ty : JobType) (f : Flow) : Type 0 where
  pub one_runner : f.runners ≡ (if f.job.running then 1 else 0)
  pub noticed : (ty.once ≡ true) ⊎ (f.job.active ≡ false) ⊎ (f.job.running ≡ true) ⊎ IsNoticed f
  pub never_marked : f.job.has_run ≡ false

pub Step-Inv : {ty : JobType} {f g : Flow} → Step ty f g → Inv ty f → Inv ty g
unfolding lock_run activate unlock_run clear
Step-Inv activates v = ground arith
Step-Inv (links h) v = ground arith
Step-Inv (pops h) v = ground arith
Step-Inv (pops_parallel h) v = ground arith
Step-Inv (locks h) v = ground arith
Step-Inv locks_immediately v = ground arith
Step-Inv (erases h) v = ground arith
Step-Inv (erases_parallel h) v = ground arith
Step-Inv deactivates v = ground arith
Step-Inv (unlocks h e) v = ground arith

pub Reach-Inv : {ty : JobType} {f : Flow} → Reach ty f → Inv ty f
Reach-Inv here = ground arith
Reach-Inv (next r st) = Step-Inv st (Reach-Inv r)

-- At most one thread runs a job, the running bit says whether one does, and the assertion of
-- `unlock_run` holds for that thread.
pub one_run_at_a_time :
    {ty : JobType} {f : Flow}
    → Reach ty f
    → (f.runners ≡ (if f.job.running then 1 else 0))
      × ((f.runners ≡ 0) ⊎ (unlock_run ty f.job ≢ assert_failed))
unfolding unlock_run
one_run_at_a_time r = let v = Reach-Inv r in ground arith

-- A job that may run more than once, is active and is not running, is on a run queue as soon as no
-- thread is between setting the flag and queueing it, or between taking it and locking it.
pub activation_not_lost :
    {ty : JobType} {f : Flow}
    → Reach ty f
    → ty.once ≡ false
    → f.job.active ≡ true
    → f.job.running ≡ false
    → f.linking + f.popping ≡ 0
    → (f.runq ≡ true) ⊎ (f.p_runq ≡ true)
activation_not_lost r once active still quiet = let v = Reach-Inv r in ground arith

-- Whoever takes such a job from its queue then gets its run lock, and the activation is used up
-- unless the job is persistent.
pub taken_job_runs :
    {ty : JobType} {f : Flow}
    → Reach ty f
    → f.job.active ≡ true
    → f.job.running ≡ false
    → let (s, lck) = lock_run ty f.job in
      (lck ≡ running) × (s.running ≡ true) × (s.active ≡ ty.persist)
unfolding lock_run
taken_job_runs r active still = let v = Reach-Inv r in ground arith
