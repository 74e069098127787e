-- ===== src/Workq/Job/Flow.antt =====
-- One job under all the threads that activate, take, run and deactivate it: the atomic steps of
-- `workq_job`, `workq::job_to_runq` and `wq_run_lock` in src/workq.cc, in any order.
use ilias_async.Base.{ℕ, ◌+◌, ◌-◌, ◌<◌, ◌≡◌, Bool, true, false, ◌||◌, ok}
use ilias_async.Workq.Job.{
  JobType, JobState, RunLck, running, busy, fresh, lock_run, activate, unlock_run, clear,
}

-- `linking` threads have set the active flag or released the job, and are about to put it on the
-- queues; `popping` threads have taken it from a queue and are about to lock it; `runners` threads
-- hold its run lock.
pub record Flow : Type 0 where
  pub job : JobState
  pub runq : Bool
  pub p_runq : Bool
  pub linking : ℕ
  pub popping : ℕ
  pub runners : ℕ

abbrev pub idle : Flow
idle = record { job = fresh; runq = false; p_runq = false; linking = 0; popping = 0; runners = 0 }

abbrev pub link_if : Bool → Flow → Flow
link_if true f = record f { linking = f.linking + 1 }
link_if false f = f

abbrev pub run_if : RunLck → Flow → Flow
run_if running f = record f { runners = f.runners + 1 }
run_if busy f = f

pub data Step (ty : JobType) (f : Flow) : Flow → Type 0 where
  activates : Step ty f (link_if (activate f.job).1 (record f { job = (activate f.job).0 }))
  links :
      0 < f.linking
      → Step ty f
          (record f { runq = true; p_runq = ty.parallel || f.p_runq; linking = f.linking - 1 })
  pops : f.runq ≡ true → Step ty f (record f { runq = false; popping = f.popping + 1 })
  pops_parallel : f.p_runq ≡ true → Step ty f (record f { p_runq = false; popping = f.popping + 1 })
  locks :
      0 < f.popping
      → Step ty f (
          run_if
            (lock_run ty f.job).1
            (record f { job = (lock_run ty f.job).0; popping = f.popping - 1 }))
  locks_immediately :
      Step ty f (run_if (lock_run ty f.job).1 (record f { job = (lock_run ty f.job).0 }))
  erases : 0 < f.runners → Step ty f (record f { runq = false })
  erases_parallel : 0 < f.runners → Step ty f (record f { p_runq = false })
  deactivates : Step ty f (record f { job = clear f.job })
  unlocks :
      {s : JobState} {again : Bool}
      → 0 < f.runners
      → unlock_run ty f.job ≡ ok (s, again)
      → Step ty f (link_if again (record f { job = s; runners = f.runners - 1 }))

pub data Reach (ty : JobType) : Flow → Type 0 where
  here : Reach ty idle
  next : {f g : Flow} → Reach ty f → Step ty f g → Reach ty g
