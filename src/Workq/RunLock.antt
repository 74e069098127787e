-- ===== src/Workq/RunLock.antt =====
-- src/workq.cc: `wq_run_lock`, which locks a workq and a job on it.
pub mod Level
pub mod Failure
use mathlib.Core.Logic.{ite}
use mathlib.Core.Option.{Option, none, some}
use native.Mathlib.Decide.{ℕ_discrete}
use ilias_async.Base.{
  ℕ, ◌+◌, ◌-◌, ◌<◌, ◌≡◌, Bool, true, false, not, ◌&&◌, List, [], ◌∷◌, ◌++◌, ◌==◌, if◌then◌else◌,
  Checked, ok, assert_failed, check, ◌>>=◌,
}
use ilias_async.Workq.Job.{JobType, JobState, running, busy}
use ilias_async.Workq.Job
use ilias_async.Workq.Locks.{
  Locks, RunLck, run_single, run_parallel, lock_run, lock_run_parallel, unlock_run,
  lock_run_downgrade, is_single,
}

-- A workq with its jobs, which are numbers, and its two run queues, front first.
pub record Workq : Type 0 where
  pub locks : Locks
  pub runq : List ℕ
  pub p_runq : List ℕ
  pub types : ℕ → JobType
  pub states : ℕ → JobState

abbrev pub set_state : (ℕ → JobState) → ℕ → JobState → ℕ → JobState
set_state f j s i = ite (ℕ_discrete j i) s (f i)

-- `erase`: the job is taken out if it is on the queue.
abbrev pub erase : ℕ → List ℕ → List ℕ
erase j [] = []
erase j (i ∷ q) = if j == i then q else i ∷ erase j q

abbrev pub member : ℕ → List ℕ → Bool
member j [] = false
member j (i ∷ q) = if j == i then true else member j q

-- `link_back`: a job that is on the queue already is not added again.
abbrev pub link_back : ℕ → List ℕ → List ℕ × Bool
link_back j q = if member j q then (q, false) else (q ++ j ∷ [], true)

-- `workq::job_to_runq`: the workq, and whether it is to be put on the queue of its service.
unfoldable pub job_to_runq : ℕ → Workq → Workq × Bool
job_to_runq j w =
    let p = if (w.types j).parallel then link_back j w.p_runq else (w.p_runq, false) in
    let r = link_back j w.runq in (record w { runq = r.0; p_runq = p.0 }, if p.1 then true else r.1)

-- What is left of a queue, the job that was locked if any, and the states of the jobs.
abbrev pub Popped : Type 0
Popped = List ℕ × Option ℕ × (ℕ → JobState)

-- `while ((m_wq_job = q.pop_front())) if ((m_wq_job_lck = m_wq_job->lock_run()) != BUSY) break;`
unfoldable pub pop_job : (ℕ → JobType) → List ℕ → (ℕ → JobState) → Popped
pop_job types [] states = ([], none, states)
pop_job types (j ∷ q) states =
    let rest = pop_job types q states in
    let (s, lck) = Job.lock_run (types j) (states j) in
    elim lck [ running ↦ (q, some j, set_state states j s) | busy ↦ rest ]

-- What a `wq_run_lock` holds after `lock`.
pub record Locked : Type 0 where
  pub job : ℕ
  pub level : RunLck

abbrev pub Result : Type 0
Result = Checked (Workq × Option Locked)

-- `this->unlock()` where no job is locked.
abbrev pub give_up : RunLck → Workq → Result
give_up level w = do locks ← unlock_run level w.locks; ok (record w { locks = locks }, none)

-- `lock(workq&)` after `lock_run` has returned `RUN_SINGLE`, with what `pop_job` has found: a
-- parallel job leaves its other queue, and the lock is downgraded.
unfoldable pub keep_single : Workq → Popped → Result
keep_single w (q, none, states) = give_up run_single (record w { runq = q; states = states })
keep_single w (q, some j, states) =
    if (w.types j).parallel
    then (lock_run_downgrade run_single w.locks >>= λ r. ok (
      record w { locks = r.0; runq = q; p_runq = erase j w.p_runq; states = states },
      some (record { job = j; level = r.1 }),
    ))
    else ok (record w { runq = q; states = states }, some (record { job = j; level = run_single }))

-- The same after it has returned `RUN_PARALLEL`.
unfoldable pub keep_parallel : Workq → Popped → Result
keep_parallel w (q, none, states) = give_up run_parallel (record w { p_runq = q; states = states })
keep_parallel w (q, some j, states) = ok (
  record w { runq = erase j w.runq; p_runq = q; states = states },
  some (record { job = j; level = run_parallel }),
)

unfoldable pub lock_at : RunLck → Workq → Result
unfolding keep_single keep_parallel pop_job
lock_at run_single w = keep_single w (pop_job w.types w.runq w.states)
lock_at run_parallel w = keep_parallel w (pop_job w.types w.p_runq w.states)

-- `lock(workq&)`; `none` is the result `false`.
unfoldable pub lock_workq : Workq → Result
unfolding lock_at
lock_workq w = let (locks, level) = lock_run w.locks in lock_at level (record w { locks = locks })

-- The end of `lock(workq_job&)`, with the workq locked at the right level.
unfoldable pub lock_job_at : RunLck → ℕ → Workq → Result
lock_job_at level j w =
    let (s, lck) = Job.lock_run (w.types j) (w.states j) in
    elim lck [
      | busy ↦ give_up level w
      | running ↦ ok (
        record w {
          runq = erase j w.runq;
          p_runq = if (w.types j).parallel then erase j w.p_runq else w.p_runq;
          states = set_state w.states j s;
        },
        some (record { job = j; level = level }),
      )
    ]

-- A job that is not parallel needs the workq alone.
unfoldable pub lock_serial : RunLck → ℕ → Workq → Result
unfolding lock_job_at
lock_serial run_single j w = lock_job_at run_single j w
lock_serial run_parallel j w = give_up run_parallel w

-- `lock(workq_job&)`
unfoldable pub lock_job : ℕ → Workq → Result
unfolding lock_serial
lock_job j w =
    if (w.types j).parallel
    then lock_job_at run_parallel j (record w { locks = (lock_run_parallel w.locks).0 })
    else (let (locks, level) = lock_run w.locks in lock_serial level j (record w { locks = locks }))

-- `unlock()` of a lock that has been committed.
unfoldable pub unlock : Locked → Workq → Checked (Workq × Bool)
unfolding job_to_runq
unlock k w = Job.unlock_run (w.types k.job) (w.states k.job) >>= λ r.
    let w' : Workq = record w { states = set_state w.states k.job r.0 } in
    let (w'', wake) = if r.1 then job_to_runq k.job w' else (w', false) in
    unlock_run k.level w''.locks >>= λ l. ok (record w'' { locks = l }, wake)
