-- ===== src/Workq/RunLock/Level.antt =====
-- src/workq.cc: the level at which `wq_run_lock` holds its workq.
use mathlib.Core.Option.{none, some}
use native.Mathlib.Decide.{ℕ_discrete}
use ilias_async.Base.{
  ℕ, ◌+◌, ◌<◌, ◌≡◌, ◌≢◌, ◌⊎◌, inl, inr, refl, true, false, not, List, [], ◌∷◌, ◌==◌, if◌then◌else◌,
  ok, assert_failed, All, All-append, arith, Bool-cases,
}
use ilias_async.Workq.Job.{JobType, JobState, running, busy, uint}
use ilias_async.Workq.Job
use ilias_async.Workq.Locks.{
  Locks, RunLck, run_single, run_parallel, lock_run, lock_run_parallel, unlock_run,
  lock_run_downgrade, is_single,
}
use ilias_async.Workq.RunLock.Failure.{Held, lock_workq-Held}
use ilias_async.Workq.RunLock.{
  Workq, give_up, Popped, pop_job, keep_single, keep_parallel, lock_at, lock_workq, lock_job,
  lock_job_at, lock_serial, job_to_runq, link_back, erase, member, Result,
}

-- The second queue holds parallel jobs only.
abbrev pub Sorted : Workq → Type 0
Sorted w = All (λ j. (w.types j).parallel ≡ true) w.p_runq

-- The job that is found runs now.
pop_job-running :
    (types : ℕ → JobType) (q : List ℕ) (states : ℕ → JobState) (j : ℕ)
    → (pop_job types q states).1 ≡ some j
    → ((pop_job types q states).2 j).running ≡ true
unfolding pop_job Job.lock_run
pop_job-running types [] states j e = ground arith
pop_job-running types (i ∷ q) states j e = ground (arith, pop_job-running types q states j)

abbrev IsParallel : (ℕ → JobType) → List ℕ → Type 0
IsParallel types = All (λ j. (types j).parallel ≡ true)

pop_job-parallel :
    (types : ℕ → JobType) (q : List ℕ) (states : ℕ → JobState) (j : ℕ)
    → IsParallel types q
    → (pop_job types q states).1 ≡ some j
    → (types j).parallel ≡ true
unfolding pop_job
pop_job-parallel types [] states j h e = ground arith
pop_job-parallel types (i ∷ q) states j h e = ground (arith, pop_job-parallel types q states j)

erase-IsParallel :
    (types : ℕ → JobType) (j : ℕ) (q : List ℕ) → IsParallel types q → IsParallel types (erase j q)
erase-IsParallel types j [] h = tt
erase-IsParallel types j (i ∷ q) h = ground (arith, erase-IsParallel types j q)

-- No assertion fails, and a lock that succeeds holds a job that runs, and the workq alone exactly
-- when that job is not parallel.
abbrev pub Levels : Result → Type 0
Levels assert_failed = ⊥
Levels (ok (w, none)) = IsParallel w.types w.p_runq
Levels (ok (w, some k)) =
    ((w.states k.job).running ≡ true)
    × (is_single k.level ≡ not (w.types k.job).parallel)
    × IsParallel w.types w.p_runq

give_up_single : (w : Workq) → w.locks.run_single ≡ true → Sorted w → Levels (give_up run_single w)
unfolding unlock_run
give_up_single w h srt = rw (h, unlock_run) srt

give_up_parallel :
    (w : Workq) → w.locks.run_parallel ≢ 0 → Sorted w → Levels (give_up run_parallel w)
unfolding unlock_run
give_up_parallel w h srt = elim (Bool-cases (w.locks.run_parallel == 0)) [
  | inl z ↦ absurd (ground arith)
  | inr nz ↦ rw (nz, unlock_run) srt
]

keep_single-Levels :
    (w : Workq) (r : Popped)
    → w.locks.run_single ≡ true
    → Sorted w
    → ((j : ℕ) → r.1 ≡ some j → (r.2 j).running ≡ true)
    → Levels (keep_single w r)
unfolding keep_single lock_run_downgrade
keep_single-Levels w (q, none, states) h srt runs = give_up_single _ h srt
keep_single-Levels w (q, some j, states) h srt runs = elim (Bool-cases (w.types j).parallel) [
  | inl par ↦
      rw (par, h, keep_single) (runs j refl, rw par, erase-IsParallel w.types j w.p_runq srt)
  | inr ser ↦ rw (ser, keep_single) (runs j refl, rw ser, srt)
]

keep_parallel-Levels :
    (w : Workq) (r : Popped)
    → w.locks.run_parallel ≢ 0
    → IsParallel w.types r.0
    → ((j : ℕ) → r.1 ≡ some j → (r.2 j).running ≡ true)
    → ((j : ℕ) → r.1 ≡ some j → (w.types j).parallel ≡ true)
    → Levels (keep_parallel w r)
unfolding keep_parallel
keep_parallel-Levels w (q, none, states) h srt runs par = give_up_parallel _ h srt
keep_parallel-Levels w (q, some j, states) h srt runs par = (runs j refl, rw (par j refl), srt)

pop_job-rest :
    (types : ℕ → JobType) (q : List ℕ) (states : ℕ → JobState)
    → IsParallel types q
    → IsParallel types (pop_job types q states).0
unfolding pop_job
pop_job-rest types [] states h = tt
pop_job-rest types (i ∷ q) states h = ground (arith, pop_job-rest types q states)

lock_at-Levels :
    (level : RunLck) (w : Workq)
    → (if is_single level then w.locks.run_single ≡ true else w.locks.run_parallel ≢ 0)
    → Sorted w
    → Levels (lock_at level w)
unfolding lock_at
lock_at-Levels run_single w h srt =
    keep_single-Levels w (pop_job w.types w.runq w.states) h srt
      (pop_job-running w.types w.runq w.states)
lock_at-Levels run_parallel w h srt =
    keep_parallel-Levels w (pop_job w.types w.p_runq w.states) h
      (pop_job-rest w.types w.p_runq w.states srt) (pop_job-running w.types w.p_runq w.states)
      (λ j e. pop_job-parallel w.types w.p_runq w.states j srt e)

pub level_of_lock : (w : Workq) → w.locks.run_parallel + 1 < uint → Sorted w → Levels (lock_workq w)
unfolding lock_workq lock_run
level_of_lock w room srt = elim (Bool-cases w.locks.run_single) [
  | inl held ↦ rw (held, lock_workq) (lock_at-Levels run_parallel _ (λ z. ground arith) srt)
  | inr free ↦ rw (free, lock_workq) (lock_at-Levels run_single _ refl srt)
]

-- `lock(workq&)`, on a workq whose second queue holds parallel jobs only and whose count of parallel
-- locks has room, fails no assertion. If it locks a job, then that job runs; if the job is not parallel,
-- the workq was not held alone and is now, with its count as it was; if it is parallel, the count is one
-- more, and the workq is held alone only if it was. If it locks no job, the locks of the workq are as they
-- were. The second queue again holds parallel jobs only.
pub lock_workq-Levels :
    (w : Workq)
    → w.locks.run_parallel + 1 < uint
    → Sorted w
    → Levels (lock_workq w) × Held w.locks (lock_workq w)
lock_workq-Levels w room srt = (level_of_lock w room srt, lock_workq-Held w room)

RunLck-cases : (r : Job.RunLck) → (r ≡ running) ⊎ (r ≡ busy)
RunLck-cases running = inl refl
RunLck-cases busy = inr refl

lock_run-running :
    (ty : JobType) (s : JobState)
    → (Job.lock_run ty s).1 ≡ running
    → (Job.lock_run ty s).0.running ≡ true
unfolding Job.lock_run
lock_run-running ty s e = ground arith

lock_job_at-Levels :
    (level : RunLck) (j : ℕ) (w : Workq)
    → Levels (give_up level w)
    → is_single level ≡ not (w.types j).parallel
    → Sorted w
    → Levels (lock_job_at level j w)
unfolding lock_job_at ℕ_discrete
lock_job_at-Levels level j w back lev srt =
    elim (RunLck-cases (Job.lock_run (w.types j) (w.states j)).1) [
      | inl got ↦
          rw (got, lock_job_at)
            (
              ground (arith, lock_run-running (w.types j) (w.states j) got),
              lev,
              ground (arith, erase-IsParallel w.types j w.p_runq srt),
            )
      | inr no_lock ↦ rw (no_lock, lock_job_at) back
    ]

-- The lock that `lock_run` says it has taken.
abbrev IsHeld : RunLck → Locks → Type 0
IsHeld run_single l = l.run_single ≡ true
IsHeld run_parallel l = l.run_parallel ≢ 0

lock_run-IsHeld : (l : Locks) → l.run_parallel + 1 < uint → IsHeld (lock_run l).1 (lock_run l).0
unfolding lock_run lock_run_parallel
lock_run-IsHeld l room = elim (Bool-cases l.run_single) [
  | inl held ↦ rw (held, lock_run) (λ z. ground arith)
  | inr free ↦ rw (free, lock_run)
]

lock_serial-Levels :
    (level : RunLck) (j : ℕ) (w : Workq)
    → IsHeld level w.locks
    → (w.types j).parallel ≡ false
    → Sorted w
    → Levels (lock_serial level j w)
unfolding lock_serial
lock_serial-Levels run_single j w held ser srt =
    lock_job_at-Levels run_single j w (give_up_single w held srt) (rw ser) srt
lock_serial-Levels run_parallel j w held ser srt = give_up_parallel w held srt

-- The same for `lock(workq_job&)`.
pub lock_job-Levels :
    (j : ℕ) (w : Workq) → w.locks.run_parallel + 1 < uint → Sorted w → Levels (lock_job j w)
unfolding lock_job lock_run lock_run_parallel
lock_job-Levels j w room srt = elim (Bool-cases (w.types j).parallel) [
  | inl par ↦
      rw (par, lock_job)
        (let taken : Workq = record w { locks = (lock_run_parallel w.locks).0 } in
          lock_job_at-Levels run_parallel j taken (give_up_parallel taken (λ z. ground arith) srt)
            (rw par) srt)
  | inr ser ↦
      rw (ser, lock_job)
        (lock_serial-Levels (lock_run w.locks).1 j (record w { locks = (lock_run w.locks).0 })
          (lock_run-IsHeld w.locks room) ser srt)
]

-- Queueing a job keeps the second queue free of jobs that are not parallel.
link_back-parallel :
    (types : ℕ → JobType) (j : ℕ) (q : List ℕ)
    → (types j).parallel ≡ true
    → IsParallel types q
    → IsParallel types (link_back j q).0
link_back-parallel types j q par srt = elim (Bool-cases (member j q)) [
  | inl old ↦ rw old srt
  | inr new ↦ rw new (All-append (λ i. (types i).parallel ≡ true) q (j ∷ []) srt (par, tt))
]

pub job_to_runq-Sorted : (j : ℕ) (w : Workq) → Sorted w → Sorted (job_to_runq j w).0
unfolding job_to_runq
job_to_runq-Sorted j w srt = elim (Bool-cases (w.types j).parallel) [
  | inl par ↦ rw (par, job_to_runq) (link_back-parallel w.types j w.p_runq par srt)
  | inr ser ↦ rw (ser, job_to_runq) srt
]
