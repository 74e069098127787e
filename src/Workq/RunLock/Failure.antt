-- ===== src/Workq/RunLock/Failure.antt =====
-- src/workq.cc: the locks of the workq after `wq_run_lock::lock(workq&)`.
use mathlib.Core.Option.{none, some}
use ilias_async.Base.{
  ℕ, ◌+◌, ◌%◌, ◌<◌, ◌≡◌, refl, Bool, true, false, ok, assert_failed, arith, Bool-cases, inl, inr,
}
use ilias_async.Workq.Job.{uint}
use ilias_async.Workq.Locks.{
  Locks, RunLck, run_single, run_parallel, lock_run, lock_run_parallel, unlock_run,
  lock_run_downgrade,
}
use ilias_async.Workq.RunLock.{
  Workq, Result, Popped, give_up, pop_job, keep_single, keep_parallel, lock_at, lock_workq,
}

-- The locks of a workq that were free for this lock and have been taken at its level.
abbrev pub TakenAt : RunLck → Locks → Locks → Type 0
TakenAt run_single l m =
    (l.run_single ≡ false) × (m.run_single ≡ true) × (m.run_parallel ≡ l.run_parallel)
TakenAt run_parallel l m = (m.run_single ≡ l.run_single) × (m.run_parallel ≡ l.run_parallel + 1)

-- A lock that fails leaves the locks of the workq as they were; one that succeeds has taken its own.
abbrev pub Held : Locks → Result → Type 0
Held l assert_failed = Unit {0}
Held l (ok (q, none)) = q.locks ≡ l
Held l (ok (q, some k)) = TakenAt k.level l q.locks

-- A lock that fails leaves the locks of the workq as they were.
abbrev pub NoneKeeps : Locks → Result → Type 0
NoneKeeps l assert_failed = Unit {0}
NoneKeeps l (ok (q, none)) = q.locks ≡ l
NoneKeeps l (ok (q, some k)) = Unit {0}

give_single :
    (l : Locks) (q : Workq)
    → q.locks ≡ record { run_single = true; run_parallel = l.run_parallel }
    → l.run_single ≡ false
    → Held l (give_up run_single q)
unfolding unlock_run
give_single l q e f = rw e (ground arith)

give_parallel :
    (l : Locks) (q : Workq)
    → q.locks ≡ (lock_run_parallel l).0
    → l.run_parallel + 1 < uint
    → Held l (give_up run_parallel q)
unfolding unlock_run lock_run_parallel
give_parallel l q e f = rw e (ground arith)

keep_single-Held :
    (l : Locks) (q : Workq) (p : Popped)
    → q.locks ≡ record { run_single = true; run_parallel = l.run_parallel }
    → l.run_single ≡ false
    → l.run_parallel + 1 < uint
    → Held l (keep_single q p)
unfolding keep_single lock_run_downgrade
keep_single-Held l q (r, none, st) e f room = give_single l (record q { runq = r; states = st }) e f
keep_single-Held l q (r, some j, st) e f room = elim (Bool-cases (q.types j).parallel) [
  | inl par ↦ rw (par, e, keep_single) (ground arith)
  | inr ser ↦ rw (ser, e, keep_single) (ground arith)
]

keep_parallel-Held :
    (l : Locks) (q : Workq) (p : Popped)
    → q.locks ≡ (lock_run_parallel l).0
    → l.run_parallel + 1 < uint
    → Held l (keep_parallel q p)
unfolding keep_parallel lock_run_parallel
keep_parallel-Held l q (r, none, st) e f =
    give_parallel l (record q { p_runq = r; states = st }) e f
keep_parallel-Held l q (r, some j, st) e f = rw e (ground arith)

held_from :
    (b : Bool) (n : ℕ) (q : Workq)
    → n + 1 < uint
    → Held
        (record { run_single = b; run_parallel = n })
        (lock_workq (record q { locks = record { run_single = b; run_parallel = n } }))
unfolding lock_workq lock_at lock_run lock_run_parallel
held_from true n q room =
    let l : Locks = record { run_single = true; run_parallel = n } in
    let m : Locks = record { run_single = true; run_parallel = (n + 1) % uint } in
    keep_parallel-Held l (record q { locks = m }) (pop_job q.types q.p_runq q.states) refl room
held_from false n q room =
    let l : Locks = record { run_single = false; run_parallel = n } in
    let m : Locks = record { run_single = true; run_parallel = n } in
    keep_single-Held l (record q { locks = m }) (pop_job q.types q.runq q.states) refl refl room

pub lock_workq-Held : (q : Workq) → q.locks.run_parallel + 1 < uint → Held q.locks (lock_workq q)
lock_workq-Held q room = held_from q.locks.run_single q.locks.run_parallel q room

Held-NoneKeeps : (l : Locks) (r : Result) → Held l r → NoneKeeps l r
Held-NoneKeeps l assert_failed h = tt
Held-NoneKeeps l (ok (q, none)) h = h
Held-NoneKeeps l (ok (q, some k)) h = tt

pub lock_workq-keeps :
    (q : Workq) → q.locks.run_parallel + 1 < uint → NoneKeeps q.locks (lock_workq q)
lock_workq-keeps q room = Held-NoneKeeps q.locks (lock_workq q) (lock_workq-Held q room)
