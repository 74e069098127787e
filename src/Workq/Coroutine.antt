-- ===== src/Workq/Coroutine.antt =====
-- src/workq.cc: `coroutine_job` and `co_runnable`, whose functions several threads run together.
use ilias_async.Base.{
  ℕ, ◌+◌, ◌-◌, ◌<◌, ◌≡◌, Bool, true, false, List, [], ◌∷◌, ◌==◌, if◌then◌else◌, ltb, inc, dec, word,
  arith,
}
use ilias_async.Workq.Job.{
  JobType, JobState, RunLck, running, busy, lock_run, activate, clear, deactivate_loops,
}

-- One run of a coroutine job: `m_co_idx`, the number of functions, `m_runcount`, whether `m_rlck`
-- holds the run lock, the threads inside `co_run`, and the functions that have been called, last
-- first.
pub record CoRun : Type 0 where
  pub co_idx : ℕ
  pub size : ℕ
  pub runcount : ℕ
  pub rlck_held : Bool
  pub inside : ℕ
  pub called : List ℕ

-- `run()`: `co_publish` of all functions.
unfoldable pub publish : ℕ → CoRun
publish n = record { co_idx = 0; size = n; runcount = n; rlck_held = true; inside = 0; called = [] }

-- `wq_run_lock(co_runnable&)`
unfoldable pub enter : CoRun → CoRun
enter c = record c { runcount = inc c.runcount; inside = c.inside + 1 }

-- The test of the loop in `co_run` and the call of the function, if there is one left.
unfoldable pub fetch : CoRun → CoRun
fetch c = record c {
  co_idx = inc c.co_idx;
  called = if ltb c.co_idx c.size then c.co_idx ∷ c.called else c.called;
}

-- `release`, with `co_unlock`: the run lock leaves `m_rlck` with the thread that finds the count
-- at 1.
unfoldable pub release : CoRun → CoRun
release c = record c {
  runcount = dec c.runcount;
  inside = c.inside - 1;
  rlck_held = if c.runcount == 1 then false else c.rlck_held;
}

pub data Step (c : CoRun) : CoRun → Type 0 where
  enters : Step c (enter c)
  fetches : 0 < c.inside → Step c (fetch c)
  releases : 0 < c.inside → Step c (release c)

-- A `size_t` can count the threads, the functions and the tests of the loop.
abbrev pub HasRoom : CoRun → Type 0
HasRoom c = (c.size + c.inside + 1 < word) × (c.co_idx + 1 < word)

pub data Reach (n : ℕ) : CoRun → Type 0 where
  here : Reach n (publish n)
  next : {c d : CoRun} → Reach n c → HasRoom c → Step c d → Reach n d

abbrev pub calls : ℕ → List ℕ → ℕ
calls i [] = 0
calls i (j ∷ js) = (if i == j then 1 else 0) + calls i js

pub record Inv (n : ℕ) (c : CoRun) : Type 0 where
  pub same_size : c.size ≡ n
  pub counted : c.runcount ≡ n + c.inside
  pub held : c.rlck_held ≡ true

Step-Inv : {n : ℕ} {c d : CoRun} → 0 < n → HasRoom c → Step c d → Inv n c → Inv n d
unfolding enter fetch release
Step-Inv pos room enters v = ground arith
Step-Inv pos room (fetches h) v = ground arith
Step-Inv pos room (releases h) v = ground arith

Reach-Inv : {n : ℕ} {c : CoRun} → 0 < n → Reach n c → Inv n c
unfolding publish
Reach-Inv pos here = ground arith
Reach-Inv pos (next r room st) = Step-Inv pos room st (Reach-Inv pos r)

-- The run lock of a coroutine job is never given back: `co_publish` starts the count at the number
-- of functions, and every thread that enters takes its own 1 away again, so that none finds 1.
pub run_lock_never_returned :
    {n : ℕ} {c : CoRun} → 0 < n → Reach n c → (c.rlck_held ≡ true) × (c.runcount ≡ n + c.inside)
run_lock_never_returned pos r = let v = Reach-Inv pos r in ground arith

abbrev CalledOnce : CoRun → Type 0
CalledOnce c =
    (i : ℕ) → calls i c.called ≡ (if ltb i c.co_idx then (if ltb i c.size then 1 else 0) else 0)

Step-CalledOnce : {c d : CoRun} → HasRoom c → Step c d → CalledOnce c → CalledOnce d
unfolding enter fetch release
Step-CalledOnce room enters o i = o i
Step-CalledOnce room (fetches h) o i = ground (arith, o i)
Step-CalledOnce room (releases h) o i = o i

-- In whatever way the threads interleave, the functions below `m_co_idx` have been called exactly
-- once each, and no other.
pub called_once :
    {n : ℕ} {c : CoRun}
    → Reach n c
    → (i : ℕ) → calls i c.called ≡ (if ltb i c.co_idx then (if ltb i c.size then 1 else 0) else 0)
unfolding publish
called_once here i = ground arith
called_once (next r room st) i = Step-CalledOnce room st (called_once r) i

-- `co_runnable::unlock_run` leaves a running job as it is.
pub co_unlock_run : RunLck → JobState → JobState
co_unlock_run running s = s
co_unlock_run busy s = s

-- Once a coroutine job has run, its running bit stays: it is not queued when it is activated, it
-- cannot be locked again, and `deactivate` from outside loops for ever.
pub coroutine_stays_running :
    (ty : JobType) (s : JobState)
    → (lock_run ty s).1 ≡ running
    → let left = co_unlock_run running (lock_run ty s).0 in
      let again = (activate left).0 in
      ((activate left).1 ≡ false)
      × ((lock_run ty again).1 ≡ busy)
      × (deactivate_loops false left.run_gen left (clear left) ≡ true)
unfolding co_unlock_run lock_run activate clear deactivate_loops
coroutine_stays_running ty s h = ground arith
