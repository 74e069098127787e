-- ===== src/Workq/Service/Aid.antt =====
-- `workq_service::aid` of src/workq.cc, and the calls that a threadpool makes of it.
pub mod Counts
pub mod Idle
use mathlib.Core.Option.{Option, none, some}
use ilias_async.LlList.Memory.{Run, returns, fails, runs_on, ◌>>=◌}
use ilias_async.LlList.Iterator.{Ring, elements, begin, increment}
use ilias_async.Base.{ℕ, zero, suc, ◌+◌, Bool, true, false, not, ◌&&◌, if◌then◌else◌, ltb, is_empty}
use ilias_async.Workq.RunLock.{Workq, Locked}
use ilias_async.Workq.Service.Coroutines.{Functions, co_run}
use ilias_async.Workq.Service.{Service, Aided, Acquired, lock_service, run_job, empty}

-- The code of clients, and what other threads do: the functions of the coroutines; `run` of a job; the
-- changes of the workqs by other threads.
pub record Client : Type 0 where
  pub functions : Functions
  pub body : ℕ → ℕ → (ℕ → Workq) → ℕ → Workq
  pub others : (ℕ → Workq) → ℕ → Workq

-- The inner loop, over the coroutines.
unfoldable pub co_loop : Client → ℕ → ℕ → Service → ℕ → Aided
unfolding increment co_run
co_loop c count zero s i = runs_on
co_loop c count (suc fuel) s i = elim s.co_runq.ptr [
  | none ↦ returns (s, i)
  | some co ↦ elim (ltb i count) [
    | false ↦ returns (s, i)
    | true ↦ co_run c.functions fuel co s >>= λ (t, ran).
        co_loop c count fuel (record t { co_runq = increment t.co_runq }) (if ran then i + 1 else i)
  ]
]

-- A workq is run, or none is available.
unfoldable pub run_acquired :
    Client → (Service → ℕ → Aided) → ℕ → Service × Option (ℕ × Locked) → Aided
unfolding run_job
run_acquired c again i (s, none) = returns (s, i)
run_acquired c again i (s, some k) = run_job c.body k s >>= λ t. again t (i + 1)

-- The loop of `aid`.
unfoldable pub aid_loop : Client → ℕ → ℕ → Service → ℕ → Aided
unfolding co_loop run_acquired lock_service begin
aid_loop c count zero s i = runs_on
aid_loop c count (suc fuel) s i = elim (ltb i count) [
  | false ↦ returns (s, i)
  | true ↦ elim (is_empty (elements s.co_runq)) [
    | false ↦
        co_loop c count fuel (record s { co_runq = begin (elements s.co_runq) }) i >>= λ (t, j).
        aid_loop c count fuel t (j + 1)
    | true ↦ lock_service c.others fuel s >>= λ r. run_acquired c (aid_loop c count fuel) i r
  ]
]

unfoldable pub aid : Client → ℕ → ℕ → Service → Run (Service × Bool)
unfolding aid_loop
aid c fuel count s = aid_loop c count fuel s 0 >>= λ (t, i). returns (t, ltb 0 i)

-- `threadpool_client::do_work`; whether the threadpool has a client, and whether the thread works for a
-- service already.
unfoldable pub do_work : Bool → Bool → Client → ℕ → Service → Run (Service × Bool)
unfolding aid
do_work has_client published c fuel s =
    if not has_client
    then returns (s, false)
    else if published
    then returns (s, false)
    else aid c fuel 32 s

-- `threadpool_client::has_work`
unfoldable pub has_work : Bool → Service → Bool
unfolding empty
has_work has_client s = has_client && not (empty s)
