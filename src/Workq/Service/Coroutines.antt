-- ===== src/Workq/Service/Coroutines.antt =====
-- src/workq.cc: one coroutine in `aid`, `co_run` with the lock of its workq around it. The functions of
-- the coroutines are code of clients.
pub mod Finished
use mathlib.Core.Logic.{ite}
use native.Mathlib.Decide.{ℕ_discrete}
use ilias_async.LlList.Memory.{Run, returns, fails, runs_on, ◌>>=◌}
use ilias_async.LlList.Iterator.{take_out}
use ilias_async.Base.{
  ℕ, zero, suc, ◌+◌, Bool, true, false, ltb, ◌==◌, if◌then◌else◌, Checked, ok, assert_failed,
}
use ilias_async.Workq.Locks.{Locks, RunLck, run_parallel, lock_run_parallel, unlock_run}
use ilias_async.Workq.Coroutine.{CoRun, enter, fetch}
use ilias_async.Workq.Coroutine
use ilias_async.Workq.Service.{Service, Coroutine, set_workq}

-- What function `idx` of a coroutine does with the service.
abbrev pub Functions : Type 0
Functions = ℕ → ℕ → Service → Service

abbrev pub set_run : (ℕ → Coroutine) → ℕ → CoRun → ℕ → Coroutine
set_run f co c i = ite (ℕ_discrete co i) (record (f co) { run = c }) (f i)

abbrev pub set_locks : ℕ → Locks → Service → Service
set_locks w l s = record s { workqs = set_workq s.workqs w (record (s.workqs w) { locks = l }) }

-- `wq_stack stack{ *co }`: `wq_run_lock(co_runnable&)`
unfoldable pub lock_co : ℕ → Service → Service
unfolding lock_run_parallel enter
lock_co co s =
    let k = s.coroutines co in
    let t = record s { coroutines = set_run s.coroutines co (enter k.run) } in
    set_locks k.wq (lock_run_parallel (s.workqs k.wq).locks).0 t

-- The loop of `co_run`: the service, and `runcount`.
unfoldable pub call_next :
    Functions → (Service → ℕ → Run (Service × ℕ)) → ℕ → Bool → ℕ → Service → ℕ → Run (Service × ℕ)
call_next f again co false idx s n = returns (s, n)
call_next f again co true idx s n = again (f co idx s) (n + 1)

unfoldable pub call_loop : Functions → ℕ → ℕ → Service → ℕ → Run (Service × ℕ)
unfolding fetch call_next
call_loop f co zero s n = runs_on
call_loop f co (suc fuel) s n =
    let c = (s.coroutines co).run in
    let t = record s { coroutines = set_run s.coroutines co (fetch c) } in
    call_next f (call_loop f co fuel) co (ltb c.co_idx c.size) c.co_idx t n

-- `unlock()` of a run lock, whose part for the job does nothing to one that runs.
abbrev pub unlocked : ℕ → Service → Checked Locks → Run Service
unlocked w s assert_failed = fails
unlocked w s (ok l) = returns (set_locks w l s)

unfoldable pub unlock_wq : ℕ → RunLck → Service → Run Service
unfolding unlock_run
unlock_wq w level s = unlocked w s (unlock_run level (s.workqs w).locks)

-- `assert(m_rlck.is_locked())` and `co_unlock`, which says whether the count was 1. The run lock that then
-- leaves `m_rlck` goes with the `wq_stack`.
unfoldable pub co_unlock : Coroutine → Bool → Bool → Service → Run Service
unfolding unlock_wq
co_unlock k false last s = fails
co_unlock k true false s = unlock_wq k.wq run_parallel s
co_unlock k true true s = unlock_wq k.wq run_parallel s >>= λ t. unlock_wq k.wq k.level t

-- `co_runnable::release`
unfoldable pub release : ℕ → Service → Run Service
unfolding take_out co_unlock Coroutine.release
release co s =
    let k = s.coroutines co in
    let t = record s {
      co_runq = take_out co s.co_runq;
      coroutines = set_run s.coroutines co (Coroutine.release k.run);
    } in
    co_unlock k k.run.rlck_held (k.run.runcount == 1) t

-- `co_run`, with the lock before it; did a function run?
unfoldable pub co_run : Functions → ℕ → ℕ → Service → Run (Service × Bool)
unfolding lock_co call_loop release
co_run f fuel co s =
    call_loop f co fuel (lock_co co s) 0 >>= λ (t, n). release co t >>= λ u. returns (u, ltb 0 n)
