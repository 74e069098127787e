-- ===== src/Workq/Service.antt =====
-- `workq_service` of src/workq.cc, and the aid of `workq`: the workqs that have jobs, and the threads
-- that run these. What one thread does is modelled; other threads change the workqs while it is
-- between the two locks of `wq_run_lock::lock`.
pub mod Position
pub mod Spins
pub mod Outcome
pub mod Coroutines
pub mod Aid
mod Tests
use mathlib.Core.Option.{Option, none, some}
use mathlib.Core.Logic.{ite}
use native.Mathlib.Decide.{ℕ_discrete}
use ilias_async.LlList.Memory.{Run, returns, fails, runs_on, ◌>>=◌}
use ilias_async.LlList.Iterator.{
  Ring, at_head, elements, begin, increment, link, erase, member, release,
}
use ilias_async.Base.{
  ℕ, zero, suc, ◌+◌, ◌-◌, ◌^◌, Bool, true, false, not, ◌&&◌, List, [], ◌∷◌, ◌++◌, if◌then◌else◌,
  ltb, Checked, ok, assert_failed, is_empty,
}
use ilias_async.Workq.Locks.{RunLck}
use ilias_async.Workq.Coroutine.{CoRun}
use ilias_async.Workq.RunLock.{Workq, Locked, Result, lock_workq, unlock}

-- A `co_runnable` with its workq, and the lock of that workq which `m_rlck` holds.
pub record Coroutine : Type 0 where
  pub run : CoRun
  pub wq : ℕ
  pub level : RunLck

-- The workqs and the coroutine jobs; `m_wq_runq` with the iterator of this thread, and whether that is an iterator of this
-- service; `m_co_runq`; whether `m_wakeup_cb` is set, and whether its threadpool has a service; the
-- counts that this was asked to wake up; how many jobs were run.
pub record Service : Type 0 where
  pub workqs : ℕ → Workq
  pub coroutines : ℕ → Coroutine
  pub runq : Ring
  pub mine : Bool
  pub co_runq : Ring
  pub bound : Bool
  pub has_service : Bool
  pub asked : List ℕ
  pub runs : ℕ

abbrev pub set_workq : (ℕ → Workq) → ℕ → Workq → ℕ → Workq
set_workq f w q i = ite (ℕ_discrete w i) q (f i)

-- `threadpool_client_intf::WAKE_ALL`
abbrev pub wake_all : ℕ
wake_all = 2 ^ 32 - 1

-- `wakeup`
unfoldable pub wakeup : ℕ → Service → Service
wakeup n s =
    if s.bound
    then (if s.has_service
        then record s { asked = s.asked ++ ((if ltb wake_all n then wake_all else n) ∷ []) }
        else record s { bound = false })
    else s

-- `get_runq_iterpos`
unfoldable pub get_runq_iterpos : Service → Service
unfolding begin
get_runq_iterpos s = if s.mine then s else record s { mine = true; runq = begin (elements s.runq) }

-- What is linked before a copy of the iterator that was moved on stands right after the iterator.
unfoldable pub link_next : ℕ → Ring → Ring
link_next w r = if member w (elements r) then r else record r { ahead = w ∷ r.ahead }

-- `wq_to_runq`
unfoldable pub wq_to_runq : ℕ → Service → Service
unfolding wakeup get_runq_iterpos link_next
wq_to_runq w s = let t = get_runq_iterpos s in wakeup 1 (record t { runq = link_next w t.runq })

-- `co_to_runq`
unfoldable pub co_to_runq : ℕ → ℕ → Service → Checked Service
unfolding wakeup
co_to_runq co max_threads s =
    if ltb 0 max_threads && not (member co (elements s.co_runq))
    then ok (
        wakeup max_threads (record s {
          co_runq = record s.co_runq {
            behind = [];
            spot = at_head;
            ahead = elements s.co_runq ++ (co ∷ []);
          };
        }))
    else assert_failed

-- `empty`
unfoldable pub empty : Service → Bool
empty s = is_empty (elements s.runq) && is_empty (elements s.co_runq)

-- What `wq_run_lock::lock` leaves: the lock that it holds, and the workq.
abbrev pub Acquired : Type 0
Acquired = Run (Service × Option (ℕ × Locked))

-- `runq_iter.release()`
abbrev pub let_go : Service → Service
let_go s = record s { runq = (release s.runq).0 }

-- The second `lock(*wq)`, after the workq was erased.
unfoldable pub relocked : (ℕ → Service → Acquired) → ℕ → Ring → Service → Result → Acquired
unfolding link wakeup release
relocked again w r s assert_failed = fails
relocked again w r s (ok (q, some k)) =
    returns (
      let_go (wakeup 1 (record s { workqs = set_workq s.workqs w q; runq = link w r })),
      some (w, k),
    )
relocked again w r s (ok (q, none)) =
    again w (record s { workqs = set_workq s.workqs w q; runq = r })

-- The first one.
unfoldable pub first_locked :
    ((ℕ → Workq) → ℕ → Workq) → (ℕ → Service → Acquired) → ℕ → Service → Result → Acquired
unfolding relocked erase lock_workq
first_locked others again w s assert_failed = fails
first_locked others again w s (ok (q, some k)) =
    returns (let_go (record s { workqs = set_workq s.workqs w q }), some (w, k))
first_locked others again w s (ok (q, none)) = elim (erase s.runq) [
  | assert_failed ↦ fails
  | ok (r, x) ↦
      let now = others (set_workq s.workqs w q) in
      relocked again w r (record s { workqs = now }) (lock_workq (now w))
]

-- The loop with a workq.
unfoldable pub try_workq : ((ℕ → Workq) → ℕ → Workq) → ℕ → ℕ → Service → Acquired
unfolding first_locked lock_workq
try_workq others zero w s = runs_on
try_workq others (suc fuel) w s =
    first_locked others (try_workq others fuel) w s (lock_workq (s.workqs w))

-- `if (!wq) { runq_iter = begin(); ... }`
unfoldable pub wrap_around : ((ℕ → Workq) → ℕ → Workq) → ℕ → Service → Acquired
unfolding try_workq begin release
wrap_around others fuel s =
    let t = record s { runq = begin (elements s.runq) } in
    elim t.runq.ptr [ none ↦ returns (let_go t, none) | some w ↦ try_workq others fuel w t ]

-- The rest of `lock(workq_service&)`, from the iterator on.
unfoldable pub lock_next : ((ℕ → Workq) → ℕ → Workq) → ℕ → Service → Acquired
unfolding increment try_workq wrap_around
lock_next others fuel s =
    let t = record s { runq = increment s.runq } in
    elim t.runq.ptr [ none ↦ wrap_around others fuel t | some w ↦ try_workq others fuel w t ]

-- `wq_run_lock::lock(workq_service&)`; `none` is the result `false`.
unfoldable pub lock_service : ((ℕ → Workq) → ℕ → Workq) → ℕ → Service → Acquired
unfolding get_runq_iterpos lock_next
lock_service others fuel s = lock_next others fuel (get_runq_iterpos s)

-- `rlck.commit(); job->run();` and the end of the lock. The job may change the workqs.
unfoldable pub finish_job : ℕ → Service → Checked (Workq × Bool) → Run Service
unfolding wq_to_runq
finish_job w s assert_failed = fails
finish_job w s (ok (q, wakes)) =
    let t = record s { workqs = set_workq s.workqs w q; runs = s.runs + 1 } in
    returns (if wakes then wq_to_runq w t else t)

unfoldable pub run_job : (ℕ → ℕ → (ℕ → Workq) → ℕ → Workq) → ℕ × Locked → Service → Run Service
unfolding finish_job unlock
run_job body (w, k) s =
    let now = body w k.job s.workqs in finish_job w (record s { workqs = now }) (unlock k (now w))

-- `workq::aid`, with the rounds that are left: the service afterwards, and `i`.
abbrev pub Aided : Type 0
Aided = Run (Service × ℕ)

unfoldable pub workq_aid_locked :
    (ℕ → ℕ → (ℕ → Workq) → ℕ → Workq) → (Service → ℕ → Aided) → ℕ → ℕ → Service → Result → Aided
unfolding run_job
workq_aid_locked body again w i s assert_failed = fails
workq_aid_locked body again w i s (ok (q, none)) =
    returns (record s { workqs = set_workq s.workqs w q }, i)
workq_aid_locked body again w i s (ok (q, some k)) =
    run_job body (w, k) (record s { workqs = set_workq s.workqs w q }) >>= λ t. again t (i + 1)

unfoldable pub workq_aid_loop : (ℕ → ℕ → (ℕ → Workq) → ℕ → Workq) → ℕ → ℕ → Service → ℕ → Aided
unfolding workq_aid_locked lock_workq
workq_aid_loop body zero w s i = returns (s, i)
workq_aid_loop body (suc left) w s i =
    workq_aid_locked body (workq_aid_loop body left w) w i s (lock_workq (s.workqs w))

unfoldable pub workq_aid :
    (ℕ → ℕ → (ℕ → Workq) → ℕ → Workq) → ℕ → ℕ → Service → Run (Service × Bool)
unfolding workq_aid_loop
workq_aid body count w s = workq_aid_loop body count w s 0 >>= λ (t, i). returns (t, ltb 0 i)
