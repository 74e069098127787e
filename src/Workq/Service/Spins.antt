-- ===== src/Workq/Service/Spins.antt =====
-- src/workq.cc: `wq_run_lock::lock(workq_service&)` at a workq without jobs.
use mathlib.Core.Option.{Option, none, some}
use ilias_async.LlList.Memory.{Run, returns, fails, runs_on}
use ilias_async.LlList.Iterator.{Ring, elements, begin, increment, erase}
use ilias_async.Base.{
  ℕ, zero, suc, ◌≡◌, ◌≢◌, refl, sym, ◌∙◌, Bool, true, false, List, [], ◌∷◌, Checked, ok,
  assert_failed, ◌>>=◌,
}
use ilias_async.Workq.Locks.{Locks, RunLck, run_single, run_parallel, lock_run, unlock_run}
use ilias_async.Workq.RunLock.{
  Workq, Result, give_up, pop_job, keep_single, keep_parallel, lock_at, lock_workq,
}
use ilias_async.Workq.Service.Position.{
  set_workq-same, position, position-elements, position-IsRing, get_runq_iterpos_lem,
}
use ilias_async.LlList.Iterator.Visits.{IsRing, increment-elements}
use ilias_async.Workq.Service.{
  lock_next, Service, set_workq, Acquired, relocked, first_locked, try_workq, wrap_around,
  lock_service,
}

-- A workq without jobs on its queues.
abbrev pub IsDepleted : Workq → Type 0
IsDepleted q = (q.runq ≡ []) × (q.p_runq ≡ [])

abbrev DepletedResult : Result → Type 0
DepletedResult assert_failed = Unit {0}
DepletedResult (ok (q, none)) = IsDepleted q
DepletedResult (ok (q, some k)) = ⊥

then_give :
    (q : Workq) (r : Checked Locks)
    → IsDepleted q
    → DepletedResult (r >>= λ locks. ok (record q { locks = locks }, none))
then_give q (ok l) d = d
then_give q assert_failed d = tt

give_up-Depleted : (level : RunLck) (q : Workq) → IsDepleted q → DepletedResult (give_up level q)
give_up-Depleted level q d = then_give q (unlock_run level q.locks) d

lock_at-Depleted : (level : RunLck) (q : Workq) → IsDepleted q → DepletedResult (lock_at level q)
unfolding lock_at pop_job keep_single keep_parallel
lock_at-Depleted run_single q (d, e) = rw (d, pop_job) (give_up-Depleted run_single _ (refl, e))
lock_at-Depleted run_parallel q (d, e) = rw (e, pop_job) (give_up-Depleted run_parallel _ (d, refl))

lock_workq-Depleted : (q : Workq) → IsDepleted q → DepletedResult (lock_workq q)
unfolding lock_workq
lock_workq-Depleted q d =
    lock_at-Depleted (lock_run q.locks).1 (record q { locks = (lock_run q.locks).0 }) d

-- Whether a call came to its end.
abbrev pub ended {ℓ} : {A : Type ℓ} → Run A → Bool
ended (returns x) = true
ended fails = false
ended runs_on = false

module _ (others : (ℕ → Workq) → ℕ → Workq) (w : ℕ)
    (keeps : (f : ℕ → Workq) → IsDepleted (f w) → IsDepleted (others f w)) where
  relocked-stuck :
      (again : ℕ → Service → Acquired) (r : Ring) (s : Service) (x : Result)
      → DepletedResult x
      → ((t : Service) → IsDepleted (t.workqs w) → ended (again w t) ≡ false)
      → ended (relocked again w r s x) ≡ false
  unfolding relocked
  relocked-stuck again r s assert_failed d h = refl
  relocked-stuck again r s (ok (q, none)) d h =
      h (record s { workqs = set_workq s.workqs w q; runq = r })
        (rw (set_workq-same s.workqs w q) d)
  relocked-stuck again r s (ok (q, some k)) d h = absurd d

  after_erase :
      (again : ℕ → Service → Acquired) (s : Service) (q : Workq) (x : Checked (Ring × Option ℕ))
      → IsDepleted q
      → ((t : Service) → IsDepleted (t.workqs w) → ended (again w t) ≡ false)
      → ended (elim x [
        | assert_failed ↦ fails
        | ok (r, y) ↦
            let now = others (set_workq s.workqs w q) in
            relocked again w r (record s { workqs = now }) (lock_workq (now w))
      ])
        ≡ false
  after_erase again s q assert_failed d h = refl
  after_erase again s q (ok (r, y)) d h =
      let now = others (set_workq s.workqs w q) in
      relocked-stuck again r (record s { workqs = now }) (lock_workq (now w))
        (lock_workq-Depleted (now w)
          (keeps (set_workq s.workqs w q) (rw (set_workq-same s.workqs w q) d)))
        h

  first_locked-stuck :
      (again : ℕ → Service → Acquired) (s : Service) (x : Result)
      → DepletedResult x
      → ((t : Service) → IsDepleted (t.workqs w) → ended (again w t) ≡ false)
      → ended (first_locked others again w s x) ≡ false
  unfolding first_locked
  first_locked-stuck again s assert_failed d h = refl
  first_locked-stuck again s (ok (q, none)) d h = after_erase again s q (erase s.runq) d h
  first_locked-stuck again s (ok (q, some k)) d h = absurd d

  -- A thread that has come to a workq without jobs tries this one only: as long as other threads give
  -- it no job, the loop does not end, whatever other workqs the service has.
  pub try_workq-spins :
      (fuel : ℕ) (s : Service) → IsDepleted (s.workqs w) → ended (try_workq others fuel w s) ≡ false
  unfolding try_workq
  try_workq-spins zero s d = refl
  try_workq-spins (suc fuel) s d =
      first_locked-stuck (try_workq others fuel) s (lock_workq (s.workqs w))
        (lock_workq-Depleted (s.workqs w) d) (λ t e. try_workq-spins fuel t e)

module _ (others : (ℕ → Workq) → ℕ → Workq)
    (keeps : (f : ℕ → Workq) (w : ℕ) → IsDepleted (f w) → IsDepleted (others f w)) (fuel : ℕ)
    (s : Service) (none_left : (w : ℕ) → IsDepleted (s.workqs w)) where
  wrap_spins :
      (xs : List ℕ) (r : Ring)
      → elements r ≡ xs
      → xs ≢ []
      → ended (wrap_around others fuel (record s { mine = true; runq = r })) ≡ false
  unfolding wrap_around begin
  wrap_spins [] r e n = absurd (n refl)
  wrap_spins (w ∷ ws) r e n =
      rw (e, wrap_around)
        (try_workq-spins others w (λ f d. keeps f w d) fuel
          (record s { mine = true; runq = begin (elements r) }) (none_left w))

  next_spins :
      (t : Ring) (p : Option ℕ)
      → elements t ≢ []
      → ended (elim p [
        | none ↦ wrap_around others fuel (record s { mine = true; runq = t })
        | some w ↦ try_workq others fuel w (record s { mine = true; runq = t })
      ])
        ≡ false
  next_spins t none n = wrap_spins (elements t) t refl n
  next_spins t (some w) n =
      try_workq-spins others w (λ f d. keeps f w d) fuel (record s { mine = true; runq = t })
        (none_left w)

  lock_next-spins :
      (r : Ring)
      → IsRing r
      → elements r ≢ []
      → ended (lock_next others fuel (record s { mine = true; runq = r })) ≡ false
  unfolding lock_next
  lock_next-spins r h n =
      next_spins (increment r) (increment r).ptr
        (λ e. n (sym (increment-elements r.behind r.ahead r.ptr r.spot h) ∙ e))

-- A thread that looks for a job on a service whose queue holds workqs, of which none has a job left,
-- does not come back, neither with a job nor without one, as long as other threads add no job.
pub lock_service-spins :
    (others : (ℕ → Workq) → ℕ → Workq) (fuel : ℕ) (s : Service)
    → ((f : ℕ → Workq) (w : ℕ) → IsDepleted (f w) → IsDepleted (others f w))
    → ((w : ℕ) → IsDepleted (s.workqs w))
    → IsRing s.runq
    → elements s.runq ≢ []
    → ended (lock_service others fuel s) ≡ false
unfolding lock_service
lock_service-spins others fuel s keeps d h n = rw (get_runq_iterpos_lem s) (
    lock_next-spins others keeps fuel s d (position s.mine s.runq) (position-IsRing s.mine s.runq h)
      (λ e. n (sym (position-elements s.mine s.runq) ∙ e)))
