-- ===== src/Workq/Service/Outcome.antt =====
-- src/workq.cc: what `wq_run_lock::lock(workq_service&)` comes back with.
use mathlib.Core.Option.{Option, none, some}
use ilias_async.LlList.Memory.{returns, fails, runs_on}
use ilias_async.LlList.Iterator.{
  Ring, link, Spot, on, gap, at_head, elements, begin, increment, take_out, take_out_at, erase,
}
use ilias_async.LlList.Iterator.Visits.{IsRing, increment-elements}
use ilias_async.Base.{
  ℕ, zero, suc, ◌+◌, ◌<◌, ◌≡◌, refl, ◌∙◌, true, not, List, [], ◌∷◌, Checked, ok, assert_failed,
  arith,
}
use ilias_async.Workq.Job.{uint}
use ilias_async.Workq.Locks.{is_single}
use ilias_async.Workq.RunLock.{Workq, Result, lock_workq}
use ilias_async.Workq.RunLock.Level.{Sorted, Levels, level_of_lock}
use mathlib.Core.Logic.{ite}
use native.Mathlib.Decide.{ℕ_discrete}
use ilias_async.Workq.Service.{
  wakeup, Service, set_workq, Acquired, relocked, first_locked, try_workq, wrap_around, lock_next,
  lock_service,
}
use ilias_async.Workq.Service.Position.{
  set_workq-same, wakeup-workqs, position, position-elements, position-IsRing, get_runq_iterpos_lem,
}
use ilias_async.Workq.RunLock.Failure.{NoneKeeps, lock_workq-keeps}

-- Other threads lock few enough workqs, and the second queues hold parallel jobs only.
pub record IsFine (q : Workq) : Type 0 where
  pub sorted : Sorted q
  pub room : q.locks.run_parallel + 1 < uint

abbrev pub AllFine : (ℕ → Workq) → Type 0
AllFine f = (w : ℕ) → IsFine (f w)

set_workq-AllFine :
    (f : ℕ → Workq) (w : ℕ) (q : Workq) → AllFine f → IsFine q → AllFine (set_workq f w q)
unfolding ℕ_discrete
set_workq-AllFine f w q all new i = elim (ℕ_discrete w i) as (λ d. IsFine (ite d q (f i))) [
  | yes p ↦ new
  | no p ↦ all i
]

take_out-ptr : (spot : Spot) (w : ℕ) (r : Ring) → (take_out_at spot w r).ptr ≡ r.ptr
unfolding take_out_at
take_out-ptr gap w r = refl
take_out-ptr at_head w r = refl
take_out-ptr (on y) w r = ground arith

-- What the lock comes back with: the lock of a running job, at its level, or none and no workq.
abbrev pub Outcome : List ℕ → Acquired → Type 0
Outcome xs fails = ⊥
Outcome xs runs_on = Unit {0}
Outcome xs (returns (s, none)) = xs ≡ []
Outcome xs (returns (s, some (w, k))) =
    (((s.workqs w).states k.job).running ≡ true)
    × (is_single k.level ≡ not ((s.workqs w).types k.job).parallel)

-- An iterator that has an element keeps it when this is erased.
abbrev HasPtr : ℕ → Ring → Type 0
HasPtr w r = r.ptr ≡ some w

abbrev Erases : ℕ → Checked (Ring × Option ℕ) → Type 0
Erases w assert_failed = ⊥
Erases w (ok (r, y)) = HasPtr w r

erase-HasPtr : (w : ℕ) (r : Ring) → HasPtr w r → Erases w (erase r)
unfolding erase take_out
erase-HasPtr w r h = rw (h, erase) (take_out-ptr r.spot w r ∙ h)

module _ (others : (ℕ → Workq) → ℕ → Workq)
    (keeps : (f : ℕ → Workq) → AllFine f → AllFine (others f)) (xs : List ℕ) (w : ℕ) where
  none-IsFine :
      (q p : Workq) → IsFine q → Levels (ok (p, none)) → NoneKeeps q.locks (ok (p, none)) → IsFine p
  none-IsFine q p f l k = record { sorted = l; room = rw k f.room }

  relocked-Outcome :
      (again : ℕ → Service → Acquired) (r : Ring) (s : Service) (q : Workq) (x : Result)
      → Levels x
      → NoneKeeps q.locks x
      → IsFine q
      → AllFine s.workqs
      → HasPtr w r
      → ((t : Service) → AllFine t.workqs → HasPtr w t.runq → Outcome xs (again w t))
      → Outcome xs (relocked again w r s x)
  unfolding relocked wakeup
  relocked-Outcome again r s q assert_failed l k f a p h = l
  relocked-Outcome again r s q (ok (z, none)) l k f a p h =
      h (record s { workqs = set_workq s.workqs w z; runq = r })
        (set_workq-AllFine s.workqs w z a (none-IsFine q z f l k)) p
  relocked-Outcome again r s q (ok (z, some j)) l k f a p h =
      rw
        (
          wakeup-workqs 1 (record s { workqs = set_workq s.workqs w z; runq = link w r }),
          set_workq-same s.workqs w z,
        )
        (l.0, l.1)

  after_erase :
      (again : ℕ → Service → Acquired) (s : Service) (x : Checked (Ring × Option ℕ))
      → Erases w x
      → AllFine s.workqs
      → ((t : Service) → AllFine t.workqs → HasPtr w t.runq → Outcome xs (again w t))
      → Outcome xs (elim x [
        | assert_failed ↦ fails
        | ok (r, y) ↦
            relocked again w r
              (record s { workqs = others s.workqs })
              (lock_workq (others s.workqs w))
      ])
  after_erase again s assert_failed e a h = e
  after_erase again s (ok (r, y)) e a h =
      let now = others s.workqs in
      let fine = keeps s.workqs a in
      relocked-Outcome again r (record s { workqs = now }) (now w) (lock_workq (now w))
        (level_of_lock (now w) (fine w).room (fine w).sorted)
        (lock_workq-keeps (now w) (fine w).room) (fine w) fine e h

  first_locked-Outcome :
      (again : ℕ → Service → Acquired) (s : Service) (x : Result)
      → Levels x
      → NoneKeeps (s.workqs w).locks x
      → AllFine s.workqs
      → HasPtr w s.runq
      → ((t : Service) → AllFine t.workqs → HasPtr w t.runq → Outcome xs (again w t))
      → Outcome xs (first_locked others again w s x)
  unfolding first_locked
  first_locked-Outcome again s assert_failed l k a p h = l
  first_locked-Outcome again s (ok (z, some j)) l k a p h =
      rw (set_workq-same s.workqs w z) (l.0, l.1)
  first_locked-Outcome again s (ok (z, none)) l k a p h =
      after_erase again (record s { workqs = set_workq s.workqs w z }) (erase s.runq)
        (erase-HasPtr w s.runq p)
        (set_workq-AllFine s.workqs w z a (none-IsFine (s.workqs w) z (a w) l k)) h

  try_workq-Outcome :
      (fuel : ℕ) (s : Service)
      → AllFine s.workqs
      → HasPtr w s.runq
      → Outcome xs (try_workq others fuel w s)
  unfolding try_workq
  try_workq-Outcome zero s a p = tt
  try_workq-Outcome (suc fuel) s a p =
      first_locked-Outcome (try_workq others fuel) s (lock_workq (s.workqs w))
        (level_of_lock (s.workqs w) (a w).room (a w).sorted)
        (lock_workq-keeps (s.workqs w) (a w).room) a p (λ t b q. try_workq-Outcome fuel t b q)

module _ (others : (ℕ → Workq) → ℕ → Workq)
    (keeps : (f : ℕ → Workq) → AllFine f → AllFine (others f)) (fuel : ℕ) (s : Service)
    (fine : AllFine s.workqs) where
  wrap_from :
      (xs : List ℕ) (r : Ring)
      → elements r ≡ xs
      → Outcome xs (wrap_around others fuel (record s { mine = true; runq = r }))
  unfolding wrap_around begin
  wrap_from [] r e = rw (e, wrap_around) refl
  wrap_from (w ∷ ws) r e =
      rw (e, wrap_around)
        (try_workq-Outcome others keeps (w ∷ ws) w fuel
          (record s { mine = true; runq = begin (elements r) }) fine (rw e refl))

  next_from :
      (r t : Ring) (p : Option ℕ)
      → elements t ≡ elements r
      → t.ptr ≡ p
      → Outcome (elements r) (elim p [
        | none ↦ wrap_around others fuel (record s { mine = true; runq = t })
        | some w ↦ try_workq others fuel w (record s { mine = true; runq = t })
      ])
  next_from r t none e q = wrap_from (elements r) t e
  next_from r t (some w) e q =
      try_workq-Outcome others keeps (elements r) w fuel (record s { mine = true; runq = t }) fine q

  lock_next-Outcome :
      (r : Ring)
      → IsRing r
      → Outcome (elements r) (lock_next others fuel (record s { mine = true; runq = r }))
  unfolding lock_next
  lock_next-Outcome r h =
      next_from r (increment r) (increment r).ptr
        (increment-elements r.behind r.ahead r.ptr r.spot h) refl

-- `lock(workq_service&)` fails no assertion and hits no iterator without element, on workqs whose second
-- queues hold parallel jobs only and that fewer than 2^32 - 1 threads have locked for parallel jobs,
-- where other threads keep them so. If it ends with a lock, then this is on a job that runs, and holds its
-- workq alone exactly when the job is not parallel; it ends without one only if no workq is on the queue.
pub lock_service-Outcome :
    (others : (ℕ → Workq) → ℕ → Workq) (fuel : ℕ) (s : Service)
    → ((f : ℕ → Workq) → AllFine f → AllFine (others f))
    → AllFine s.workqs
    → IsRing s.runq
    → Outcome (elements s.runq) (lock_service others fuel s)
unfolding lock_service
lock_service-Outcome others fuel s keeps fine h =
    rw (get_runq_iterpos_lem s, ← position-elements s.mine s.runq)
      (lock_next-Outcome others keeps fuel s fine (position s.mine s.runq)
        (position-IsRing s.mine s.runq h))
