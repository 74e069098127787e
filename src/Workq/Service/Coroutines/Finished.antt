-- ===== src/Workq/Service/Coroutines/Finished.antt =====
-- src/workq.cc: `co_run` of a coroutine that has no function left.
use mathlib.Core.Path.{subst}
use native.Mathlib.Decide.{ℕ_discrete}
use ilias_async.LlList.Memory.{returns, ◌>>=◌}
use ilias_async.LlList.Iterator.{take_out}
use ilias_async.Base.{
  ℕ, suc, ◌+◌, ◌<◌, ◌≤◌, ◌≡◌, refl, ap, sym, Bool-cases, inl, inr, ◌∙◌, true, false, ltb, ◌==◌, ok,
  word, arith,
}
use ilias_async.Workq.Job.{uint}
use ilias_async.Workq.Locks.{Locks, run_parallel, lock_run_parallel, unlock_run}
use ilias_async.Workq.Coroutine.{CoRun, enter, fetch}
use ilias_async.Workq.Coroutine
use ilias_async.Workq.Service.{Service, Coroutine}
use ilias_async.Workq.Service.Coroutines.{
  Functions, set_run, set_locks, lock_co, call_next, call_loop, unlocked, co_unlock, unlock_wq,
  release, co_run,
}

-- All functions of the run have been called, its count is not at 0, and `m_co_idx` has room for `n` more
-- tests of the loop.
pub record Spent (n : ℕ) (c : CoRun) : Type 0 where
  pub none_left : c.size ≤ c.co_idx
  pub idx_room : c.co_idx + n < word
  pub held : c.rlck_held ≡ true
  pub counted : 0 < c.runcount
  pub count_room : c.runcount + 1 < word

abbrev pub HasRoom : Service → Type 0
HasRoom s = (w : ℕ) → (s.workqs w).locks.run_parallel + 1 < uint

-- No function of a coroutine was called, no job was run, and the locks of the workqs are as they were.
pub record Same (s t : Service) : Type 0 where
  pub runs : t.runs ≡ s.runs
  pub locks : (w : ℕ) → (t.workqs w).locks ≡ (s.workqs w).locks
  pub called : (co : ℕ) → (t.coroutines co).run.called ≡ (s.coroutines co).run.called

lock_again :
    (l : Locks) → l.run_parallel + 1 < uint → unlock_run run_parallel (lock_run_parallel l).0 ≡ ok l
unfolding unlock_run lock_run_parallel
lock_again l room = ground arith

-- The state of the coroutine after its `co_run`.
abbrev pub over : CoRun → CoRun
over c = Coroutine.release (fetch (enter c))

over-Spent : (n : ℕ) (c : CoRun) → Spent (suc n) c → Spent n (over c)
unfolding enter fetch Coroutine.release
over-Spent n c h = ground (arith, h)

over-called : (n : ℕ) (c : CoRun) → Spent (suc n) c → (over c).called ≡ c.called
unfolding enter fetch Coroutine.release
over-called n c h = ground (arith, h)

set_run-same :
    (f : ℕ → Coroutine) (co : ℕ) (c : CoRun) → set_run f co c co ≡ record (f co) { run = c }
unfolding ℕ_discrete
set_run-same f co c = ground arith

abbrev fetched : ℕ → Service → Service
fetched co s = record s { coroutines = set_run s.coroutines co (fetch (s.coroutines co).run) }

call_loop-end :
    (f : Functions) (fuel co : ℕ) (s : Service) (n : ℕ)
    → ltb (s.coroutines co).run.co_idx (s.coroutines co).run.size ≡ false
    → call_loop f co (suc fuel) s n ≡ returns (fetched co s, n)
unfolding call_loop call_next
call_loop-end f fuel co s n e =
    ap (λ b. call_next f (call_loop f co fuel) co b (s.coroutines co).run.co_idx (fetched co s) n) e

abbrev off_queue : ℕ → Service → Service
off_queue co s = record s {
  co_runq = take_out co s.co_runq;
  coroutines = set_run s.coroutines co (Coroutine.release (s.coroutines co).run);
}

release-not_last :
    (co : ℕ) (s : Service) (l : Locks)
    → (s.coroutines co).run.rlck_held ≡ true
    → ((s.coroutines co).run.runcount == 1) ≡ false
    → unlock_run run_parallel (s.workqs (s.coroutines co).wq).locks ≡ ok l
    → release co s ≡ returns (set_locks (s.coroutines co).wq l (off_queue co s))
unfolding release co_unlock unlock_wq
release-not_last co s l h n e =
    let k = s.coroutines co in
    let t = off_queue co s in
    ap (λ b. co_unlock k b (k.run.runcount == 1) t) h
    ∙ ap (λ b. co_unlock k true b t) n
    ∙ ap (unlocked k.wq t) e

co_run-end :
    (f : Functions) (fuel co : ℕ) (s : Service) (l : Locks)
    → let t = lock_co co s in
      let u = fetched co t in
      ltb (t.coroutines co).run.co_idx (t.coroutines co).run.size ≡ false
      → (u.coroutines co).run.rlck_held ≡ true
      → ((u.coroutines co).run.runcount == 1) ≡ false
      → unlock_run run_parallel (u.workqs (u.coroutines co).wq).locks ≡ ok l
      → co_run f (suc fuel) co s
        ≡ returns (set_locks (u.coroutines co).wq l (off_queue co u), false)
unfolding co_run
co_run-end f fuel co s l e h n k =
    let t = lock_co co s in
    let u = fetched co t in
    ap (λ r. r >>= λ (v, n). release co v >>= λ x. returns (x, ltb 0 n))
      (call_loop-end f fuel co t 0 e)
    ∙ ap (λ r. r >>= λ x. returns (x, false)) (release-not_last co u l h n k)

-- The lock of the workq and the one of the coroutine are taken and given back.
lock_co-run :
    (co : ℕ) (s : Service)
    → (lock_co co s).coroutines co ≡ record (s.coroutines co) { run = enter (s.coroutines co).run }
unfolding lock_co
lock_co-run co s = set_run-same s.coroutines co (enter (s.coroutines co).run)

lock_co-locks :
    (co : ℕ) (s : Service)
    → ((lock_co co s).workqs (s.coroutines co).wq).locks
      ≡ (lock_run_parallel (s.workqs (s.coroutines co).wq).locks).0
unfolding lock_co ℕ_discrete
lock_co-locks co s = ground arith

fetched-run :
    (co : ℕ) (s : Service)
    → (fetched co (lock_co co s)).coroutines co
      ≡ record (s.coroutines co) { run = fetch (enter (s.coroutines co).run) }
fetched-run co s =
    let t = lock_co co s in
    set_run-same t.coroutines co (fetch (t.coroutines co).run)
    ∙ ap (λ (k : Coroutine). record k { run = fetch k.run }) (lock_co-run co s)

-- The service after the whole.
abbrev pub ended : ℕ → Service → Service
ended co s =
    let u = fetched co (lock_co co s) in
    set_locks (u.coroutines co).wq (s.workqs (s.coroutines co).wq).locks (off_queue co u)

ended-run : (co : ℕ) (s : Service) → ((ended co s).coroutines co).run ≡ over (s.coroutines co).run
ended-run co s =
    let u = fetched co (lock_co co s) in
    ap (λ (k : Coroutine). k.run)
      (set_run-same u.coroutines co (Coroutine.release (u.coroutines co).run))
    ∙ ap (λ (k : Coroutine). Coroutine.release k.run) (fetched-run co s)

ended-other :
    (co i : ℕ) (s : Service) → (co == i) ≡ false → (ended co s).coroutines i ≡ s.coroutines i
unfolding lock_co ℕ_discrete
ended-other co i s e = ground (arith, e)

ended-locks : (co : ℕ) (s : Service) (w : ℕ) → ((ended co s).workqs w).locks ≡ (s.workqs w).locks
unfolding lock_co ℕ_discrete
ended-locks co s w = ground (arith, fetched-run co s)

pub co_run-ended :
    (f : Functions) (fuel n co : ℕ) (s : Service)
    → Spent (suc n) (s.coroutines co).run
    → HasRoom s
    → co_run f (suc fuel) co s ≡ returns (ended co s, false)
unfolding enter fetch
co_run-ended f fuel n co s h room =
    let t = lock_co co s in
    let u = fetched co t in
    let r = fetched-run co s in
    co_run-end f fuel co s (s.workqs (s.coroutines co).wq).locks
      (ap (λ (k : Coroutine). ltb k.run.co_idx k.run.size) (lock_co-run co s) ∙ ground (arith, h))
      (ap (λ (k : Coroutine). k.run.rlck_held) r ∙ h.held)
      (ap (λ (k : Coroutine). k.run.runcount == 1) r ∙ ground (arith, h))
      (ap (λ (k : Coroutine). unlock_run run_parallel (u.workqs k.wq).locks) r
        ∙ ap (unlock_run run_parallel) (lock_co-locks co s)
        ∙ lock_again (s.workqs (s.coroutines co).wq).locks (room (s.coroutines co).wq))

pub ended-co_runq : (co : ℕ) (s : Service) → (ended co s).co_runq ≡ take_out co s.co_runq
unfolding lock_co
ended-co_runq co s = refl

pub ended-Spent :
    (n co i : ℕ) (s : Service)
    → Spent (suc n) (s.coroutines co).run
    → Spent (suc n) (s.coroutines i).run
    → Spent n ((ended co s).coroutines i).run
ended-Spent n co i s h k = elim (Bool-cases (co == i)) [
  | inl e ↦
      subst (λ i. Spent n ((ended co s).coroutines i).run) (ground (arith, e))
        (subst (Spent n) (sym (ended-run co s)) (over-Spent n (s.coroutines co).run h))
  | inr e ↦
      subst (λ (k : Coroutine). Spent n k.run) (sym (ended-other co i s e)) (ground (arith, k))
]

pub ended-Same :
    (n co : ℕ) (s : Service) → Spent (suc n) (s.coroutines co).run → Same s (ended co s)
unfolding lock_co
ended-Same n co s h = record {
  runs = refl;
  locks = ended-locks co s;
  called = λ i. elim (Bool-cases (co == i)) [
    | inl e ↦
        subst (λ i. ((ended co s).coroutines i).run.called ≡ (s.coroutines i).run.called)
          (ground (arith, e))
          (ap (λ (r : CoRun). r.called) (ended-run co s) ∙ over-called n (s.coroutines co).run h)
    | inr e ↦ ap (λ (k : Coroutine). k.run.called) (ended-other co i s e)
  ];
}

pub Same-trans : (s t u : Service) → Same s t → Same t u → Same s u
Same-trans s t u h k = record {
  runs = k.runs ∙ h.runs;
  locks = λ w. k.locks w ∙ h.locks w;
  called = λ i. k.called i ∙ h.called i;
}

pub ended-HasRoom : (co : ℕ) (s : Service) → HasRoom s → HasRoom (ended co s)
ended-HasRoom co s h w =
    subst (λ (l : Locks). l.run_parallel + 1 < uint) (sym (ended-locks co s w)) (h w)
