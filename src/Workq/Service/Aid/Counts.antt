-- ===== src/Workq/Service/Aid/Counts.antt =====
-- src/workq.cc: how many jobs one call of `aid` runs.
use mathlib.Core.Option.{none, some}
use ilias_async.LlList.Memory.{Run, returns, fails, runs_on, ◌>>=◌}
use ilias_async.Base.{
  ℕ, zero, suc, ◌+◌, ◌≤◌, ◌≡◌, refl, Bool, true, false, ltb, Checked, ok, assert_failed, arith,
}
use ilias_async.Workq.RunLock.{Workq, Locked, Result, lock_workq, unlock}
use ilias_async.Workq.Service.{
  Service, set_workq, wakeup, get_runq_iterpos, wq_to_runq, finish_job, run_job, Aided, workq_aid,
  workq_aid_loop, workq_aid_locked,
}

wq_to_runq-runs : (w : ℕ) (s : Service) → (wq_to_runq w s).runs ≡ s.runs
unfolding wq_to_runq wakeup get_runq_iterpos
wq_to_runq-runs w s = ground arith

-- A job that is run is one more.
abbrev pub OneMore : ℕ → Run Service → Type 0
OneMore n (returns t) = t.runs ≡ n + 1
OneMore n fails = Unit {0}
OneMore n runs_on = ⊥

finish_job-runs :
    (w : ℕ) (s : Service) (r : Checked (Workq × Bool)) → OneMore s.runs (finish_job w s r)
unfolding finish_job
finish_job-runs w s assert_failed = tt
finish_job-runs w s (ok (q, true)) =
    wq_to_runq-runs w (record s { workqs = set_workq s.workqs w q; runs = s.runs + 1 })
finish_job-runs w s (ok (q, false)) = refl

pub run_job-runs :
    (body : ℕ → ℕ → (ℕ → Workq) → ℕ → Workq) (k : ℕ × Locked) (s : Service)
    → OneMore s.runs (run_job body k s)
unfolding run_job
run_job-runs body (w, k) s =
    let now = body w k.job s.workqs in
    finish_job-runs w (record s { workqs = now }) (unlock k (now w))

-- The result says whether a job was run, and at most so many were.
abbrev pub Exact : ℕ → ℕ → Run (Service × Bool) → Type 0
Exact runs count (returns (t, b)) = (t.runs ≤ runs + count) × (b ≡ ltb runs t.runs)
Exact runs count fails = Unit {0}
Exact runs count runs_on = ⊥

abbrev Sum : ℕ → ℕ → ℕ → Aided → Type 0
Sum runs i left (returns (t, j)) = (t.runs + i ≡ runs + j) × (j ≤ i + left)
Sum runs i left fails = Unit {0}
Sum runs i left runs_on = ⊥

then_again :
    (runs i left : ℕ) (r : Run Service) (again : Service → ℕ → Aided)
    → OneMore runs r
    → ((t : Service) → Sum t.runs (i + 1) left (again t (i + 1)))
    → Sum runs i (suc left) (r >>= λ t. again t (i + 1))
then_again runs i left (returns t) again o h = shift (again t (i + 1)) (h t)
  where
    shift : (x : Aided) → Sum t.runs (i + 1) left x → Sum runs i (suc left) x
    shift (returns (u, j)) (e, l) = (omega (arith, o, e), omega (arith, l))
    shift fails h = tt
    shift runs_on h = h
then_again runs i left fails again o h = tt
then_again runs i left runs_on again o h = o

module _ (body : ℕ → ℕ → (ℕ → Workq) → ℕ → Workq) (w : ℕ) where
  locked-Sum :
      (again : Service → ℕ → Aided) (i left : ℕ) (s : Service) (r : Result)
      → ((t : Service) → Sum t.runs (i + 1) left (again t (i + 1)))
      → Sum s.runs i (suc left) (workq_aid_locked body again w i s r)
  unfolding workq_aid_locked
  locked-Sum again i left s assert_failed h = tt
  locked-Sum again i left s (ok (q, none)) h = (refl, omega arith)
  locked-Sum again i left s (ok (q, some k)) h =
      let t = record s { workqs = set_workq s.workqs w q } in
      then_again s.runs i left (run_job body (w, k) t) again (run_job-runs body (w, k) t) h

  loop-Sum : (left : ℕ) (s : Service) (i : ℕ) → Sum s.runs i left (workq_aid_loop body left w s i)
  unfolding workq_aid_loop
  loop-Sum zero s i = (refl, omega arith)
  loop-Sum (suc left) s i =
      locked-Sum (workq_aid_loop body left w) i left s (lock_workq (s.workqs w))
        (λ t. loop-Sum left t (i + 1))

answer-Exact :
    (runs count : ℕ) (r : Aided)
    → Sum runs 0 count r
    → Exact runs count (r >>= λ (t, i). returns (t, ltb 0 i))
answer-Exact runs count (returns (t, j)) (e, l) = (omega (arith, e, l), ground arith)
answer-Exact runs count fails h = tt
answer-Exact runs count runs_on h = h

-- `workq::aid` comes back, unless an assertion fails; it has run at most `count` jobs, and returns `true`
-- exactly if it has run one.
pub workq_aid-Exact :
    (body : ℕ → ℕ → (ℕ → Workq) → ℕ → Workq) (count w : ℕ) (s : Service)
    → Exact s.runs count (workq_aid body count w s)
unfolding workq_aid
workq_aid-Exact body count w s =
    answer-Exact s.runs count (workq_aid_loop body count w s 0) (loop-Sum body w count s 0)
