-- ===== src/Workq/Service/Tests.antt =====
-- The service of the workqs at concrete inputs.
use ilias_async.Base.{ℕ, ◌≡◌, refl, true, false, [], ◌∷◌, arith}
use ilias_async.LlList.Iterator.{Ring, on, at_head, elements, at_spot}
use ilias_async.Workq.Job
use ilias_async.Workq.Job.{JobType, JobState, fresh}
use ilias_async.Workq.Coroutine.{CoRun, publish}
use ilias_async.Workq.Locks.{run_parallel, unlocked, lock_run, lock_run_downgrade}
use ilias_async.Workq.RunLock.{Workq}
use ilias_async.Workq.Service.{Service, lock_service, workq_aid}
use ilias_async.Workq.Service.Spins
use ilias_async.Workq.Service.Outcome
use ilias_async.Workq.Service.Outcome.{AllFine}
use ilias_async.Workq.Service.Aid.{Client, aid}
use ilias_async.Workq.Service.Aid.Counts
use ilias_async.Workq.Service.Aid.Idle

abbrev parallel_job : JobType
parallel_job = record {
  once = false;
  persist = false;
  parallel = true;
  no_aid = false;
  other = false;
}

abbrev with_job : Workq
with_job = record {
  locks = unlocked;
  runq = 4 ∷ [];
  p_runq = 4 ∷ [];
  types = λ j. parallel_job;
  states = λ j. record fresh { active = true };
}

abbrev depleted : Workq
depleted = record with_job { runq = []; p_runq = [] }

abbrev two_workqs : Ring
two_workqs = at_spot (1 ∷ []) (on 2) []

abbrev service_with : Workq → Service
service_with q = record {
  workqs = λ w. q;
  runq = two_workqs;
  mine = true;
  coroutines = λ co. record { run = publish 0; wq = 0; level = run_parallel };
  co_runq = at_spot [] at_head [];
  bound = true;
  has_service = true;
  asked = [];
  runs = 0;
}

abbrev quiet : (ℕ → Workq) → ℕ → Workq
quiet f = f

-- Workq 1 is locked, at the beginning of the queue.
lock_service-Outcome_example :
    Outcome.Outcome (elements two_workqs) (lock_service quiet 2 (service_with with_job))
lock_service-Outcome_example =
    Outcome.lock_service-Outcome quiet 2 (service_with with_job) (λ f h. h)
      (λ w. record { sorted = (refl, tt); room = omega arith }) tt

lock_service-spins_example : Spins.ended (lock_service quiet 9 (service_with depleted)) ≡ false
lock_service-spins_example =
    Spins.lock_service-spins quiet 9 (service_with depleted) (λ f w h. h) (λ w. (refl, refl)) tt
      (cc)

abbrev same_workqs : ℕ → ℕ → (ℕ → Workq) → ℕ → Workq
same_workqs w j f = f

workq_aid-Exact_example : Counts.Exact 0 3 (workq_aid same_workqs 3 1 (service_with with_job))
workq_aid-Exact_example = Counts.workq_aid-Exact same_workqs 3 1 (service_with with_job)

lock_service_ends : Spins.ended (lock_service quiet 2 (service_with with_job)) ≡ true
unfolding lock_service lock_run Job.lock_run lock_run_downgrade
lock_service_ends = refl

abbrev idle_client : Client
idle_client = record { functions = λ co idx s. s; body = same_workqs; others = quiet }

-- Coroutine 6 of workq 1 has two functions, and both have been called; its workq has a job.
abbrev both_called : CoRun
both_called = record {
  co_idx = 2;
  size = 2;
  runcount = 2;
  rlck_held = true;
  inside = 0;
  called = 1 ∷ 0 ∷ [];
}

abbrev with_coroutine : Service
with_coroutine = record (service_with with_job) {
  co_runq = at_spot [] at_head (6 ∷ []);
  coroutines = λ co. record { run = both_called; wq = 1; level = run_parallel };
}

aid-Pretends_example : Idle.Pretends with_coroutine (aid idle_client 3 1 with_coroutine)
aid-Pretends_example =
    Idle.aid-Pretends idle_client 2 6 [] with_coroutine refl
      (λ i m. record {
        none_left = omega arith;
        idx_room = omega arith;
        held = refl;
        counted = omega arith;
        count_room = omega arith;
      })
      (λ w. omega arith) (omega arith)
