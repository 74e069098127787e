-- ===== src/Workq/Tests.antt =====
-- Runs of jobs and workqs, and the theorems at what they lead to.
use ilias_async.Base.{
  ◌+◌, ◌<◌, ◌≡◌, ◌≢◌, ◌⊎◌, ◌↔◌, refl, true, false, [], ◌∷◌, if◌then◌else◌, ltb, assert_failed,
  arith,
}
use ilias_async.Workq.Job.{JobType, JobState, running, fresh, lock_run, activate, unlock_run}
use ilias_async.Workq.Job.Flow
use ilias_async.Workq.Job.Flow.{Flow}
use ilias_async.Workq.Job.Activation
use ilias_async.Workq.Locks
use ilias_async.Workq.Locks.{run_single, run_parallel, unlocked}
use ilias_async.Workq.Locks.Serial
use ilias_async.Workq.RunLock.{Workq, lock_workq}
use ilias_async.Workq.RunLock.Level
use ilias_async.Workq.RunLock.Failure
use ilias_async.Workq.Coroutine
use ilias_async.Workq.Coroutine.{CoRun}

abbrev plain : JobType
plain = record { once = false; persist = false; parallel = false; no_aid = false; other = false }

abbrev single_shot : JobType
single_shot = record plain { once = true }

abbrev active : JobState
active = record fresh { active = true }

-- The job has been activated and queued.
abbrev queued : Flow
queued = record Flow.idle { job = active; runq = true }

queued-Reach : Flow.Reach plain queued
unfolding activate
queued-Reach = Flow.next (Flow.next Flow.here Flow.activates) (Flow.links (omega arith))

-- It has been taken from the queue and runs.
abbrev started : Flow
started = record Flow.idle { job = record fresh { running = true; run_gen = 1 }; runners = 1 }

started-Reach : Flow.Reach plain started
unfolding activate lock_run
started-Reach = Flow.next (Flow.next queued-Reach (Flow.pops refl)) (Flow.locks (omega arith))

single_shot-Reach : Flow.Reach single_shot (record Flow.idle { job = record fresh { run_gen = 1 } })
unfolding activate lock_run unlock_run
single_shot-Reach =
    Flow.next
      (Flow.next
        (Flow.next (Flow.next (Flow.next Flow.here Flow.activates) (Flow.links (omega arith)))
          (Flow.pops refl))
        (Flow.locks (omega arith)))
      (Flow.unlocks (omega arith) refl)

one_run_at_a_time_example :
    (started.runners ≡ 1) × ((started.runners ≡ 0) ⊎ (unlock_run plain started.job ≢ assert_failed))
one_run_at_a_time_example = Activation.one_run_at_a_time started-Reach

activation_not_lost_example : (queued.runq ≡ true) ⊎ (queued.p_runq ≡ true)
activation_not_lost_example = Activation.activation_not_lost queued-Reach refl refl refl refl

taken_job_runs_example :
    ((lock_run plain active).1 ≡ running)
    × ((lock_run plain active).0.running ≡ true)
    × ((lock_run plain active).0.active ≡ false)
taken_job_runs_example = Activation.taken_job_runs queued-Reach refl refl

abbrev alone_held : Serial.Held
alone_held = record Serial.none_held { locks = record unlocked { run_single = true }; singles = 1 }

alone_held-Reach : Serial.Reach alone_held
unfolding Locks.lock_run
alone_held-Reach = Serial.next Serial.here (omega arith) Serial.locks_run

at_most_one_single_example : alone_held.singles + alone_held.both < 2
at_most_one_single_example = Serial.at_most_one_single alone_held-Reach

lock_run-single_example :
    ((Locks.lock_run alone_held.locks).1 ≡ run_single) ↔ (alone_held.singles + alone_held.both ≡ 0)
lock_run-single_example = Serial.lock_run-single alone_held-Reach

-- Job 1 is plain and job 2 parallel; both are active and queued.
abbrev two_jobs : Workq
two_jobs = record {
  locks = unlocked;
  runq = 1 ∷ 2 ∷ [];
  p_runq = 2 ∷ [];
  types = λ j. if ltb 1 j then record plain { parallel = true } else plain;
  states = λ j. active;
}

lock_workq-Levels_example :
    Level.Levels (lock_workq two_jobs) × Failure.Held two_jobs.locks (lock_workq two_jobs)
lock_workq-Levels_example = Level.lock_workq-Levels two_jobs (omega arith) (refl, tt)

abbrev entered : CoRun
entered = record { co_idx = 0; size = 2; runcount = 3; rlck_held = true; inside = 1; called = [] }

abbrev first_called : CoRun
first_called = record entered { co_idx = 1; called = 0 ∷ [] }

first_called-Reach : Coroutine.Reach 2 first_called
unfolding Coroutine.publish Coroutine.enter Coroutine.fetch
first_called-Reach =
    Coroutine.next (Coroutine.next Coroutine.here (omega arith) Coroutine.enters) (omega arith)
      (Coroutine.fetches (omega arith))

called_once_example : Coroutine.calls 0 first_called.called ≡ 1
called_once_example = Coroutine.called_once first_called-Reach 0
