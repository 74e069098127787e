-- ===== src/Workq/Job.antt =====
-- `workq_job`: its type flags, its state word and the operations on it.
pub mod Flow
pub mod Activation
pub mod Race
use ilias_async.Base.{
  ℕ, ◌+◌, ◌%◌, ◌^◌, Bool, true, false, not, ◌&&◌, ◌||◌, ◌==◌, if◌then◌else◌, Checked, ok, check,
}

-- The bits of `m_type`; `other` is any bit outside of `TYPE_MASK`.
pub record JobType : Type 0 where
  pub once : Bool
  pub persist : Bool
  pub parallel : Bool
  pub no_aid : Bool
  pub other : Bool

-- The bits of `m_state`, and `m_run_gen`, an `unsigned int`.
pub record JobState : Type 0 where
  pub running : Bool
  pub has_run : Bool
  pub active : Bool
  pub run_gen : ℕ

abbrev pub fresh : JobState
fresh = record { running = false; has_run = false; active = false; run_gen = 0 }

abbrev pub uint : ℕ
uint = 2 ^ 32

-- The `std::invalid_argument` of the constructor.
pub data Refusal : Type 0 where
  null_workq persistent_once unrecognized_flags : Refusal

pub data Created : Type 0 where
  created : JobState → Created
  throws : Refusal → Created

-- `workq_job::workq_job`, for a workq that is null or not.
pub construct : Bool → JobType → Created
construct has_workq ty =
    if not has_workq
    then throws null_workq
    else if ty.once && ty.persist
    then throws persistent_once
    else if ty.other
    then throws unrecognized_flags
    else created fresh

-- `workq_job::run_lck`
pub data RunLck : Type 0 where
  running busy : RunLck

-- `lock_run`: the exchange succeeds only on the state that was tested, so it is one step.
unfoldable pub lock_run : JobType → JobState → JobState × RunLck
lock_run ty s =
    if not s.active
    then (s, busy)
    else if s.running
    then (s, busy)
    else if ty.once && s.has_run
    then (s, busy)
    else (
      record {
        running = true;
        has_run = s.has_run;
        active = if not ty.persist then false else s.active;
        run_gen = (s.run_gen + 1) % uint;
      },
      running,
    )

-- The first half of `activate`: the new state, and whether the job is to be put on the run queues.
unfoldable pub activate : JobState → JobState × Bool
activate s = (record s { active = true }, not (s.running || s.active))

-- `unlock_run` on `RUNNING`: the new state, and whether the job goes back to the run queues.
unfoldable pub unlock_run : JobType → JobState → Checked (JobState × Bool)
unlock_run ty s =
    check s.running (ok (record s { running = false }, if ty.once then false else s.active))

-- `deactivate` reads the generation, clears the flag, and loops on what it has seen of the state
-- and on the generation; `inside` says whether it is called by the job itself.
unfoldable pub clear : JobState → JobState
clear s = record s { active = false }

unfoldable pub deactivate_loops : (inside : Bool) (gen : ℕ) (seen now : JobState) → Bool
deactivate_loops inside gen seen now =
    if seen.running && inside then false else seen.running && gen == now.run_gen
