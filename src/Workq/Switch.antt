-- ===== src/Workq/Switch.antt =====
-- src/workq.cc: `workq_switch`, which moves the running job of a thread to another workq.
use ilias_async.Base.{
  ℕ, ◌≡◌, ◌↔◌, Bool, true, false, not, ◌&&◌, List, [], ◌∷◌, ◌==◌, if◌then◌else◌, arith,
}
use ilias_async.Workq.Locks.{RunLck, run_single, run_parallel, is_single}

-- The workq that a frame of the thread's stack, or a `workq_pop_state`, names, 0 for none, and the
-- level of its lock.
pub record Place : Type 0 where
  pub wq : ℕ
  pub lck : RunLck

-- `wq_is_single` of a frame, and `is_single` of a `workq_pop_state`.
abbrev pub alone : Place → Bool
alone p = not (p.wq == 0) && is_single p.lck

-- What the thread does with its locks.
pub data Action : Type 0 where
  keep : Action
  give_back : Place → Action
  downgrade : ℕ → Action
  change : (from to : Place) → Action  -- `unlock_wq` and then `lock_wq`, which waits

pub data Switched : Type 0 where
  stack_error : Switched
  deadlock : Switched
  switched : (before : Place) (head : Place) (action : Action) → Switched

-- The frames below the head, and whether one of them has the workq for itself.
abbrev pub held_alone : ℕ → List Place → Bool
held_alone w [] = false
held_alone w (p ∷ ps) = if p.wq == w && alone p then true else held_alone w ps

-- `workq_pop_state rv(lck.get_wq(), …)`
abbrev pub pop_state : Place → Place
pop_state head = record { wq = head.wq; lck = if alone head then run_single else run_parallel }

unfoldable pub relock : Place → Place → List Place → Switched
relock dst head preds =
    if alone dst && held_alone dst.wq preds
    then deadlock
    else switched (pop_state head)
        (record { wq = dst.wq; lck = if alone dst then run_single else run_parallel })
        (change head dst)

unfoldable pub workq_switch : Place → List Place → Switched
unfolding relock
workq_switch dst [] = stack_error
workq_switch dst (head ∷ preds) =
    if dst.wq == 0
    then switched (pop_state head) (record head { wq = 0 }) (give_back head)
    else if head.wq == dst.wq
    then (if is_single dst.lck
        then (if alone head then switched (pop_state head) head keep else relock dst head preds)
        else if alone head
        then switched (pop_state head) (record head { lck = run_parallel }) (downgrade head.wq)
        else switched (pop_state head) head keep)
    else relock dst head preds

-- No two frames of a thread have one workq for themselves.
abbrev pub NoneTwice : List Place → Type 0
NoneTwice [] = Unit
NoneTwice (p ∷ ps) = (alone p && held_alone p.wq ps ≡ false) × NoneTwice ps

-- A switch that succeeds ends at the workq and the level that were asked for, and keeps no workq
-- held alone by two frames of the thread; so a thread never waits for a workq that it has for itself
-- in another frame.
pub switch_reaches :
    (dst head : Place) (preds : List Place) (before head' : Place) (a : Action)
    → NoneTwice (head ∷ preds)
    → workq_switch dst (head ∷ preds) ≡ switched before head' a
    → (head'.wq ≡ dst.wq) × (alone head' ≡ alone dst) × NoneTwice (head' ∷ preds)
unfolding workq_switch
switch_reaches dst head preds before head' a n e = ground arith

-- A switch that succeeds and leaves the thread at the workq and the level of a place.
abbrev pub EndsAt : Place → Switched → Type 0
EndsAt p stack_error = ⊥
EndsAt p deadlock = ⊥
EndsAt p (switched before head a) = (head.wq ≡ p.wq) × (alone head ≡ alone p)

-- Switching back to what a switch has returned succeeds, and ends at the workq and the level from
-- before.
pub switch_back :
    (dst head : Place) (preds : List Place) (before head' : Place) (a : Action)
    → NoneTwice (head ∷ preds)
    → workq_switch dst (head ∷ preds) ≡ switched before head' a
    → EndsAt head (workq_switch before (head' ∷ preds))
unfolding workq_switch
switch_back dst head preds before head' a n e = ground arith

-- It is refused exactly when the thread asks for a workq alone, does not have it alone in the head
-- frame, and has it alone in another one.
pub switch_deadlock :
    (dst head : Place) (preds : List Place)
    → (workq_switch dst (head ∷ preds) ≡ deadlock)
      ↔ (alone dst && not (head.wq == dst.wq && alone head) && held_alone dst.wq preds ≡ true)
unfolding workq_switch
switch_deadlock dst head preds = (λ e. ground arith, λ e. ground arith)
