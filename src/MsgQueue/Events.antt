-- ===== src/MsgQueue/Events.antt =====
-- `msg_queue_events` of include/ilias/msg_queue.h: the atomic steps of `_fire`, `_fire_event` and
-- `callback`. A callback is a number.
use mathlib.Core.Option.{Option, none, some}
use ilias_async.Base.{ℕ, ◌≡◌, Bool, true, false, ◌||◌, if◌then◌else◌}

-- `m_state`
pub data EvState : Type 0 where
  idle busy again : EvState

-- Where the thread stands that fires the event: before the store of `BUSY`, before `_fire_event`,
-- inside the callback that it has taken, or before the exchange of `BUSY` for `IDLE`.
pub data Phase : Type 0 where
  absent storing stored : Phase
  calling : Option ℕ → Phase
  finishing : Phase

-- `overlap` is set if a second thread begins to fire; `owed`, if there was a call of `_fire`, or a
-- new callback during an event, after which no event has begun; `installed` is the callback that was
-- set last.
pub record Events : Type 0 where
  pub state : EvState
  pub ev_restore : Bool
  pub ev : Option ℕ
  pub firer : Phase
  pub overlap : Bool
  pub owed : Bool
  pub installed : Option ℕ

abbrev pub initial : Events
initial = record {
  state = idle;
  ev_restore = false;
  ev = none;
  firer = absent;
  overlap = false;
  owed = false;
  installed = none;
}

abbrev pub is_absent : Phase → Bool
is_absent absent = true
is_absent _ = false

abbrev pub is_some : Option ℕ → Bool
is_some none = false
is_some (some f) = true

-- `_fire`: `m_state.exchange(AGAIN)`, and its test.
unfoldable pub exchange_again : EvState → Events → Events
exchange_again idle e = record e {
  state = again;
  firer = storing;
  overlap = if is_absent e.firer then e.overlap else true;
  owed = true;
}
exchange_again _ e = record e { state = again; owed = true }

unfoldable pub fire : Events → Events
unfolding exchange_again
fire e = exchange_again e.state e

unfoldable pub store_busy : Events → Events
store_busy e = record e { state = busy; firer = stored }

-- `_fire_event` up to the call of the function.
unfoldable pub begin_event : Events → Events
begin_event e = record e {
  ev = none;
  ev_restore = is_some e.ev || e.ev_restore;
  firer = calling e.ev;
  owed = false;
}

-- `_fire_event` after the call.
unfoldable pub end_event : Option ℕ → Events → Events
end_event none e = record e { firer = finishing }
end_event (some f) e =
    if e.ev_restore
    then record e { ev = some f; ev_restore = false; firer = finishing }
    else record e { firer = finishing }

-- The condition of the loop in `_fire`.
unfoldable pub finish : EvState → Events → Events
finish busy e = record e { state = idle; firer = absent }
finish _ e = record e { firer = storing }

-- `callback(mqev, fn)`
unfoldable pub set_callback : Option ℕ → Events → Events
set_callback fn e =
    if e.ev_restore
    then record e { ev = fn; ev_restore = false; state = again; owed = true; installed = fn }
    else record e { ev = fn; installed = fn }

-- `callback(mqev, nullptr)`
unfoldable pub clear_callback : Events → Events
clear_callback e = record e { ev = none; ev_restore = false; installed = none }

pub data Step (e : Events) : Events → Type 0 where
  fires : Step e (fire e)
  stores : e.firer ≡ storing → Step e (store_busy e)
  begins : e.firer ≡ stored → Step e (begin_event e)
  ends : {f : Option ℕ} → e.firer ≡ calling f → Step e (end_event f e)
  finishes : e.firer ≡ finishing → Step e (finish e.state e)
  sets : (fn : Option ℕ) → Step e (set_callback fn e)
  clears : Step e (clear_callback e)

pub data Reach : Events → Type 0 where
  here : Reach initial
  next : {e f : Events} → Reach e → Step e f → Reach f
