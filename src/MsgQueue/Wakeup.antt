-- ===== src/MsgQueue/Wakeup.antt =====
-- `msg_queue_events` of include/ilias/msg_queue.h: the events that begin after the calls of `_fire`.
use mathlib.Core.Option.{Option, none, some}
use ilias_async.Base.{ℕ, ◌≡◌, ◌≢◌, ◌⊎◌, inl, inr, refl, Bool, true, false, arith}
use ilias_async.MsgQueue.Events.{
  EvState, idle, again, Phase, absent, storing, stored, calling, finishing, Events, is_absent, fire,
  store_busy, begin_event, end_event, finish, set_callback, clear_callback, Step, fires, stores,
  begins, ends, finishes, sets, clears, Reach, here, next,
}

-- What the phase of the firing thread says of the rest.
abbrev PhaseInv : Phase → Events → Type 0
PhaseInv absent e =
    (e.state ≡ idle) × (e.owed ≡ false) × (e.ev_restore ≡ false) × (e.ev ≡ e.installed)
PhaseInv storing e = (e.state ≢ idle) × (e.ev_restore ≡ false) × (e.ev ≡ e.installed)
PhaseInv stored e = (e.state ≢ idle) × (e.ev_restore ≡ false) × (e.ev ≡ e.installed)
PhaseInv (calling none) e =
    (e.state ≢ idle)
    × ((e.owed ≡ false) ⊎ (e.state ≡ again))
    × (e.ev_restore ≡ false)
    × (e.ev ≡ e.installed)
PhaseInv (calling (some f)) e =
    (e.state ≢ idle)
    × ((e.owed ≡ false) ⊎ (e.state ≡ again))
    × (((e.ev_restore ≡ true) × (e.ev ≡ none) × (e.installed ≡ some f))
        ⊎ ((e.ev_restore ≡ false) × (e.ev ≡ e.installed)))
PhaseInv finishing e =
    (e.state ≢ idle)
    × ((e.owed ≡ false) ⊎ (e.state ≡ again))
    × (e.ev_restore ≡ false)
    × (e.ev ≡ e.installed)

pub record Inv (e : Events) : Type 0 where
  pub alone : e.overlap ≡ false
  pub phase : PhaseInv e.firer e

module _ (r : Bool) (ev : Option ℕ) (o : Bool) (w : Bool) (i : Option ℕ) where
  -- The events in a given state and phase, the rest being arbitrary.
  abbrev at : EvState → Phase → Events
  at s p = record {
    state = s;
    ev_restore = r;
    ev = ev;
    firer = p;
    overlap = o;
    owed = w;
    installed = i;
  }

  fire-Inv : (s : EvState) (p : Phase) → Inv (at s p) → Inv (fire (at s p))
  unfolding fire
  fire-Inv s absent v = ground (arith, v.phase)
  fire-Inv s storing v = ground (arith, v.phase)
  fire-Inv s stored v = ground (arith, v.phase)
  fire-Inv s (calling none) v = ground (arith, v.phase)
  fire-Inv s (calling (some f)) v = ground (arith, v.phase)
  fire-Inv s finishing v = ground (arith, v.phase)

  set_callback-Inv :
      (fn : Option ℕ) (s : EvState) (p : Phase) → Inv (at s p) → Inv (set_callback fn (at s p))
  unfolding set_callback
  set_callback-Inv fn s absent v = ground (arith, v.phase)
  set_callback-Inv fn s storing v = ground (arith, v.phase)
  set_callback-Inv fn s stored v = ground (arith, v.phase)
  set_callback-Inv fn s (calling none) v = ground (arith, v.phase)
  set_callback-Inv fn s (calling (some f)) v = ground (arith, v.phase)
  set_callback-Inv fn s finishing v = ground (arith, v.phase)

  clear_callback-Inv : (s : EvState) (p : Phase) → Inv (at s p) → Inv (clear_callback (at s p))
  unfolding clear_callback
  clear_callback-Inv s absent v = ground (arith, v.phase)
  clear_callback-Inv s storing v = ground (arith, v.phase)
  clear_callback-Inv s stored v = ground (arith, v.phase)
  clear_callback-Inv s (calling none) v = ground (arith, v.phase)
  clear_callback-Inv s (calling (some f)) v = ground (arith, v.phase)
  clear_callback-Inv s finishing v = ground (arith, v.phase)

  store_busy-Inv :
      (s : EvState) (p : Phase) → p ≡ storing → Inv (at s p) → Inv (store_busy (at s p))
  unfolding store_busy
  store_busy-Inv s storing q v = ground (arith, v.phase)
  store_busy-Inv s _ q v = ground arith

  end_event-Inv :
      (f : Option ℕ) (s : EvState) (p : Phase)
      → p ≡ calling f
      → Inv (at s p)
      → Inv (end_event f (at s p))
  unfolding end_event
  end_event-Inv none s (calling none) q v = ground (arith, v.phase)
  end_event-Inv (some f) s (calling (some g)) q v = ground (arith, v.phase)
  end_event-Inv f s _ q v = ground arith

  finish-Inv : (s : EvState) (p : Phase) → p ≡ finishing → Inv (at s p) → Inv (finish s (at s p))
  unfolding finish
  finish-Inv s finishing q v = ground (arith, v.phase)
  finish-Inv s _ q v = ground arith

begin_event-Inv :
    (r : Bool) (ev : Option ℕ) (o w : Bool) (i : Option ℕ) (s : EvState) (p : Phase)
    → p ≡ stored
    → Inv (at r ev o w i s p)
    → Inv (begin_event (at r ev o w i s p))
unfolding begin_event
begin_event-Inv r none o w i s stored q v = ground (arith, v.phase)
begin_event-Inv r (some f) o w i s stored q v = ground (arith, v.phase)
begin_event-Inv r ev o w i s _ q v = ground arith

Step-Inv : {e f : Events} → Step e f → Inv e → Inv f
Step-Inv {e} fires v = fire-Inv e.ev_restore e.ev e.overlap e.owed e.installed e.state e.firer v
Step-Inv {e} (stores q) v =
    store_busy-Inv e.ev_restore e.ev e.overlap e.owed e.installed e.state e.firer q v
Step-Inv {e} (begins q) v =
    begin_event-Inv e.ev_restore e.ev e.overlap e.owed e.installed e.state e.firer q v
Step-Inv {e} (ends {f} q) v =
    end_event-Inv e.ev_restore e.ev e.overlap e.owed e.installed f e.state e.firer q v
Step-Inv {e} (finishes q) v =
    finish-Inv e.ev_restore e.ev e.overlap e.owed e.installed e.state e.firer q v
Step-Inv {e} (sets fn) v =
    set_callback-Inv e.ev_restore e.ev e.overlap e.owed e.installed fn e.state e.firer v
Step-Inv {e} clears v =
    clear_callback-Inv e.ev_restore e.ev e.overlap e.owed e.installed e.state e.firer v

pub Reach-Inv : {e : Events} → Reach e → Inv e
Reach-Inv here = ground arith
Reach-Inv (next r st) = Step-Inv st (Reach-Inv r)

-- Two threads never fire the event at the same time.
pub one_firer : {e : Events} → Reach e → e.overlap ≡ false
one_firer r = (Reach-Inv r).alone

not_firing : (p : Phase) (e : Events) → is_absent p ≡ true → PhaseInv p e → PhaseInv absent e
not_firing absent e q h = h
not_firing _ e q h = ground arith

-- Once no thread fires any more, an event has begun after each call of `_fire` and after each new
-- callback that was set during an event, and the callback that was set last is in place.
pub nothing_owed :
    {e : Events}
    → Reach e
    → is_absent e.firer ≡ true
    → (e.owed ≡ false) × (e.ev ≡ e.installed) × (e.state ≡ idle)
nothing_owed {e} r q = let h = not_firing e.firer e q (Reach-Inv r).phase in (h.1, h.3, h.0)

-- While an event is owed, some thread is going to begin one: it is before the beginning of one, or
-- the state makes it start again.
pub owed_is_coming :
    {e : Events}
    → Reach e
    → e.owed ≡ true
    → (e.firer ≡ storing) ⊎ (e.firer ≡ stored) ⊎ ((is_absent e.firer ≡ false) × (e.state ≡ again))
owed_is_coming {e} r w = coming e.firer e w (Reach-Inv r).phase
  where
    coming :
        (p : Phase) (e : Events)
        → e.owed ≡ true
        → PhaseInv p e
        → (p ≡ storing) ⊎ (p ≡ stored) ⊎ ((is_absent p ≡ false) × (e.state ≡ again))
    coming absent e w h = ground arith
    coming storing e w h = inl refl
    coming stored e w h = inr (inl refl)
    coming (calling none) e w h = ground arith
    coming (calling (some f)) e w h = ground arith
    coming finishing e w h = ground arith
