-- ===== src/MsgQueue/Tests.antt =====
-- The message queue at concrete inputs.
use mathlib.Core.Option.{some}
use ilias_async.Base.{◌≡◌, ◌⊎◌, refl, true, false, List, [], ◌∷◌, ◌==◌, arith}
use ilias_async.MsgQueue.Events.{
  Events, initial, again, idle, storing, stored, calling, Reach, here, next, fires, stores, begins,
  sets, ends, finishes, fire, store_busy, begin_event, is_absent, end_event, finish, set_callback,
}
use ilias_async.MsgQueue.Wakeup
use ilias_async.MsgQueue.Data
use ilias_async.MsgQueue.Data.{fresh}
use ilias_async.MsgQueue.Data.Batch.{Agrees, dequeue-Agrees}
use ilias_async.MsgQueue.Data.Order
use ilias_async.MsgQueue.Data.Order.{Ordered, Holds}
use ilias_async.MsgQueue.Data.Program.{
  World, Call, enqueues, dequeues, assigns, commits, perform_all,
}

-- Callback 8 is set and the event is fired; while it runs, the event is fired again.
abbrev fired_again : Events
fired_again = record initial {
  state = again;
  ev_restore = true;
  firer = calling (some 8);
  owed = true;
  installed = some 8;
}

fired_again-Reach : Reach fired_again
unfolding set_callback fire store_busy begin_event
fired_again-Reach =
    next (next (next (next (next here (sets (some 8))) fires) (stores refl)) (begins refl)) fires

abbrev at_rest : Events
at_rest = record initial { ev = some 8; installed = some 8 }

at_rest-Reach : Reach at_rest
unfolding end_event finish store_busy begin_event
at_rest-Reach =
    next
      (next
        (next (next (next (next fired_again-Reach (ends refl)) (finishes refl)) (stores refl))
          (begins refl))
        (ends refl))
      (finishes refl)

nothing_owed_example : (at_rest.owed ≡ false) × (at_rest.ev ≡ some 8) × (at_rest.state ≡ idle)
nothing_owed_example = Wakeup.nothing_owed at_rest-Reach refl

owed_is_coming_example :
    (fired_again.firer ≡ storing)
    ⊎ (fired_again.firer ≡ stored)
    ⊎ ((is_absent fired_again.firer ≡ false) × (fired_again.state ≡ again))
owed_is_coming_example = Wakeup.owed_is_coming fired_again-Reach refl

abbrev two : Data.Data
two = record { items = 4 ∷ 9 ∷ []; allocated = 3; constructed = 2; fires = 2 }

-- Two messages in the queue, and a prepared statement without value.
abbrev prepared_two : World
prepared_two = record {
  queue = two;
  prepared = record { bound = true; ptr = Data.storage };
  sent = 4 ∷ 9 ∷ [];
  received = [];
}

prepared_two-Ordered : Ordered prepared_two
prepared_two-Ordered = record {
  in_order = refl;
  all_held = refl;
  all_constructed = refl;
  bound_ptr = refl;
  told = omega arith;
}

-- The constructor of message 7 throws at first, and the functor throws on message 9.
abbrev calls : List Call
calls =
    enqueues true false 7
    ∷ assigns true 5
    ∷ commits
    ∷ enqueues true true 7
    ∷ dequeues (λ v. v == 9) 3
    ∷ commits
    ∷ []

perform_all-Ordered_example : Holds Ordered (perform_all calls prepared_two)
perform_all-Ordered_example = Order.perform_all-Ordered calls prepared_two prepared_two-Ordered

dequeue-Agrees_example : Agrees (λ v. v == 4) 2 two.items (Data.dequeue (λ v. v == 4) 2 two)
dequeue-Agrees_example = dequeue-Agrees (λ v. v == 4) 2 two
