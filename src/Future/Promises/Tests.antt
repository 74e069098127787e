-- ===== src/Future/Promises/Tests.antt =====
-- Promises at concrete inputs.
use mathlib.Core.Option.{none, some}
use native.Mathlib.Decide.{ℕ_discrete}
use ilias_async.Base.{◌≡◌, refl, true, false, List, [], ◌∷◌, arith}
use ilias_async.Future.{uninitialized, ready_value, ready_exc}
use ilias_async.Future.Promises.{Cell, Promises, broken_promise}
use ilias_async.Future.Promises.Program
use ilias_async.Future.Promises.Program.{
  perform, Command, creates, copies, moves, drops, gets_future, sets_value, perform_all,
}
use ilias_async.Future.Promises.Ready
use ilias_async.Future.Promises.Ready.{IsSettled}

abbrev nothing : Cell
nothing = record {
  made = false;
  state = uninitialized;
  storage = none;
  shared = false;
  promise_refcnt = 0;
}

abbrev no_promises : Promises
no_promises = record { vars = 0 ∷ 0 ∷ 0 ∷ []; cells = λ o. nothing; given = [] }

-- A promise is copied and moved, its future is taken, and both copies go.
abbrev calls : List Command
calls = creates 0 7 ∷ copies 1 0 ∷ gets_future 1 ∷ moves 2 0 ∷ drops 1 ∷ drops 2 ∷ []

broken_in_the_end : (perform_all calls no_promises).cells 7 ≡ record nothing {
  made = true;
  state = ready_exc;
  storage = some broken_promise;
  shared = true;
}
unfolding perform_all ℕ_discrete
broken_in_the_end = refl

abbrev satisfied : Promises
satisfied = record no_promises {
  vars = 7 ∷ 0 ∷ 0 ∷ [];
  cells = λ o. record nothing {
    made = true;
    state = ready_value;
    storage = some 5;
    promise_refcnt = 1;
  };
}

abbrev late_calls : List Command
late_calls = sets_value 0 6 ∷ drops 0 ∷ []

perform_all-IsSettled_example :
    IsSettled ((perform_all late_calls satisfied).cells 7) ready_value (some 5)
unfolding perform ℕ_discrete
perform_all-IsSettled_example =
    Ready.perform_all-IsSettled ready_value (some 5) 7 late_calls satisfied refl (omega arith)
      (record { made = refl; state = refl; storage = refl })
