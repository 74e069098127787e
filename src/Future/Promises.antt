-- ===== src/Future/Promises.antt =====
-- src/future.cc and include/ilias/future-inl.h: `promise_refptr`, `cb_promise`, copies in a
-- `cb_promise_exceptor`, and the future that a promise gives out, on the variables of a program. A variable holds the address of a
-- shared state, or 0; a value and an exception are numbers.
pub mod Counts
pub mod Program
pub mod Ready
mod Tests
use mathlib.Core.Option.{Option, none, some}
use mathlib.Core.Logic.{ite}
use native.Mathlib.Decide.{ℕ_discrete}
use ilias_async.Base.{
  ℕ, ◌+◌, ◌-◌, ◌%◌, Bool, true, false, not, ◌&&◌, List, [], ◌∷◌, ◌==◌, if◌then◌else◌, word,
  add_word,
}
use ilias_async.Refcnt.Pointer.{get, set}
use ilias_async.Future.{
  StateT, uninitialized, uninitialized_deferred, ready_value, ready_exc, is_uninitialized,
}

-- `shared_state_base`, with its storage; whether it was allocated.
pub record Cell : Type 0 where
  pub made : Bool
  pub state : StateT
  pub storage : Option ℕ
  pub shared : Bool
  pub promise_refcnt : ℕ

-- The promises, the shared states, and the states that futures were given out for.
pub record Promises : Type 0 where
  pub vars : List ℕ
  pub cells : ℕ → Cell
  pub given : List ℕ

-- What a call returns or throws.
pub data Answer : Type 0 where
  done no_state promise_already_satisfied future_already_retrieved : Answer
  future : ℕ → Answer

abbrev pub put : (ℕ → Cell) → ℕ → Cell → ℕ → Cell
put cells p c o = ite (ℕ_discrete p o) c (cells o)

-- `std::future_errc::broken_promise`
abbrev pub broken_promise : ℕ
broken_promise = 0

-- `set_value` and `set_exc` of a shared state; does it throw?
unfoldable pub set_ready : StateT → ℕ → Cell → Cell × Bool
set_ready ready v c =
    if is_uninitialized c.state
    then (record c { state = ready; storage = some v }, false)
    else (c, true)

-- `add_promise_reference_` and `remove_promise_reference_`
unfoldable pub add_promise_reference_ : Cell → Cell
add_promise_reference_ c = record c { promise_refcnt = add_word c.promise_refcnt 1 }

unfoldable pub remove_promise_reference_ : Cell → Cell
unfolding set_ready
remove_promise_reference_ c =
    let d = record c { promise_refcnt = (c.promise_refcnt + word - 1) % word } in
    if c.promise_refcnt == 1 && is_uninitialized c.state
    then (set_ready ready_exc broken_promise d).0
    else d

-- The constructor of a `promise_refptr` on a pointer, and its destructor.
unfoldable pub acquire : ℕ → (ℕ → Cell) → ℕ → Cell
unfolding add_promise_reference_
acquire p cells = if p == 0 then cells else put cells p (add_promise_reference_ (cells p))

unfoldable pub release : ℕ → (ℕ → Cell) → ℕ → Cell
unfolding remove_promise_reference_
release p cells = if p == 0 then cells else put cells p (remove_promise_reference_ (cells p))

-- `operator=`: the old pointer goes with the argument.
unfoldable pub assign : ℕ → ℕ → Promises → Promises
unfolding release
assign i p w = record w { vars = set w.vars i p; cells = release (get w.vars i) w.cells }

-- The constructor of a shared state.
abbrev pub fresh : Bool → Cell
fresh deferred = record {
  made = true;
  state = if deferred then uninitialized_deferred else uninitialized;
  storage = none;
  shared = false;
  promise_refcnt = 0;
}

-- `cb_promise()`, with the address of its new state.
unfoldable pub create : ℕ → ℕ → Promises → Promises
unfolding acquire assign
create i o w = assign i o (record w { cells = acquire o (put w.cells o (fresh false)) })

-- `cb_promise_exceptor(cb_promise&)`, which copies, and the move of a promise.
unfoldable pub copy : ℕ → ℕ → Promises → Promises
unfolding acquire assign
copy i j w = assign i (get w.vars j) (record w { cells = acquire (get w.vars j) w.cells })

unfoldable pub move : ℕ → ℕ → Promises → Promises
unfolding assign
move i j w = assign i (get w.vars j) (record w { vars = set w.vars j 0 })

-- The destructor.
unfoldable pub drop : ℕ → Promises → Promises
unfolding assign
drop i w = assign i 0 w

-- `set_value` and `set_exception` of a promise
unfoldable pub satisfy : StateT → ℕ → ℕ → Promises → Promises × Answer
unfolding set_ready
satisfy ready i v w =
    let p = get w.vars i in
    let (c, throws) = set_ready ready v (w.cells p) in
    if p == 0
    then (w, no_state)
    else (record w { cells = put w.cells p c }, if throws then promise_already_satisfied else done)

-- `get_future`, with `mark_shared`
unfoldable pub get_future : ℕ → Promises → Promises × Answer
get_future i w =
    let p = get w.vars i in
    if p == 0
    then (w, no_state)
    else if (w.cells p).shared
    then (w, future_already_retrieved)
    else (
      record w {
        cells = put w.cells p (record (w.cells p) { shared = true });
        given = p ∷ w.given;
      },
      future p,
    )
