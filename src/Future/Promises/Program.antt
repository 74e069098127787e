-- ===== src/Future/Promises/Program.antt =====
-- src/future.cc and include/ilias/future-inl.h: programs over promises.
use ilias_async.Base.{ℕ, ◌+◌, ◌<◌, ◌≡◌, ◌≢◌, false, List, [], ◌∷◌, word, length}
use ilias_async.Refcnt.Pointer.Balance.{occurrences}
use ilias_async.Future.{ready_value, ready_exc}
use ilias_async.Future.Promises.{Promises, create, copy, move, drop, satisfy, get_future}
use ilias_async.Future.Promises.Counts.{Counted}

-- The count of a shared state is the number of promises that hold it; one that none holds any more is
-- ready, and what is ready has a value or an exception in its storage; at most one future was given out
-- for it, and that is recorded.
pub record Sound (w : Promises) : Type 0 where
  pub cells_sound : Counted (λ o. occurrences o w.vars) w.given w.cells
  pub room : length w.vars + 2 < word

pub data Command : Type 0 where
  creates copies moves : (i j : ℕ) → Command
  drops gets_future : (i : ℕ) → Command
  sets_value sets_exception : (i v : ℕ) → Command

unfoldable pub perform : Command → Promises → Promises
unfolding create copy move drop get_future satisfy
perform (creates i o) w = create i o w
perform (copies i j) w = copy i j w
perform (moves i j) w = move i j w
perform (drops i) w = drop i w
perform (gets_future i) w = (get_future i w).0
perform (sets_value i v) w = (satisfy ready_value i v w).0
perform (sets_exception i e) w = (satisfy ready_exc i e w).0

-- The variables exist, and a new state has an address of its own.
abbrev pub Allowed : Command → Promises → Type 0
Allowed (creates i o) w = (i < length w.vars) × (o ≢ 0) × ((w.cells o).made ≡ false)
Allowed (copies i j) w = (i < length w.vars) × (j < length w.vars)
Allowed (moves i j) w = (i < length w.vars) × (j < length w.vars)
Allowed (drops i) w = i < length w.vars
Allowed (gets_future i) w = i < length w.vars
Allowed (sets_value i v) w = Unit
Allowed (sets_exception i e) w = Unit

unfoldable pub perform_all : List Command → Promises → Promises
unfolding perform
perform_all [] w = w
perform_all (c ∷ cs) w = perform_all cs (perform c w)

abbrev pub AllAllowed : List Command → Promises → Type 0
AllAllowed [] w = Unit
AllAllowed (c ∷ cs) w = Allowed c w × AllAllowed cs (perform c w)
