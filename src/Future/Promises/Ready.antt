-- ===== src/Future/Promises/Ready.antt =====
-- src/future.cc and include/ilias/future-inl.h: what a shared state holds once it is ready.
use mathlib.Core.Option.{Option}
use native.Mathlib.Decide.{ℕ_discrete}
use ilias_async.Base.{ℕ, ◌≡◌, true, false, List, [], ◌∷◌, arith}
use ilias_async.Refcnt.Pointer.{get, set}
use ilias_async.Future.{StateT, ready_value, ready_exc, is_uninitialized}
use ilias_async.Future.Promises.{
  Cell, Promises, put, set_ready, add_promise_reference_, remove_promise_reference_, acquire,
  release, assign, fresh, create, copy, move, drop, satisfy, get_future,
}
use ilias_async.Future.Promises.Program.{
  Command, creates, copies, moves, drops, gets_future, sets_value, sets_exception, perform,
  perform_all, Allowed, AllAllowed,
}

-- A shared state that is ready.
pub record IsSettled (c : Cell) (ready : StateT) (v : Option ℕ) : Type 0 where
  pub made : c.made ≡ true
  pub state : c.state ≡ ready
  pub storage : c.storage ≡ v

module _ (ready : StateT) (v : Option ℕ) (settles : is_uninitialized ready ≡ false) (o : ℕ) where
  acquire-IsSettled :
      (p : ℕ) (cells : ℕ → Cell)
      → IsSettled (cells o) ready v
      → IsSettled (acquire p cells o) ready v
  unfolding acquire add_promise_reference_ ℕ_discrete
  acquire-IsSettled p cells h = ground (arith, h)

  release-IsSettled :
      (p : ℕ) (cells : ℕ → Cell)
      → IsSettled (cells o) ready v
      → IsSettled (release p cells o) ready v
  unfolding release remove_promise_reference_ set_ready ℕ_discrete
  release-IsSettled p cells h = ground (arith, h, settles)

  create-IsSettled :
      (i a : ℕ) (w : Promises)
      → (w.cells a).made ≡ false
      → IsSettled (w.cells o) ready v
      → IsSettled ((create i a w).cells o) ready v
  unfolding create assign ℕ_discrete
  create-IsSettled i a w new h =
      release-IsSettled (get w.vars i) (acquire a (put w.cells a (fresh false)))
        (acquire-IsSettled a (put w.cells a (fresh false)) (ground (arith, h, new)))

  satisfy-IsSettled :
      (r : StateT) (i x : ℕ) (w : Promises)
      → IsSettled (w.cells o) ready v
      → IsSettled ((satisfy r i x w).0.cells o) ready v
  unfolding satisfy set_ready ℕ_discrete
  satisfy-IsSettled r i x w h = ground (arith, h, settles)

  get_future-IsSettled :
      (i : ℕ) (w : Promises)
      → IsSettled (w.cells o) ready v
      → IsSettled ((get_future i w).0.cells o) ready v
  unfolding get_future ℕ_discrete
  get_future-IsSettled i w h = ground (arith, h)

  perform-IsSettled :
      (c : Command) (w : Promises)
      → Allowed c w
      → IsSettled (w.cells o) ready v
      → IsSettled ((perform c w).cells o) ready v
  unfolding perform copy move drop assign
  perform-IsSettled (creates i a) w (n, m, new) h = create-IsSettled i a w new h
  perform-IsSettled (copies i j) w a h =
      release-IsSettled (get w.vars i) (acquire (get w.vars j) w.cells)
        (acquire-IsSettled (get w.vars j) w.cells h)
  perform-IsSettled (moves i j) w a h = release-IsSettled (get (set w.vars j 0) i) w.cells h
  perform-IsSettled (drops i) w a h = release-IsSettled (get w.vars i) w.cells h
  perform-IsSettled (gets_future i) w a h = get_future-IsSettled i w h
  perform-IsSettled (sets_value i x) w a h = satisfy-IsSettled ready_value i x w h
  perform-IsSettled (sets_exception i x) w a h = satisfy-IsSettled ready_exc i x w h

-- A shared state that is ready keeps its value or its exception, whatever is done with promises.
pub perform_all-IsSettled :
    (ready : StateT) (v : Option ℕ) (o : ℕ) (cs : List Command) (w : Promises)
    → is_uninitialized ready ≡ false
    → AllAllowed cs w
    → IsSettled (w.cells o) ready v
    → IsSettled ((perform_all cs w).cells o) ready v
unfolding perform_all
perform_all-IsSettled ready v o [] w r a h = h
perform_all-IsSettled ready v o (c ∷ cs) w r (a, b) h =
    perform_all-IsSettled ready v o cs (perform c w) r b (perform-IsSettled ready v r o c w a h)
