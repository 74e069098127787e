-- ===== src/Future.antt =====
-- src/future.cc and include/ilias/future-inl.h: `shared_state`, which a promise fills once, and the
-- callbacks of its futures. A value, an exception and a callback are numbers.
pub mod Callbacks
pub mod Promises
mod Tests
use mathlib.Core.Option.{Option, none, some}
use ilias_async.Base.{
  ℕ, zero, suc, ◌+◌, ◌-◌, ◌≡◌, ◌≢◌, refl, Bool, true, false, not, List, [], ◌∷◌, ◌++◌,
  if◌then◌else◌, Checked, ok, assert_failed, check,
}

-- `state_t`
pub data StateT : Type 0 where
  uninitialized uninitialized_deferred uninitialized_convert ready_value ready_exc : StateT

abbrev pub is_ready : StateT → Bool
is_ready ready_value = true
is_ready ready_exc = true
is_ready s = false

abbrev pub is_uninitialized : StateT → Bool
is_uninitialized uninitialized = true
is_uninitialized s = false

-- `shared_state_nofn`: its state and storage, the callbacks that wait for it, the chain of
-- `shared_ready_cb_` from its head. Then what the threads have done: the callbacks that were handed to
-- it and those that were called, and how many threads have made it ready but not yet called
-- `invoke_ready_cb`.
pub record Shared : Type 0 where
  pub state : StateT
  pub storage : Option ℕ
  pub ready_cb : Option ℕ
  pub shared_ready_cb : List ℕ
  pub dependants : List ℕ
  pub installed : List ℕ
  pub called : List ℕ
  pub firing : ℕ

-- `shared_state_base::shared_state_base`
abbrev pub initial : Bool → Shared
initial deferred = record {
  state = if deferred then uninitialized_deferred else uninitialized;
  storage = none;
  ready_cb = none;
  shared_ready_cb = [];
  dependants = [];
  installed = [];
  called = [];
  firing = 0;
}

-- `ensure_uninitialized`, `set_value` and `set_exc` up to the release of the lock; `false` stands for
-- the exception `promise_already_satisfied`.
unfoldable pub set_ready : StateT → ℕ → Shared → Shared × Bool
set_ready ready v f =
    if is_uninitialized f.state
    then (record f { state = ready; storage = some v; firing = f.firing + 1 }, true)
    else (f, false)

abbrev pub same : StateT → StateT → Bool
same uninitialized uninitialized = true
same uninitialized_deferred uninitialized_deferred = true
same uninitialized_convert uninitialized_convert = true
same ready_value ready_value = true
same ready_exc ready_exc = true
same s t = false

-- `state_.compare_exchange_strong`
unfoldable pub exchange_state : StateT → StateT → Shared → Shared × Bool
exchange_state expect t f =
    if same f.state expect then (record f { state = t }, true) else (f, false)

unfoldable pub clear_deferred : Shared → Shared × Bool
unfolding exchange_state
clear_deferred f = exchange_state uninitialized_deferred uninitialized f

unfoldable pub clear_convert : Shared → Shared × Bool
unfolding exchange_state
clear_convert f = exchange_state uninitialized_convert uninitialized f

unfoldable pub mark_convert_present : Shared → Checked Shared
unfolding exchange_state
mark_convert_present f =
    let r = exchange_state uninitialized uninitialized_convert f in check r.1 (ok r.0)

abbrev pub call : ℕ → Shared → Shared
call c f = record f { called = c ∷ f.called; installed = c ∷ f.installed }

abbrev pub is_none : Option ℕ → Bool
is_none none = true
is_none (some c) = false

-- `install_callback` for an unshared future
unfoldable pub install_callback : ℕ → Shared → Checked Shared
install_callback c f =
    if is_ready f.state
    then ok (call c f)
    else check (is_none f.ready_cb)
        (ok (record f { ready_cb = some c; installed = c ∷ f.installed }))

-- `install_callback` for a shared future
unfoldable pub install_shared_callback : ℕ → Shared → Shared
install_shared_callback c f =
    if is_ready f.state
    then call c f
    else record f { shared_ready_cb = c ∷ f.shared_ready_cb; installed = c ∷ f.installed }

-- `register_dependant`
unfoldable pub register_dependant : ℕ → Shared → Shared
register_dependant c f =
    if is_ready f.state
    then call c f
    else record f { dependants = f.dependants ++ c ∷ []; installed = c ∷ f.installed }

abbrev pub to_list : Option ℕ → List ℕ
to_list none = []
to_list (some c) = c ∷ []

-- `invoke_ready_cb`: what it calls, in order, once it has taken it out under the mutex.
abbrev pub waiting : Shared → List ℕ
waiting f = to_list f.ready_cb ++ (f.shared_ready_cb ++ f.dependants)

unfoldable pub invoke_ready_cb : Shared → Shared
invoke_ready_cb f = record f {
  ready_cb = none;
  shared_ready_cb = [];
  dependants = [];
  called = waiting f ++ f.called;
  firing = f.firing - 1;
}

-- What any thread may do next.
pub data Step (f : Shared) : Shared → Type 0 where
  sets_value : (v : ℕ) → Step f (set_ready ready_value v f).0
  sets_exc : (e : ℕ) → Step f (set_ready ready_exc e f).0
  invokes : f.firing ≢ 0 → Step f (invoke_ready_cb f)
  clears_deferred : Step f (clear_deferred f).0
  clears_convert : Step f (clear_convert f).0
  marks_convert : {g : Shared} → mark_convert_present f ≡ ok g → Step f g
  installs : (c : ℕ) {g : Shared} → install_callback c f ≡ ok g → Step f g
  installs_shared : (c : ℕ) → Step f (install_shared_callback c f)
  registers : (c : ℕ) → Step f (register_dependant c f)

pub data Reach : Shared → Type 0 where
  here : (deferred : Bool) → Reach (initial deferred)
  next : {f g : Shared} → Reach f → Step f g → Reach g
