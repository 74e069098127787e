-- ===== src/Refcnt/Pointer.antt =====
-- include/ilias/refcnt.h: `refpointer` and its atomic operations, on the pointer variables of a
-- program.
pub mod Balance
pub mod Safety
pub mod Program
use mathlib.Core.Option.{Option, none, some}
use ilias_async.Base.{
  ℕ, zero, suc, ◌+◌, Bool, true, false, List, [], ◌∷◌, ◌==◌, ◌&&◌, not, if◌then◌else◌,
}
use ilias_async.Refcnt.{Heap, update, counted, refcnt_acquire, refcnt_release}

-- Each variable's `m_ptr`; the pointers that `release()` has handed out with the reference that they
-- stand for; the objects.
pub record State : Type 0 where
  pub vars : List ℕ
  pub raw : List ℕ
  pub heap : Heap

abbrev pub get : List ℕ → ℕ → ℕ
get [] i = 0
get (p ∷ ps) zero = p
get (p ∷ ps) (suc i) = get ps i

abbrev pub set : List ℕ → ℕ → ℕ → List ℕ
set [] i p = []
set (q ∷ ps) zero p = p ∷ ps
set (q ∷ ps) (suc i) p = q ∷ set ps i p

-- The first occurrence is taken out.
abbrev pub take_out : ℕ → List ℕ → List ℕ
take_out p [] = []
take_out p (q ∷ ps) = if p == q then ps else q ∷ take_out p ps

abbrev pub holds : ℕ → List ℕ → Bool
holds p [] = false
holds p (q ∷ ps) = if p == q then true else holds p ps

-- `if (p) AcqRel::acquire(*p, 1U)` and `if (p) AcqRel::release(*p, 1U)`.
pub acquire_ptr : ℕ → Heap → Option Heap
unfolding refcnt_acquire
acquire_ptr p h = if p == 0 then some h else refcnt_acquire p 1 h

pub release_ptr : ℕ → Heap → Option Heap
unfolding refcnt_release
release_ptr p h = if p == 0 then some h else refcnt_release p 1 h

abbrev pub with_heap : List ℕ → List ℕ → Option Heap → Option State
with_heap vars raw none = none
with_heap vars raw (some h) = some (record { vars = vars; raw = raw; heap = h })

infixl 5 ◌>>=◌
abbrev pub ◌>>=◌ {ℓ κ} : {A : Type ℓ} {B : Type κ} → Option A → (A → Option B) → Option B
none >>= f = none
some a >>= f = f a

-- `reset()`, and the destructor.
pub reset : ℕ → State → Option State
reset i s = with_heap (set s.vars i 0) s.raw (release_ptr (get s.vars i) s.heap)

-- `reset(const refpointer&)`, copy assignment and, on a fresh variable, the copy constructor and
-- `atomic_load`.
pub reset_copy : ℕ → ℕ → State → Option State
reset_copy i j s = do
  h ← acquire_ptr (get s.vars j) s.heap
  with_heap (set s.vars i (get s.vars j)) s.raw (release_ptr (get s.vars i) h)

abbrev pub swap_vars : List ℕ → ℕ → ℕ → List ℕ
swap_vars vs i j = set (set vs i (get vs j)) j (get vs i)

-- `reset(refpointer&&)`, move assignment and `atomic_store`.
pub reset_move : ℕ → ℕ → State → Option State
reset_move i j s =
    with_heap (swap_vars (set s.vars i 0) i j) s.raw (release_ptr (get s.vars i) s.heap)

-- `swap`, and `atomic_exchange`, which returns its argument `v` after the exchange.
pub swap : ℕ → ℕ → State → Option State
swap i j s = some (record s { vars = swap_vars s.vars i j })

-- `release()`: the pointer leaves the variable with its reference.
pub release : ℕ → State → Option State
release i s = some (record s { vars = set s.vars i 0; raw = get s.vars i ∷ s.raw })

-- `reset(p, false)` takes over the reference of a pointer that `release()` has handed out.
pub adopt : ℕ → ℕ → State → Option State
adopt i p s = with_heap (set s.vars i p) (take_out p s.raw) (release_ptr (get s.vars i) s.heap)

-- `new Type(…)` at the address `o`, and `reset(p, true)`: `make_refpointer` on a fresh variable.
pub make : ℕ → ℕ → State → Option State
make i o s = do
  h ← acquire_ptr o (update s.heap o (counted 0))
  with_heap (set s.vars i o) s.raw (release_ptr (get s.vars i) h)

-- `atomic_compare_exchange_strong`, the destruction of its argument `v` included.
pub compare_exchange : ℕ → ℕ → ℕ → State → Option (State × Bool)
unfolding reset reset_move reset_copy
compare_exchange i expect v s =
    if get s.vars i == get s.vars expect
    then (reset_move i v s >>= λ t. reset v t >>= λ u. some (u, true))
    else (reset_copy expect i s >>= λ t. reset v t >>= λ u. some (u, false))
