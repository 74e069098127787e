-- ===== src/Refcnt/Pointer/Program.antt =====
-- include/ilias/refcnt.h: programs over `refpointer` variables.
use mathlib.Core.Option.{Option, none, some}
use ilias_async.Base.{
  ℕ, ◌+◌, ◌<◌, ◌≡◌, ◌≢◌, refl, Bool, true, false, inl, inr, Bool-cases, List, ◌==◌, arith, length,
  ap, ◌∙◌,
}
use ilias_async.Refcnt.{Heap, deleted, uint}
use ilias_async.Refcnt.Pointer.{
  State, get, set, holds, acquire_ptr, release_ptr, with_heap, reset, reset_copy, reset_move, swap,
  release, adopt, make, compare_exchange, ◌>>=◌,
}
use ilias_async.Refcnt.Pointer.Balance.{length-set, length-swap}
use ilias_async.Refcnt.Pointer.Safety.{
  Owned, Safe, reset-Safe, reset_copy-Safe, reset_move-Safe, swap-Safe, release-Safe, adopt-Safe,
  make-Safe,
}

pub data Command : Type 0 where
  resets : (i : ℕ) → Command
  copies moves swaps : (i j : ℕ) → Command
  releases : (i : ℕ) → Command
  adopts : (i p : ℕ) → Command
  makes : (i o : ℕ) → Command
  compares : (i expect v : ℕ) → Command

abbrev pub forget : Option (State × Bool) → Option State
forget none = none
forget (some (s, b)) = some s

pub perform : Command → State → Option State
unfolding compare_exchange
perform (resets i) s = reset i s
perform (copies i j) s = reset_copy i j s
perform (moves i j) s = reset_move i j s
perform (swaps i j) s = swap i j s
perform (releases i) s = release i s
perform (adopts i p) s = adopt i p s
perform (makes i o) s = make i o s
perform (compares i expect v) s = forget (compare_exchange i expect v s)

-- Variables exist, an adopted pointer has been handed out, a new object has an address of its own,
-- and a pointer is handed out only while an `unsigned int` can count it.
abbrev pub Allowed : Command → State → Type 0
Allowed (resets i) s = i < length s.vars
Allowed (copies i j) s = (i < length s.vars) × (j < length s.vars)
Allowed (moves i j) s = (i < length s.vars) × (j < length s.vars)
Allowed (swaps i j) s = (i < length s.vars) × (j < length s.vars)
Allowed (releases i) s = (i < length s.vars) × (length s.vars + length s.raw + 2 < uint)
Allowed (adopts i p) s = (i < length s.vars) × (holds p s.raw ≡ true)
Allowed (makes i o) s = (i < length s.vars) × (o ≢ 0) × (s.heap o ≡ deleted)
Allowed (compares i expect v) s =
    (i < length s.vars) × (expect < length s.vars) × (v < length s.vars)

with_heap-vars :
    (vars raw : List ℕ) (r : Option Heap) {t : State}
    → with_heap vars raw r ≡ some t
    → t.vars ≡ vars
with_heap-vars vars raw none e = ground arith
with_heap-vars vars raw (some h) e = ground arith

then-Safe :
    (r : Option State) (k : State → Option (State × Bool))
    → Safe r
    → ((t : State) → r ≡ some t → Owned t → Safe (forget (k t)))
    → Safe (forget (r >>= k))
then-Safe none k own next = own
then-Safe (some t) k own next = next t refl own

last-Safe : (r : Option State) (b : Bool) → Safe r → Safe (forget (r >>= λ u. some (u, b)))
last-Safe none b own = own
last-Safe (some t) b own = own

reset_copy-vars :
    (i j : ℕ) (s : State) {t : State}
    → reset_copy i j s ≡ some t
    → t.vars ≡ set s.vars i (get s.vars j)
unfolding reset_copy
reset_copy-vars i j s e = go (acquire_ptr (get s.vars j) s.heap) e
  where
    go :
        (r : Option Heap) {t : State}
        → (r >>= λ h. with_heap (set s.vars i (get s.vars j)) s.raw (release_ptr (get s.vars i) h))
          ≡ some t
        → t.vars ≡ set s.vars i (get s.vars j)
    go none q = ground arith
    go (some h) q = with_heap-vars _ _ _ q

reset_copy-length :
    (i j : ℕ) (s : State) {t : State} → reset_copy i j s ≡ some t → length t.vars ≡ length s.vars
reset_copy-length i j s e = ap length (reset_copy-vars i j s e) ∙ length-set s.vars i _

reset_move-length :
    (i j : ℕ) (s : State) {t : State} → reset_move i j s ≡ some t → length t.vars ≡ length s.vars
unfolding reset_move
reset_move-length i j s e =
    ap length (with_heap-vars _ _ _ e) ∙ length-swap (set s.vars i 0) i j ∙ length-set s.vars i 0

compare_exchange-Safe :
    (i expect v : ℕ) (s : State)
    → Owned s
    → i < length s.vars
    → expect < length s.vars
    → v < length s.vars
    → Safe (forget (compare_exchange i expect v s))
unfolding compare_exchange
compare_exchange-Safe i expect v s own hi he hv =
    elim (Bool-cases (get s.vars i == get s.vars expect)) [
      | inl same ↦
          rw (same, compare_exchange)
            (then-Safe (reset_move i v s) _ (reset_move-Safe s own i v hi hv) (λ t e o.
              last-Safe (reset v t) true
                (reset-Safe t o v (omega (arith, reset_move-length i v s e)))))
      | inr other ↦
          rw (other, compare_exchange)
            (then-Safe (reset_copy expect i s) _ (reset_copy-Safe s own expect i he hi) (λ t e o.
              last-Safe (reset v t) false
                (reset-Safe t o v (omega (arith, reset_copy-length expect i s e)))))
    ]

-- No operation touches a deleted object, and after each the counts are again the numbers of
-- references.
pub perform-Safe : (c : Command) (s : State) → Owned s → Allowed c s → Safe (perform c s)
unfolding perform
perform-Safe (resets i) s own a = reset-Safe s own i a
perform-Safe (copies i j) s own a = reset_copy-Safe s own i j a.0 a.1
perform-Safe (moves i j) s own a = reset_move-Safe s own i j a.0 a.1
perform-Safe (swaps i j) s own a = swap-Safe s own i j a.0 a.1
perform-Safe (releases i) s own a = release-Safe s own i a.0 a.1
perform-Safe (adopts i p) s own a = adopt-Safe s own i p a.0 a.1
perform-Safe (makes i o) s own a = make-Safe s own i o a.0 a.1 a.2
perform-Safe (compares i expect v) s own a = compare_exchange-Safe i expect v s own a.0 a.1 a.2
