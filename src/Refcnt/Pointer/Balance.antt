-- ===== src/Refcnt/Pointer/Balance.antt =====
-- include/ilias/refcnt.h: counts that agree with the references that there are.
use mathlib.Core.Option.{Option, none, some}
use native.Mathlib.Decide.{ℕ_discrete}
use ilias_async.Base.{
  ℕ, zero, suc, ◌+◌, ◌-◌, ◌<◌, ◌≡◌, ◌≢◌, refl, true, List, [], ◌∷◌, inl, inr, Bool-cases, ◌==◌,
  if◌then◌else◌, arith, length, ap, ◌∙◌,
}
use ilias_async.Refcnt.{Cell, Heap, counted, deleted, refcnt_acquire, refcnt_release, uint}
use ilias_async.Refcnt.Pointer.{get, set, swap_vars, take_out, holds, acquire_ptr, release_ptr}

-- Whether a pointer `p` is a reference to `o`.
abbrev pub one : ℕ → ℕ → ℕ
one o p = if o == p then 1 else 0

abbrev pub occurrences : ℕ → List ℕ → ℕ
occurrences o [] = 0
occurrences o (p ∷ ps) = one o p + occurrences o ps

pub occurrences-le-length : (o : ℕ) (ps : List ℕ) → occurrences o ps < length ps + 1
occurrences-le-length o [] = omega arith
occurrences-le-length o (p ∷ ps) = ground (arith, occurrences-le-length o ps)

pub occurrences-set :
    (o : ℕ) (ps : List ℕ) (i p : ℕ)
    → i < length ps
    → occurrences o (set ps i p) + one o (get ps i) ≡ occurrences o ps + one o p
occurrences-set o [] i p h = absurd (omega arith)
occurrences-set o (q ∷ ps) zero p h = omega arith
occurrences-set o (q ∷ ps) (suc i) p h = omega (arith, occurrences-set o ps i p (omega arith))

pub occurrences-get :
    (o : ℕ) (ps : List ℕ) (i : ℕ) → i < length ps → one o (get ps i) < occurrences o ps + 1
occurrences-get o [] i h = absurd (omega arith)
occurrences-get o (q ∷ ps) zero h = omega arith
occurrences-get o (q ∷ ps) (suc i) h = omega (arith, occurrences-get o ps i (omega arith))

pub occurrences-take_out :
    (o p : ℕ) (ps : List ℕ)
    → holds p ps ≡ true
    → occurrences o (take_out p ps) + one o p ≡ occurrences o ps
occurrences-take_out o p [] h = ground arith
occurrences-take_out o p (q ∷ ps) h = ground (arith, occurrences-take_out o p ps)

pub length-set : (ps : List ℕ) (i p : ℕ) → length (set ps i p) ≡ length ps
length-set [] i p = refl
length-set (q ∷ ps) zero p = refl
length-set (q ∷ ps) (suc i) p = omega (arith, length-set ps i p)

get-set-get : (ps : List ℕ) (i j : ℕ) → get (set ps i (get ps j)) j ≡ get ps j
get-set-get [] i j = refl
get-set-get (q ∷ ps) zero zero = refl
get-set-get (q ∷ ps) zero (suc j) = refl
get-set-get (q ∷ ps) (suc i) zero = refl
get-set-get (q ∷ ps) (suc i) (suc j) = get-set-get ps i j

pub occurrences-swap :
    (o : ℕ) (ps : List ℕ) (i j : ℕ)
    → i < length ps
    → j < length ps
    → occurrences o (swap_vars ps i j) ≡ occurrences o ps
occurrences-swap o ps i j hi hj = omega (
  arith,
  occurrences-set o ps i (get ps j) hi,
  occurrences-set o (set ps i (get ps j)) j (get ps i) (omega (arith, length-set ps i (get ps j))),
  ap (one o) (get-set-get ps i j),
)

pub length-swap : (ps : List ℕ) (i j : ℕ) → length (swap_vars ps i j) ≡ length ps
length-swap ps i j = length-set (set ps i (get ps j)) j (get ps i) ∙ length-set ps i (get ps j)

-- A deleted object counts 0 references.
abbrev pub count_of : Cell → ℕ
count_of (counted c) = c
count_of deleted = 0

-- The count of each object is the number of references to it; so a deleted object has none.
abbrev pub Balanced : (ℕ → ℕ) → Heap → Type 0
Balanced refs h = (o : ℕ) → o ≢ 0 → count_of (h o) ≡ refs o

abbrev pub Leaves : (ℕ → ℕ) → Option Heap → Type 0
Leaves refs none = ⊥
Leaves refs (some h) = Balanced refs h

acquire_cell :
    (p : ℕ) (h : Heap) (refs : ℕ → ℕ) (c : Cell)
    → h p ≡ c
    → p ≢ 0
    → Balanced refs h
    → h p ≢ deleted
    → refs p + 1 < uint
    → Leaves (λ o. refs o + one o p) (refcnt_acquire p 1 h)
unfolding refcnt_acquire ℕ_discrete
acquire_cell p h refs (counted c) e n b live room =
    rw (e, refcnt_acquire) λ o m. ground (arith, b o m, b p n)
acquire_cell p h refs deleted e n b live room = absurd (live e)

pub acquire_ptr-Leaves :
    (p : ℕ) (h : Heap) (refs : ℕ → ℕ)
    → Balanced refs h
    → (p ≢ 0 → h p ≢ deleted)
    → refs p + 1 < uint
    → Leaves (λ o. refs o + one o p) (acquire_ptr p h)
unfolding acquire_ptr
acquire_ptr-Leaves p h refs b live room = elim (Bool-cases (p == 0)) [
  | inl null ↦ rw (null, acquire_ptr) λ o m. ground (arith, b o m)
  | inr set ↦
      let n : p ≢ 0 = ground arith in
      rw (set, acquire_ptr) (acquire_cell p h refs (h p) refl n b (live n) room)
]

release_cell :
    (p : ℕ) (h : Heap) (refs : ℕ → ℕ) (c : Cell)
    → h p ≡ c
    → p ≢ 0
    → Balanced refs h
    → 0 < refs p
    → refs p < uint
    → Leaves (λ o. refs o - one o p) (refcnt_release p 1 h)
unfolding refcnt_release ℕ_discrete
release_cell p h refs (counted c) e n b live room =
    rw (e, refcnt_release) λ o m. ground (arith, b o m, b p n)
release_cell p h refs deleted e n b live room = absurd (ground (arith, b p n))

pub release_ptr-Leaves :
    (p : ℕ) (h : Heap) (refs : ℕ → ℕ)
    → Balanced refs h
    → (p ≢ 0 → 0 < refs p)
    → refs p < uint
    → Leaves (λ o. refs o - one o p) (release_ptr p h)
unfolding release_ptr
release_ptr-Leaves p h refs b live room = elim (Bool-cases (p == 0)) [
  | inl null ↦ rw (null, release_ptr) λ o m. ground (arith, b o m)
  | inr set ↦
      let n : p ≢ 0 = ground arith in
      rw (set, release_ptr) (release_cell p h refs (h p) refl n b (live n) room)
]

pub referenced-exists :
    (p : ℕ) (h : Heap) (refs : ℕ → ℕ) → Balanced refs h → p ≢ 0 → 0 < refs p → h p ≢ deleted
referenced-exists p h refs b n live gone = ground (arith, b p n)

pub length-take_out :
    (p : ℕ) (ps : List ℕ) → holds p ps ≡ true → length (take_out p ps) + 1 ≡ length ps
length-take_out p [] h = ground arith
length-take_out p (q ∷ ps) h = ground (arith, length-take_out p ps)
