-- ===== src/LlList/Iterator/Removes.antt =====
-- include/ilias/ll_list-inl.h: `remove_and_dispose_if`.
use mathlib.Core.Option.{some}
use mathlib.Core.List.{append-nil, append_assoc}
use ilias_async.LlList.Memory.{Run, returns, fails, runs_on}
use ilias_async.Base.{
  ℕ, zero, suc, ◌<◌, ◌≡◌, refl, sym, Bool, true, not, Bool-cases, inl, inr, List, [], ◌∷◌, ◌++◌,
  if◌then◌else◌, length, arith,
}
use ilias_async.LlList.Iterator.{
  on, gap, Ring, rewind, elements, at_spot, begin, forward_to, member, take_out, remove_loop,
  remove_and_dispose_if,
}

-- The elements that a predicate holds of.
abbrev pub filter : (ℕ → Bool) → List ℕ → List ℕ
filter p [] = []
filter p (x ∷ xs) = if p x then x ∷ filter p xs else filter p xs

member-rewind : (x : ℕ) (b a : List ℕ) → member x a ≡ true → member x (rewind b a) ≡ true
member-rewind x [] a h = h
member-rewind x (y ∷ b) a h = member-rewind x b (y ∷ a) (ground (arith, h))

take_out-here :
    (x : ℕ) (b a : List ℕ)
    → take_out x (at_spot b (on x) a) ≡ record { behind = b; spot = gap; ahead = a; ptr = some x }
unfolding take_out
take_out-here x b a = ground arith

-- The list that is left and the elements that were disposed of.
abbrev pub Removes : List ℕ → List ℕ → Run (Ring × List ℕ) → Type 0
Removes kept gone (returns (r, xs)) = (elements r ≡ kept) × (xs ≡ gone)
Removes kept gone fails = ⊥
Removes kept gone runs_on = ⊥

remove_to :
    (fuel : ℕ) (pred : ℕ → Bool) (b a gone : List ℕ)
    → length a < fuel
    → Removes
        (rewind b (filter (λ x. not (pred x)) a))
        (gone ++ filter pred a)
        (remove_loop fuel pred (forward_to b a) gone)
unfolding remove_loop forward_to
remove_to zero pred b a gone h = elim h [ ]
remove_to (suc fuel) pred b [] gone h = (refl, sym (append-nil gone))
remove_to (suc fuel) pred b (x ∷ a) gone h = elim (Bool-cases (pred x)) [
  | inr keep ↦ rw keep (remove_to fuel pred (x ∷ b) a gone (omega (arith, h)))
  | inl go ↦
      rw (go, member-rewind x b (x ∷ a) (ground arith), take_out-here x b a)
        (rw (sym (append_assoc gone (x ∷ []) (filter pred a)))
          (remove_to fuel pred b a (gone ++ (x ∷ [])) (omega (arith, h))))
]

-- `remove_and_dispose_if` ends, with fuel for one round more than there are elements; no assertion
-- fails; the list keeps the elements that the predicate does not hold of, in their order, and the others
-- are disposed of, in theirs.
pub remove_and_dispose_if-filters :
    (fuel : ℕ) (pred : ℕ → Bool) (xs : List ℕ)
    → length xs < fuel
    → Removes (filter (λ x. not (pred x)) xs) (filter pred xs) (remove_and_dispose_if fuel pred xs)
unfolding remove_and_dispose_if remove_loop begin
remove_and_dispose_if-filters zero pred [] h = elim h [ ]
remove_and_dispose_if-filters (suc fuel) pred [] h = (refl, refl)
remove_and_dispose_if-filters fuel pred (x ∷ xs) h = remove_to fuel pred [] (x ∷ xs) [] h
