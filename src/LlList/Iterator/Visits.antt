-- ===== src/LlList/Iterator/Visits.antt =====
-- include/ilias/ll_list-inl.h: what an iterator comes by.
use mathlib.Core.Option.{Option}
use ilias_async.LlList.Memory.{returns}
use ilias_async.Base.{
  ℕ, zero, suc, ◌<◌, ◌≡◌, ◌≢◌, refl, sym, ap, ◌∙◌, List, [], ◌∷◌, ◌++◌, length, arith,
}
use ilias_async.LlList.Iterator.{
  Spot, on, gap, at_head, Ring, rewind, elements, at_spot, spot_onto, spot_ptr, begin, forward_to,
  backward_to, increment, decrement, decrement_from, link_at, visit, visit_loop,
}

-- An iterator around the head has nothing before it.
abbrev pub IsRing : Ring → Type 0
IsRing r = elim r.spot [ at_head ↦ r.behind ≡ [] | on x ↦ Unit {0} | gap ↦ Unit {0} ]

rewind-rewind : (b a : List ℕ) → rewind (rewind b a) [] ≡ rewind a b
rewind-rewind [] a = refl
rewind-rewind (x ∷ b) a = rewind-rewind b (x ∷ a)

forward_to-elements : (b a : List ℕ) → elements (forward_to b a) ≡ rewind b a
unfolding forward_to
forward_to-elements b [] = refl
forward_to-elements b (y ∷ ys) = refl

backward_to-elements : (b a : List ℕ) → elements (backward_to b a) ≡ rewind b a
unfolding backward_to
backward_to-elements [] a = refl
backward_to-elements (y ∷ ys) a = refl

module _ (b a : List ℕ) (p : Option ℕ) where
  abbrev at : Spot → Ring
  at s = record { behind = b; spot = s; ahead = a; ptr = p }

  pub increment-elements :
      (s : Spot) → IsRing (at s) → elements (increment (at s)) ≡ elements (at s)
  unfolding increment
  increment-elements (on x) h = forward_to-elements (x ∷ b) a
  increment-elements gap h = forward_to-elements b a
  increment-elements at_head h = forward_to-elements b a

  decrement-elements : (s : Spot) → IsRing (at s) → elements (decrement (at s)) ≡ elements (at s)
  unfolding decrement decrement_from
  decrement-elements (on x) h = backward_to-elements b (x ∷ a)
  decrement-elements gap h = backward_to-elements b a
  decrement-elements at_head h = rw h (backward_to-elements (rewind a []) [] ∙ rewind-rewind a [])

-- An iterator whose element is in the list, or at the end.
pub record Stands (r : Ring) : Type 0 where
  pub is_ring : IsRing r
  pub has_ptr : r.ptr ≡ spot_ptr r.spot
  pub not_gap : r.spot ≢ gap

from_end : (l : List ℕ) → increment (backward_to l []) ≡ at_spot [] at_head (rewind l [])
unfolding increment forward_to backward_to
from_end [] = refl
from_end (z ∷ l) = refl

back_and_forth :
    (s : Spot) (b a : List ℕ)
    → IsRing (at_spot b s a)
    → s ≢ gap
    → (decrement (increment (at_spot b s a)) ≡ at_spot b s a)
      × (increment (decrement (at_spot b s a)) ≡ at_spot b s a)
unfolding increment forward_to decrement decrement_from backward_to
back_and_forth (on x) [] [] h g = (refl, refl)
back_and_forth (on x) (z ∷ b) [] h g = (rw (rewind-rewind b (z ∷ x ∷ [])), refl)
back_and_forth (on x) [] (y ∷ a) h g = (refl, refl)
back_and_forth (on x) (z ∷ b) (y ∷ a) h g = (refl, refl)
back_and_forth gap b a h g = absurd (g refl)
back_and_forth at_head b [] h g = rw h (refl, refl)
back_and_forth at_head b (y ∷ a) h g =
    rw h (
      refl,
      from_end (rewind a (y ∷ [])) ∙ ap (λ l. at_spot [] at_head l) (rewind-rewind a (y ∷ [])),
    )

-- `++` and `--` undo one another, in both orders, on an iterator whose element is in the list and on
-- one at the end; so they do on the list of one element and on the empty list.
pub increment-decrement :
    (r : Ring) → Stands r → (decrement (increment r) ≡ r) × (increment (decrement r) ≡ r)
increment-decrement r s =
    let same : at_spot r.behind r.spot r.ahead ≡ r =
      ap (λ p. record r { ptr = p }) (sym s.has_ptr) in
    rw (← same) (back_and_forth r.spot r.behind r.ahead s.is_ring s.not_gap)

-- The steps of an iterator.
pub data Move : Type 0 where
  forwards backwards : Move

unfoldable pub moves : List Move → Ring → Ring
unfolding increment decrement
moves [] r = r
moves (forwards ∷ ms) r = moves ms (increment r)
moves (backwards ∷ ms) r = moves ms (decrement r)

forward_to-IsRing : (b a : List ℕ) → IsRing (forward_to b a)
unfolding forward_to
forward_to-IsRing b [] = refl
forward_to-IsRing b (y ∷ ys) = tt

backward_to-IsRing : (b a : List ℕ) → IsRing (backward_to b a)
unfolding backward_to
backward_to-IsRing [] a = refl
backward_to-IsRing (y ∷ ys) a = tt

decrement_from-IsRing : (s : Spot) (r : Ring) → IsRing (decrement_from s r)
unfolding decrement_from
decrement_from-IsRing at_head r = backward_to-IsRing (rewind r.ahead []) []
decrement_from-IsRing (on x) r = backward_to-IsRing r.behind (x ∷ r.ahead)
decrement_from-IsRing gap r = backward_to-IsRing r.behind r.ahead

-- An iterator that is moved leaves the list as it is.
pub moves-elements : (ms : List Move) (r : Ring) → IsRing r → elements (moves ms r) ≡ elements r
unfolding moves
moves-elements [] r h = refl
moves-elements (forwards ∷ ms) r h =
    moves-elements ms (increment r)
      (unfold increment in forward_to-IsRing (spot_onto r.spot r.behind) r.ahead)
    ∙ increment-elements r.behind r.ahead r.ptr r.spot h
moves-elements (backwards ∷ ms) r h =
    moves-elements ms (decrement r) (unfold decrement in decrement_from-IsRing r.spot r)
    ∙ decrement-elements r.behind r.ahead r.ptr r.spot h

visit_to :
    (fuel : ℕ) (b a : List ℕ) → length a < fuel → visit_loop fuel (forward_to b a) ≡ returns a
unfolding visit_loop forward_to
visit_to zero b a h = elim h [ ]
visit_to (suc fuel) b [] h = refl
visit_to (suc fuel) b (x ∷ a) h = rw (visit_to fuel (x ∷ b) a (omega (arith, h)))

-- `visit` ends, with fuel for one round more than there are elements, and gives the functor all
-- elements of the list, in their order.
pub visit-elements : (fuel : ℕ) (xs : List ℕ) → length xs < fuel → visit fuel xs ≡ returns xs
unfolding visit visit_loop begin
visit-elements zero [] h = elim h [ ]
visit-elements (suc fuel) [] h = refl
visit-elements fuel (x ∷ xs) h = visit_to fuel [] (x ∷ xs) h

rewind-append : (b a c : List ℕ) → rewind b a ++ c ≡ rewind b (a ++ c)
rewind-append [] a c = refl
rewind-append (x ∷ b) a c = rewind-append b (x ∷ a) c

link_after_forward :
    (x : ℕ) (b a : List ℕ)
    → elements (link_at (forward_to b a).spot x (forward_to b a)) ≡ rewind b (x ∷ a)
unfolding link_at forward_to
link_after_forward x b [] = rewind-append b [] (x ∷ [])
link_after_forward x b (y ∷ ys) = refl

-- An element that is linked before an iterator that was moved on stands right after where it was.
pub link_at-increment :
    (x : ℕ) (r : Ring)
    → elements (link_at (increment r).spot x (increment r))
      ≡ rewind (spot_onto r.spot r.behind) (x ∷ r.ahead)
unfolding increment
link_at-increment x r = link_after_forward x (spot_onto r.spot r.behind) r.ahead
