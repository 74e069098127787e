-- ===== src/LlList/Pops.antt =====
-- src/ll_list.cc: taking elements out of a list, and `empty`, on a sequence of elements.
use mathlib.Core.Path.{subst}
use ilias_async.Base.{ℕ, suc, ◌≡◌, refl, ap, ◌∙◌, true, false, List, [], ◌∷◌, ◌++◌}
use ilias_async.LlList.Memory.{Memory, returns}
use ilias_async.LlList.Ops.{pred_elem_, pop_front, pop_loop, pop_back, pop_back_loop, empty}
use ilias_async.LlList.Chain.{last, first}
use ilias_async.LlList.Remove.{detach}
use ilias_async.LlList.Places.{
  append-nil, pred_-place, unlink_-place, succ_elem_-place, pred_elem_-place, is_head-element,
}
use ilias_async.LlList.Refine.{Represents, detach-Represents, Yields}

abbrev pub take_front : List ℕ → List ℕ × ℕ
take_front [] = ([], 0)
take_front (x ∷ xs) = (xs, x)

abbrev pub take_back : List ℕ → List ℕ × ℕ
take_back [] = ([], 0)
take_back (x ∷ []) = ([], x)
take_back (x ∷ y ∷ xs) = let (ys, z) = take_back (y ∷ xs) in (x ∷ ys, z)

-- The turn of `pop_front` and of `pop_back` that takes an element out.
pop_loop-place :
    (hd fuel x : ℕ) (h : Memory) (pre post : List ℕ)
    → Represents hd h (pre ++ (x ∷ post))
    → pop_loop (suc fuel) hd x h ≡ returns (detach (last hd pre) x (first post hd) h, x)
unfolding pop_loop
pop_loop-place hd fuel x h pre post r =
    rw (pred_-place hd h fuel pre (x ∷ post) r, unlink_-place hd h fuel pre post x r) refl

pop_back_loop-place :
    (hd fuel x : ℕ) (h : Memory) (pre post : List ℕ)
    → Represents hd h (pre ++ (x ∷ post))
    → pop_back_loop (suc fuel) hd x h ≡ returns (detach (last hd pre) x (first post hd) h, x)
unfolding pop_back_loop
pop_back_loop-place hd fuel x h pre post r =
    rw (pred_-place hd h fuel pre (x ∷ post) r, unlink_-place hd h fuel pre post x r) refl

-- `pop_front` takes the first element out, and `pop_back` the last; on an empty list the result is
-- `nullptr`.
pub pop_front-Represents :
    (hd fuel : ℕ) (h : Memory) (xs : List ℕ)
    → Represents hd h xs
    → Yields (λ k. Represents hd k (take_front xs).0) (take_front xs).1 (pop_front (suc fuel) hd h)
unfolding Yields pop_front
pop_front-Represents hd fuel h [] r =
    rw (succ_elem_-place hd h (suc fuel) [] [] r, r.hd_kind) (refl, r)
pop_front-Represents hd fuel h (x ∷ xs) r =
    rw
      (
        succ_elem_-place hd h (suc fuel) [] (x ∷ xs) r,
        is_head-element hd h [] xs x r,
        pop_loop-place hd fuel x h [] xs r,
      )
      (refl, detach-Represents hd x [] xs h r)

-- A list that is not empty has a last element.
take_back-last :
    (x : ℕ) (xs : List ℕ)
    → (x ∷ xs ≡ (take_back (x ∷ xs)).0 ++ ((take_back (x ∷ xs)).1 ∷ []))
      × (last x xs ≡ (take_back (x ∷ xs)).1)
take_back-last x [] = (refl, refl)
take_back-last x (y ∷ ys) = let (e, l) = take_back-last y ys in (ap (λ r. x ∷ r) e, l)

pub pop_back-Represents :
    (hd fuel : ℕ) (h : Memory) (xs : List ℕ)
    → Represents hd h xs
    → Yields (λ k. Represents hd k (take_back xs).0) (take_back xs).1 (pop_back (suc fuel) hd h)
unfolding Yields pop_back
pop_back-Represents hd fuel h [] r = rw (pred_elem_-place hd h fuel [] r, r.hd_kind) (refl, r)
pop_back-Represents hd fuel h (x ∷ xs) r =
    let pre = (take_back (x ∷ xs)).0 in
    let e = (take_back (x ∷ xs)).1 in
    let (whole, l) = take_back-last x xs in
    let q : Represents hd h (pre ++ (e ∷ [])) = subst (Represents hd h) whole r in
    let at : pred_elem_ (suc fuel) hd h ≡ returns (h, e) =
      pred_elem_-place hd h fuel (x ∷ xs) r ∙ ap (λ c. returns (h, c)) l in
    rw (at, is_head-element hd h pre [] e q, pop_back_loop-place hd fuel e h pre [] q)
      (
        refl,
        subst (Represents hd (detach (last hd pre) e (first [] hd) h)) (append-nil pre)
            (detach-Represents hd e pre [] h q),
      )

-- `empty`
pub empty-Represents :
    (hd fuel : ℕ) (h : Memory) (xs : List ℕ)
    → Represents hd h xs
    → empty fuel hd h ≡ returns (elim xs [ [] ↦ true | (y ∷ ys) ↦ false ])
unfolding empty
empty-Represents hd fuel h [] r = rw (succ_elem_-place hd h fuel [] [] r, r.hd_kind) refl
empty-Represents hd fuel h (x ∷ xs) r =
    rw (succ_elem_-place hd h fuel [] (x ∷ xs) r, is_head-element hd h [] xs x r) refl
