-- ===== src/LlList/Places.antt =====
-- src/ll_list.cc: what the functions find at a place of a list that no thread changes.
use mathlib.Core.Path.{subst}
use native.Mathlib.Decide.{ℕ_discrete}
use ilias_async.Base.{
  ℕ, zero, suc, ◌≡◌, ◌≢◌, refl, sym, ap, true, false, List, [], ◌∷◌, ◌++◌, arith,
}
use ilias_async.LlList.Memory.{Memory, s_plain, p_plain, returns}
use ilias_async.LlList.Ops.{
  succ_elem_, succ_elem_loop, pred_elem_, pred_elem_loop, is_head, is_iterator,
}
use ilias_async.LlList.Walk.{succ_}
use ilias_async.LlList.Pred.{pred_}
use ilias_async.LlList.Link.{unlink_, unlink_ok}
use ilias_async.LlList.Chain.{
  mem, Distinct, Chain, last, first, split-succ, split-pred, mem-append, mem-last,
}
use ilias_async.LlList.Remove.{succ_-plain, pred_-plain, detach, unlink_-detach}
use ilias_async.LlList.Refine.{
  Represents, Distinct-remove, Distinct-right, Distinct-left, mem-insert, first-nonzero,
  last-nonzero, not-first, not-last,
}

pub append-nil : (xs : List ℕ) → xs ++ [] ≡ xs
append-nil [] = refl
append-nil (x ∷ xs) = ap (λ r. x ∷ r) (append-nil xs)

-- The predecessor of a linked element is not `nullptr`.
pub Chain-pred :
    (h : Memory) (s : ℕ) (xs : List ℕ) (z e : ℕ)
    → s ≢ 0
    → Distinct xs
    → mem e xs ≡ true
    → Chain h s xs z
    → (c : ℕ) × ((h e).pred ≡ p_plain c) × (c ≢ 0)
Chain-pred h s [] z e n d m c = absurd (cc m)
Chain-pred h s (x ∷ xs) z e n d m c = elim (ℕ_discrete e x) [
  | yes q ↦ (s, rw q c.1, n)
  | no k ↦ Chain-pred h x xs z e d.0 d.2 (ground (arith, m, k)) c.2
]

-- The links on the right of an element.
pub Chain-next :
    (h : Memory) (s : ℕ) (pre post : List ℕ) (x z : ℕ)
    → Chain h s (pre ++ (x ∷ post)) z
    → ((h x).succ ≡ s_plain (first post z)) × ((h (first post z)).pred ≡ p_plain x)
Chain-next h s [] post x z c = (split-succ h x [] post z c.2, split-pred h x [] post z c.2)
Chain-next h s (p ∷ ps) post x z c = Chain-next h p ps post x z c.2

module _ (hd : ℕ) (h : Memory) where
  place-pred :
      (pre post : List ℕ)
      → Represents hd h (pre ++ post)
      → (c : ℕ) × ((h (last hd pre)).pred ≡ p_plain c) × (c ≢ 0)
  place-pred [] post r = (
    last hd post,
    split-pred h hd post [] hd (subst (λ l. Chain h hd l hd) (sym (append-nil post)) r.chain),
    last-nonzero hd post r.hd_nonzero r.distinct,
  )
  place-pred (p ∷ ps) post r =
      Chain-pred h hd ((p ∷ ps) ++ post) hd (last p ps) r.hd_nonzero r.distinct
        (ground (arith, mem-last p ps, mem-append (last p ps) (p ∷ ps) post)) r.chain

  pub pred_-place :
      (fuel : ℕ) (pre post : List ℕ)
      → Represents hd h (pre ++ post)
      → pred_ (suc fuel) (first post hd) h ≡ returns (h, last hd pre)
  pred_-place fuel pre post r =
      let (c, e, n) = place-pred pre post r in
      pred_-plain fuel (first post hd) (last hd pre) c h
        (first-nonzero post hd r.hd_nonzero (Distinct-right pre post r.distinct))
        (last-nonzero hd pre r.hd_nonzero (Distinct-left pre post r.distinct)) n
        (split-pred h hd pre post hd r.chain) (split-succ h hd pre post hd r.chain) e

  pub succ_-place :
      (fuel : ℕ) (pre post : List ℕ)
      → Represents hd h (pre ++ post)
      → succ_ fuel (last hd pre) h ≡ returns (h, first post hd)
  succ_-place fuel pre post r =
      succ_-plain fuel (last hd pre) (first post hd) h (split-succ h hd pre post hd r.chain)

  pub unlink_-place :
      (fuel : ℕ) (pre post : List ℕ) (x : ℕ)
      → Represents hd h (pre ++ (x ∷ post))
      → unlink_ (suc fuel) (last hd pre) x h
        ≡ returns (detach (last hd pre) x (first post hd) h, unlink_ok)
  unlink_-place fuel pre post x r =
      let gone = Distinct-remove pre post x r.distinct in
      let nh : x ≢ hd = λ e. absurd (ground (arith, e, r.hd_out, mem-insert hd x pre post)) in
      let (on, back) = Chain-next h hd pre post x hd r.chain in
      unlink_-detach fuel (last hd pre) x (first post hd) h (not-last x hd pre post gone.0 nh)
        (not-first x hd pre post gone.0 nh)
        (last-nonzero hd pre r.hd_nonzero (Distinct-left pre post gone.1))
        (first-nonzero post hd r.hd_nonzero (Distinct-right pre post gone.1))
        (split-succ h hd pre (x ∷ post) hd r.chain) (split-pred h hd pre (x ∷ post) hd r.chain) on
        back

  no_iterators : (xs : List ℕ) → Represents hd h xs → (e : ℕ) → is_iterator (h e).kind ≡ false
  no_iterators xs r e = elim (ℕ_discrete e hd) [
    | yes q ↦ rw (q, r.hd_kind) refl
    | no n ↦ rw (r.kinds e n) refl
  ]

  pub succ_elem_-place :
      (fuel : ℕ) (pre post : List ℕ)
      → Represents hd h (pre ++ post)
      → succ_elem_ fuel (last hd pre) h ≡ returns (h, first post hd)
  unfolding succ_elem_ succ_elem_loop
  succ_elem_-place zero pre post r =
      rw (succ_-place zero pre post r, no_iterators (pre ++ post) r (first post hd)) (ground arith)
  succ_elem_-place (suc fuel) pre post r =
      rw (succ_-place (suc fuel) pre post r, no_iterators (pre ++ post) r (first post hd))
        (ground arith)

  pub pred_elem_-place :
      (fuel : ℕ) (xs : List ℕ)
      → Represents hd h xs
      → pred_elem_ (suc fuel) hd h ≡ returns (h, last hd xs)
  unfolding pred_elem_ pred_elem_loop
  pred_elem_-place fuel xs r =
      rw
        (
          pred_-place fuel xs [] (subst (Represents hd h) (sym (append-nil xs)) r),
          no_iterators xs r (last hd xs),
        )
        (ground arith)

  pub is_head-element :
      (pre post : List ℕ) (x : ℕ) → Represents hd h (pre ++ (x ∷ post)) → is_head (h x).kind ≡ false
  is_head-element pre post x r =
      rw (r.kinds x (λ e. absurd (ground (arith, e, r.hd_out, mem-insert hd x pre post)))) refl
