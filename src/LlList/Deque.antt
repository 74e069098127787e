-- ===== src/LlList/Deque.antt =====
-- src/ll_list.cc: the operations of `list` on a sequence of elements.
use mathlib.Core.Path.{subst}
use ilias_async.Base.{
  ℕ, suc, ◌≡◌, ◌≢◌, refl, sym, Bool, true, false, List, [], ◌∷◌, ◌++◌, if◌then◌else◌, inl, inr,
  Bool-cases,
}
use ilias_async.LlList.Memory.{Memory, p_plain, returns}
use ilias_async.LlList.Link.{xlink_ok, xlink_twice, link_, link_after_, link_before_}
use ilias_async.LlList.Ops.{link_front, link_back}
use ilias_async.LlList.Chain.{mem, last, first, split-succ, split-pred}
use ilias_async.LlList.Insert.{IsFree, splice, link_-splice}
use ilias_async.LlList.Remove.{nonzero}
use ilias_async.LlList.Places.{append-nil, Chain-pred, pred_-place, succ_-place}
use ilias_async.LlList.Refine.{
  Represents, Distinct-left, splice-Represents, first-nonzero, last-nonzero, not-first, not-last,
  Yields,
}

-- The sequence after an operation, and its result.
abbrev pub insert_front : ℕ → List ℕ → List ℕ × Bool
insert_front x xs = if mem x xs then (xs, false) else (x ∷ xs, true)

abbrev pub insert_back : ℕ → List ℕ → List ℕ × Bool
insert_back x xs = if mem x xs then (xs, false) else (xs ++ (x ∷ []), true)

link_-twice :
    (fuel a x b c : ℕ) (h : Memory)
    → (h x).linking ≡ false
    → (h x).pred ≡ p_plain c
    → c ≢ 0
    → link_ fuel a x b h ≡ returns (h, xlink_twice)
unfolding link_
link_-twice fuel a x b c h l e n = rw (l, e, nonzero c n) refl

module _ (hd : ℕ) (h : Memory) where
  unlinked-IsFree :
      (x : ℕ) (xs : List ℕ) → x ≢ hd → mem x xs ≡ false → Represents hd h xs → IsFree h x
  unlinked-IsFree x xs n m r =
      let (s, p) = r.unlinked x n m in
      record { succ_free = s; pred_free = p; not_linking = r.no_lock x }

  link_-place :
      (fuel x : ℕ) (pre post : List ℕ)
      → x ≢ hd
      → mem x (pre ++ post) ≡ false
      → Represents hd h (pre ++ post)
      → link_ fuel (last hd pre) x (first post hd) h
        ≡ returns (splice (last hd pre) x (first post hd) h, xlink_ok)
  link_-place fuel x pre post nh m r =
      link_-splice fuel (last hd pre) x (first post hd) h (unlinked-IsFree x (pre ++ post) nh m r)
        (not-last x hd pre post m nh) (not-first x hd pre post m nh)
        (split-succ h hd pre post hd r.chain) (split-pred h hd pre post hd r.chain)

  link_-old :
      (fuel a x b : ℕ) (xs : List ℕ)
      → mem x xs ≡ true
      → Represents hd h xs
      → link_ fuel a x b h ≡ returns (h, xlink_twice)
  link_-old fuel a x b xs m r =
      let (c, e, n) = Chain-pred h hd xs hd x r.hd_nonzero r.distinct m r.chain in
      link_-twice fuel a x b c h (r.no_lock x) e n

  link_front-new :
      (fuel x : ℕ) (xs : List ℕ)
      → x ≢ hd
      → mem x xs ≡ false
      → Represents hd h xs
      → link_front (suc fuel) hd x h ≡ returns (splice hd x (first xs hd) h, true)
  unfolding link_front link_after_
  link_front-new fuel x xs nh m r =
      rw
        (
          succ_-place hd h (suc fuel) [] xs r,
          nonzero (first xs hd) (first-nonzero xs hd r.hd_nonzero r.distinct),
          link_-place (suc fuel) x [] xs nh m r,
        )
        refl

  link_front-old :
      (fuel x : ℕ) (xs : List ℕ)
      → mem x xs ≡ true
      → Represents hd h xs
      → link_front (suc fuel) hd x h ≡ returns (h, false)
  unfolding link_front link_after_
  link_front-old fuel x xs m r =
      rw
        (
          succ_-place hd h (suc fuel) [] xs r,
          nonzero (first xs hd) (first-nonzero xs hd r.hd_nonzero r.distinct),
          link_-old (suc fuel) hd x (first xs hd) xs m r,
        )
        refl

  link_back-new :
      (fuel x : ℕ) (xs : List ℕ)
      → x ≢ hd
      → mem x (xs ++ []) ≡ false
      → Represents hd h (xs ++ [])
      → link_back (suc fuel) hd x h ≡ returns (splice (last hd xs) x hd h, true)
  unfolding link_back link_before_
  link_back-new fuel x xs nh m r =
      rw
        (
          pred_-place hd h fuel xs [] r,
          nonzero (last hd xs) (last-nonzero hd xs r.hd_nonzero (Distinct-left xs [] r.distinct)),
          link_-place (suc fuel) x xs [] nh m r,
        )
        refl

  link_back-old :
      (fuel x : ℕ) (xs : List ℕ)
      → mem x (xs ++ []) ≡ true
      → Represents hd h (xs ++ [])
      → link_back (suc fuel) hd x h ≡ returns (h, false)
  unfolding link_back link_before_
  link_back-old fuel x xs m r =
      rw
        (
          pred_-place hd h fuel xs [] r,
          nonzero (last hd xs) (last-nonzero hd xs r.hd_nonzero (Distinct-left xs [] r.distinct)),
          link_-old (suc fuel) (last hd xs) x hd (xs ++ []) m r,
        )
        refl

-- `link_front` and `link_back` insert an element that is not linked, and refuse any other.
pub link_front-Represents :
    (hd fuel x : ℕ) (h : Memory) (xs : List ℕ)
    → x ≢ 0
    → x ≢ hd
    → Represents hd h xs
    → Yields
        (λ k. Represents hd k (insert_front x xs).0)
        (insert_front x xs).1
        (link_front (suc fuel) hd x h)
unfolding Yields
link_front-Represents hd fuel x h xs nz nh r = elim (Bool-cases (mem x xs)) [
  | inl m ↦ rw (m, link_front-old hd h fuel x xs m r) (refl, r)
  | inr m ↦
      rw (m, link_front-new hd h fuel x xs nh m r) (refl, splice-Represents hd x [] xs h nz nh m r)
]

pub link_back-Represents :
    (hd fuel x : ℕ) (h : Memory) (xs : List ℕ)
    → x ≢ 0
    → x ≢ hd
    → Represents hd h xs
    → Yields
        (λ k. Represents hd k (insert_back x xs).0)
        (insert_back x xs).1
        (link_back (suc fuel) hd x h)
unfolding Yields
link_back-Represents hd fuel x h xs nz nh r =
    let same = sym (append-nil xs) in
    let q : Represents hd h (xs ++ []) = subst (Represents hd h) same r in
    elim (Bool-cases (mem x xs)) [
      | inl m ↦
          rw (m, link_back-old hd h fuel x xs (subst (λ l. mem x l ≡ true) same m) q) (refl, r)
      | inr m ↦
          let out = subst (λ l. mem x l ≡ false) same m in
          rw (m, link_back-new hd h fuel x xs nh out q)
            (refl, splice-Represents hd x xs [] h nz nh out q)
    ]
