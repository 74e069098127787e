-- ===== src/LlList/Whole.antt =====
-- src/ll_list.cc: the constructor and the destructor of `list`, and `size`.
use mathlib.Core.Path.{subst}
use ilias_async.Base.{
  ℕ, zero, suc, ◌+◌, ◌<◌, ◌≡◌, ◌≢◌, refl, sym, ap, ◌∙◌, true, false, not, List, [], ◌∷◌, ◌++◌, ◌==◌,
  if◌then◌else◌, arith, length, word, inc,
}
use ilias_async.LlList.Memory.{
  ElemType, head, element, Elem, Memory, s_plain, p_plain, put_succ, put_pred, Run, returns,
  runs_on, ◌>>=◌, check,
}
use ilias_async.LlList.Ops.{succ_elem_, is_head, empty}
use ilias_async.LlList.Walk.{succ_}
use ilias_async.LlList.Pred.{pred_}
use ilias_async.LlList.Chain.{Distinct, last, first}
use ilias_async.LlList.Remove.{nonzero}
use ilias_async.LlList.Refine.{Represents}
use ilias_async.LlList.Places.{succ_-place, pred_-place, succ_elem_-place, is_head-element}
use ilias_async.LlList.Pops.{empty-Represents}

-- `elem::elem`
abbrev pub new_elem : ElemType → Elem
new_elem k = record { succ = s_plain 0; pred = p_plain 0; kind = k; linking = false }

-- `list::list`, among elements that are not linked.
unfoldable pub new_list : ℕ → Memory
new_list hd =
    put_pred hd (p_plain hd)
      (put_succ hd (s_plain hd) (λ e. if e == hd then new_elem head else new_elem element))

pub new_list-Represents : (hd : ℕ) → hd ≢ 0 → Represents hd (new_list hd) []
unfolding new_list
new_list-Represents hd n = record {
  hd_nonzero = n;
  distinct = tt;
  hd_out = refl;
  chain = (ground arith, ground arith);
  unlinked = λ e m k. (ground arith, ground arith);
  no_lock = λ e. ground arith;
  hd_kind = ground arith;
  kinds = λ e m. ground arith;
}

-- `list::~list`; the loop that waits is its test.
unfoldable pub delete_list : ℕ → ℕ → Memory → Run Memory
unfolding empty succ_ pred_
delete_list fuel hd h = empty fuel hd h >>= λ b. check b (
    succ_ fuel hd h >>= λ (g, s).
    if not (s == hd)
    then runs_on
    else pred_ fuel hd g >>= λ (k, p).
        check (p == hd) (returns (put_pred hd (p_plain 0) (put_succ hd (s_plain 0) k))))

pub delete_list-empty :
    (fuel hd : ℕ) (h : Memory)
    → Represents hd h []
    → delete_list (suc fuel) hd h ≡ returns (put_pred hd (p_plain 0) (put_succ hd (s_plain 0) h))
unfolding delete_list
delete_list-empty fuel hd h r =
    let same : (hd == hd) ≡ true = ground arith in
    rw
      (
        empty-Represents hd (suc fuel) h [] r,
        succ_-place hd h (suc fuel) [] [] r,
        same,
        pred_-place hd h fuel [] [] r,
        same,
      )
      refl

-- The loops of `list::size`, with their variables `i` and `sz`.
unfoldable pub size_loop : ℕ → ℕ → ℕ → ℕ → Memory → Run (Memory × ℕ)
unfolding succ_elem_
size_loop zero hd i sz h = runs_on
size_loop (suc fuel) hd i sz h = elim (i == 0) [
  | true ↦ succ_elem_ fuel hd h >>= λ (g, j). size_loop fuel hd j 0 g
  | false ↦ elim (is_head (h i).kind) [
    | true ↦ returns (h, sz)
    | false ↦ succ_elem_ fuel i h >>= λ (g, j). size_loop fuel hd j (inc sz) g
  ]
]

-- `list::size`
unfoldable pub size : ℕ → ℕ → Memory → Run (Memory × ℕ)
unfolding succ_elem_ size_loop
size fuel hd h = succ_elem_ fuel hd h >>= λ (g, i). size_loop fuel hd i 0 g

last-snoc : (s x : ℕ) (pre : List ℕ) → last s (pre ++ (x ∷ [])) ≡ x
last-snoc s x [] = refl
last-snoc s x (p ∷ ps) = last-snoc p x ps

append-snoc : (x : ℕ) (pre post : List ℕ) → (pre ++ (x ∷ [])) ++ post ≡ pre ++ (x ∷ post)
append-snoc x [] post = refl
append-snoc x (p ∷ ps) post = ap (λ r. p ∷ r) (append-snoc x ps post)

module _ (hd : ℕ) (h : Memory) where
  move_place :
      (pre post : List ℕ) (x : ℕ)
      → Represents hd h (pre ++ (x ∷ post))
      → Represents hd h ((pre ++ (x ∷ [])) ++ post)
  move_place pre post x r = subst (Represents hd h) (sym (append-snoc x pre post)) r

  succ_elem_-next :
      (fuel : ℕ) (pre post : List ℕ) (x : ℕ)
      → Represents hd h (pre ++ (x ∷ post))
      → succ_elem_ fuel x h ≡ returns (h, first post hd)
  succ_elem_-next fuel pre post x r =
      subst (λ e. succ_elem_ fuel e h ≡ returns (h, first post hd)) (last-snoc hd x pre)
        (succ_elem_-place hd h fuel (pre ++ (x ∷ [])) post (move_place pre post x r))

  size_loop-length :
      (fuel : ℕ) (pre post : List ℕ) (sz : ℕ)
      → Represents hd h (pre ++ post)
      → sz + length post < word
      → length post < fuel
      → size_loop fuel hd (first post hd) sz h ≡ returns (h, sz + length post)
  unfolding size_loop
  size_loop-length zero pre post sz r b f = absurd (omega (arith, f))
  size_loop-length (suc fuel) pre [] sz r b f =
      let done : sz ≡ sz + 0 = omega arith in
      rw (nonzero hd r.hd_nonzero, r.hd_kind, size_loop) (ap (λ n. returns (h, n)) done)
  size_loop-length (suc fuel) pre (x ∷ xs) sz r b f =
      let counted : inc sz ≡ sz + 1 = ground (arith, b) in
      let more : (sz + 1) + length xs ≡ sz + suc (length xs) = omega arith in
      let nx : x ≢ 0 = λ e. absurd (first-nonzero-at pre xs x r.distinct e) in
      rw
        (
          nonzero x nx,
          is_head-element hd h pre xs x r,
          succ_elem_-next fuel pre xs x r,
          counted,
          size_loop-length fuel (pre ++ (x ∷ [])) xs (sz + 1) (move_place pre xs x r)
              (omega (arith, b)) (omega (arith, f)),
          more,
          size_loop,
        )
        refl
    where
      first-nonzero-at : (pre post : List ℕ) (x : ℕ) → Distinct (pre ++ (x ∷ post)) → x ≢ 0
      first-nonzero-at [] post x d = d.0
      first-nonzero-at (p ∷ ps) post x d = first-nonzero-at ps post x d.2

  -- `size` counts the elements.
  pub size-length :
      (fuel : ℕ) (xs : List ℕ)
      → Represents hd h xs
      → length xs < word
      → length xs < fuel
      → size fuel hd h ≡ returns (h, length xs)
  unfolding size
  size-length fuel xs r b f =
      let none : 0 + length xs ≡ length xs = omega arith in
      rw (succ_elem_-place hd h fuel [] xs r)
        (size_loop-length fuel [] xs 0 r (omega (arith, b)) f ∙ ap (λ n. returns (h, n)) none)
