-- ===== src/LlList/Chain.antt =====
-- src/ll_list.cc: the sequence that the elements of a list form, linked in both directions.
use ilias_async.Base.{
  ℕ, ◌≡◌, ◌≢◌, refl, sym, ap, ◌∙◌, Bool, true, false, List, [], ◌∷◌, ◌++◌, ◌==◌, if◌then◌else◌,
  arith,
}
use ilias_async.LlList.Memory.{Memory, s_plain, p_plain}

abbrev pub mem : ℕ → List ℕ → Bool
mem e [] = false
mem e (x ∷ xs) = if e == x then true else mem e xs

-- All different, and no `nullptr`.
abbrev pub Distinct : List ℕ → Type 0
Distinct [] = Unit
Distinct (x ∷ xs) = (x ≢ 0) × (mem x xs ≡ false) × Distinct xs

-- The elements `xs` lie between `a` and `z`.
abbrev pub Chain : Memory → ℕ → List ℕ → ℕ → Type 0
Chain h a [] z = ((h a).succ ≡ s_plain z) × ((h z).pred ≡ p_plain a)
Chain h a (x ∷ xs) z = ((h a).succ ≡ s_plain x) × ((h x).pred ≡ p_plain a) × Chain h x xs z

abbrev pub last : ℕ → List ℕ → ℕ
last s [] = s
last s (x ∷ xs) = last x xs

abbrev pub first : List ℕ → ℕ → ℕ
first [] z = z
first (x ∷ xs) z = x

pub mem-append : (e : ℕ) (xs ys : List ℕ) → mem e (xs ++ ys) ≡ (if mem e xs then true else mem e ys)
mem-append e [] ys = refl
mem-append e (x ∷ xs) ys = ground (arith, mem-append e xs ys)

pub mem-last : (s : ℕ) (xs : List ℕ) → mem (last s xs) (s ∷ xs) ≡ true
mem-last s [] = ground arith
mem-last s (x ∷ xs) = ground (arith, mem-last x xs)

pub ne-mem : (a b : ℕ) (xs : List ℕ) → mem a xs ≡ true → mem b xs ≡ false → a ≢ b
ne-mem a b xs ha hb e = absurd (cc (sym (ap (λ c. mem c xs) e ∙ hb) ∙ ha))

module _ (h k : Memory) where
  pub Chain-frame :
      (a : ℕ) (xs : List ℕ) (z : ℕ)
      → ((e : ℕ) → mem e (a ∷ xs) ≡ true → (k e).succ ≡ (h e).succ)
      → ((e : ℕ) → mem e xs ≡ true → (k e).pred ≡ (h e).pred)
      → (k z).pred ≡ (h z).pred
      → Chain h a xs z
      → Chain k a xs z
  Chain-frame a [] z hs hp hz c = (hs a (ground arith) ∙ c.0, hz ∙ c.1)
  Chain-frame a (x ∷ xs) z hs hp hz c = (
    hs a (ground arith) ∙ c.0,
    hp x (ground arith) ∙ c.1,
    Chain-frame x xs z (λ e m. hs e (ground (arith, m))) (λ e m. hp e (ground (arith, m))) hz c.2,
  )

-- A memory in which the neighbours of `a` and `b` are new, and those of `x` are `a` and `b`.
pub record Spliced (h k : Memory) (a x b : ℕ) : Type 0 where
  pub after : (k a).succ ≡ s_plain x
  pub back : (k x).pred ≡ p_plain a
  pub on : (k x).succ ≡ s_plain b
  pub before : (k b).pred ≡ p_plain x
  pub succ_same : (e : ℕ) → e ≢ a → e ≢ x → (k e).succ ≡ (h e).succ
  pub pred_same : (e : ℕ) → e ≢ b → e ≢ x → (k e).pred ≡ (h e).pred

-- A memory in which `a` and `b` are neighbours.
pub record Closed (h k : Memory) (a x b : ℕ) : Type 0 where
  pub after : (k a).succ ≡ s_plain b
  pub before : (k b).pred ≡ p_plain a
  pub succ_same : (e : ℕ) → e ≢ a → e ≢ x → (k e).succ ≡ (h e).succ
  pub pred_same : (e : ℕ) → e ≢ b → e ≢ x → (k e).pred ≡ (h e).pred

first-other :
    (p : ℕ) (ps post : List ℕ) (z : ℕ) → mem p (ps ++ post) ≡ false → p ≢ z → p ≢ first post z
first-other p ps [] z hp hz = hz
first-other p ps (y ∷ ys) z hp hz = λ e. absurd (ground (arith, mem-append p ps (y ∷ ys), e))

last-other : (s p : ℕ) (ps post : List ℕ) → mem s (p ∷ (ps ++ post)) ≡ false → s ≢ last p ps
last-other s p ps post hs e =
    absurd (ground (arith, mem-append s ps post, mem-last p ps, ap (λ c. mem c (p ∷ ps)) e))

module _ (h k : Memory) (x z : ℕ) where
  after-Chain :
      (s : ℕ) (post : List ℕ)
      → Spliced h k s x (first post z)
      → Distinct post
      → mem x post ≡ false
      → mem s post ≡ false
      → mem z post ≡ false
      → x ≢ z
      → Chain h s post z
      → Chain k s (x ∷ post) z
  after-Chain s [] sp d hx hs hz nz c = (sp.after, sp.back, (sp.on, sp.before))
  after-Chain s (y ∷ ys) sp d hx hs hz nz c = (
    sp.after,
    sp.back,
    (
      sp.on,
      sp.before,
      Chain-frame h k y ys z
          (λ e m. sp.succ_same e (ne-mem e s (y ∷ ys) m hs) (ne-mem e x (y ∷ ys) m hx))
          (λ e m. sp.pred_same e (ne-mem e y ys m d.1) (ne-mem e x (y ∷ ys) (ground (arith, m)) hx))
          (sp.pred_same z (λ e. absurd (ground (arith, e, hz))) (λ e. nz (sym e))) c.2,
    ),
  )

  pub insert-Chain :
      (s : ℕ) (pre post : List ℕ)
      → Spliced h k (last s pre) x (first post z)
      → Distinct (pre ++ post)
      → mem x (pre ++ post) ≡ false
      → mem s (pre ++ post) ≡ false
      → mem z (pre ++ post) ≡ false
      → x ≢ s
      → x ≢ z
      → Chain h s (pre ++ post) z
      → Chain k s (pre ++ (x ∷ post)) z
  insert-Chain s [] post sp d hx hs hz ns nz c = after-Chain s post sp d hx hs hz nz c
  insert-Chain s (p ∷ ps) post sp d hx hs hz ns nz c = (
    sp.succ_same s (last-other s p ps post hs) (λ e. ns (sym e)) ∙ c.0,
    sp.pred_same p (first-other p ps post z d.1 (λ e. absurd (ground (arith, e, hz))))
          (λ e. absurd (ground (arith, e, hx)))
        ∙ c.1,
    insert-Chain p ps post sp d.2 (ground (arith, hx)) d.1 (ground (arith, hz))
        (λ e. absurd (ground (arith, e, hx))) nz c.2,
  )

  close-Chain :
      (s : ℕ) (post : List ℕ)
      → Closed h k s x (first post z)
      → Distinct (x ∷ post)
      → mem s (x ∷ post) ≡ false
      → mem z (x ∷ post) ≡ false
      → Chain h s (x ∷ post) z
      → Chain k s post z
  close-Chain s [] cl d hs hz c = (cl.after, cl.before)
  close-Chain s (y ∷ ys) cl d hs hz c = (
    cl.after,
    cl.before,
    Chain-frame h k y ys z
        (λ e m.
          cl.succ_same e (ne-mem e s (y ∷ ys) m (ground (arith, hs))) (ne-mem e x (y ∷ ys) m d.1))
        (λ e m.
          cl.pred_same e (ne-mem e y ys m d.2.1) (ne-mem e x (y ∷ ys) (ground (arith, m)) d.1))
        (cl.pred_same z (λ e. absurd (ground (arith, e, hz))) (λ e. absurd (ground (arith, e, hz))))
        c.2.2,
  )

  pub remove-Chain :
      (s : ℕ) (pre post : List ℕ)
      → Closed h k (last s pre) x (first post z)
      → Distinct (pre ++ (x ∷ post))
      → mem s (pre ++ (x ∷ post)) ≡ false
      → mem z (pre ++ (x ∷ post)) ≡ false
      → Chain h s (pre ++ (x ∷ post)) z
      → Chain k s (pre ++ post) z
  remove-Chain s [] post cl d hs hz c = close-Chain s post cl d hs hz c
  remove-Chain s (p ∷ ps) post cl d hs hz c = (
    cl.succ_same s (last-other s p ps (x ∷ post) hs)
          (λ e. absurd (ground (arith, e, hs, mem-append s ps (x ∷ post))))
        ∙ c.0,
    cl.pred_same p
          (first-other p ps post z
            (ground (arith, d.1, mem-append p ps (x ∷ post), mem-append p ps post))
            (λ e. absurd (ground (arith, e, hz))))
          (λ e. absurd (ground (arith, e, d.1, mem-append p ps (x ∷ post))))
        ∙ c.1,
    remove-Chain p ps post cl d.2 d.1 (ground (arith, hz)) c.2,
  )

-- The neighbours at one place of a chain.
pub split-succ :
    (h : Memory) (s : ℕ) (pre post : List ℕ) (z : ℕ)
    → Chain h s (pre ++ post) z
    → (h (last s pre)).succ ≡ s_plain (first post z)
split-succ h s [] [] z c = c.0
split-succ h s [] (y ∷ ys) z c = c.0
split-succ h s (p ∷ ps) post z c = split-succ h p ps post z c.2

pub split-pred :
    (h : Memory) (s : ℕ) (pre post : List ℕ) (z : ℕ)
    → Chain h s (pre ++ post) z
    → (h (first post z)).pred ≡ p_plain (last s pre)
split-pred h s [] [] z c = c.1
split-pred h s [] (y ∷ ys) z c = c.1
split-pred h s (p ∷ ps) post z c = split-pred h p ps post z c.2
