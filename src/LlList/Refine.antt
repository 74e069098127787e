-- ===== src/LlList/Refine.antt =====
-- src/ll_list.cc: the memory of a list as a sequence of elements.
use native.Mathlib.Decide.{ℕ_discrete}
use ilias_async.Base.{
  ℕ, ◌≡◌, ◌≢◌, ◌∙◌, true, false, List, [], ◌∷◌, ◌++◌, ◌==◌, if◌then◌else◌, arith,
}
use ilias_async.LlList.Memory.{
  head, element, Memory, s_plain, p_plain, Run, returns, fails, runs_on,
}
use ilias_async.LlList.Chain.{
  mem, Distinct, Chain, last, first, insert-Chain, remove-Chain, mem-append,
}
use ilias_async.LlList.Insert.{splice, splice-Spliced}
use ilias_async.LlList.Remove.{detach, detach-Closed}

-- The list with the head `hd` holds the elements `xs`, and all others are not linked; there are no
-- iterators, and no other threads.
pub record Represents (hd : ℕ) (h : Memory) (xs : List ℕ) : Type 0 where
  pub hd_nonzero : hd ≢ 0
  pub distinct : Distinct xs
  pub hd_out : mem hd xs ≡ false
  pub chain : Chain h hd xs hd
  pub unlinked :
      (e : ℕ) → e ≢ hd → mem e xs ≡ false → ((h e).succ ≡ s_plain 0) × ((h e).pred ≡ p_plain 0)
  pub no_lock : (e : ℕ) → (h e).linking ≡ false
  pub hd_kind : (h hd).kind ≡ head
  pub kinds : (e : ℕ) → e ≢ hd → (h e).kind ≡ element

Distinct-insert :
    (pre post : List ℕ) (x : ℕ)
    → x ≢ 0
    → mem x (pre ++ post) ≡ false
    → Distinct (pre ++ post)
    → Distinct (pre ++ (x ∷ post))
Distinct-insert [] post x n m d = (n, m, d)
Distinct-insert (p ∷ ps) post x n m d = (
  d.0,
  ground (arith, d.1, m, mem-append p ps post, mem-append p ps (x ∷ post)),
  Distinct-insert ps post x n (ground (arith, m)) d.2,
)

pub mem-insert :
    (e x : ℕ) (pre post : List ℕ)
    → mem e (pre ++ (x ∷ post)) ≡ (if e == x then true else mem e (pre ++ post))
mem-insert e x pre post = ground (arith, mem-append e pre post, mem-append e pre (x ∷ post))

-- Ends in a value and a memory, that has a property.
unfoldable pub Yields : {A : Type 0} → (Memory → Type 0) → A → Run (Memory × A) → Type 0
Yields P a (returns (h, b)) = (b ≡ a) × P h
Yields P a fails = ⊥
Yields P a runs_on = ⊥

pub last-nonzero : (s : ℕ) (xs : List ℕ) → s ≢ 0 → Distinct xs → last s xs ≢ 0
last-nonzero s [] n d = n
last-nonzero s (x ∷ xs) n d = last-nonzero x xs d.0 d.2

pub first-nonzero : (xs : List ℕ) (z : ℕ) → z ≢ 0 → Distinct xs → first xs z ≢ 0
first-nonzero [] z n d = n
first-nonzero (x ∷ xs) z n d = d.0

pub Distinct-right : (pre post : List ℕ) → Distinct (pre ++ post) → Distinct post
Distinct-right [] post d = d
Distinct-right (p ∷ ps) post d = Distinct-right ps post d.2

pub Distinct-left : (pre post : List ℕ) → Distinct (pre ++ post) → Distinct pre
Distinct-left [] post d = tt
Distinct-left (p ∷ ps) post d =
    (d.0, ground (arith, d.1, mem-append p ps post), Distinct-left ps post d.2)

pub not-last : (x s : ℕ) (pre post : List ℕ) → mem x (pre ++ post) ≡ false → x ≢ s → x ≢ last s pre
not-last x s [] post m n = n
not-last x s (p ∷ ps) post m n =
    not-last x p ps post (ground (arith, m)) (λ e. absurd (ground (arith, e, m)))

pub not-first :
    (x z : ℕ) (pre post : List ℕ) → mem x (pre ++ post) ≡ false → x ≢ z → x ≢ first post z
not-first x z pre [] m n = n
not-first x z pre (y ∷ ys) m n = λ e. absurd (ground (arith, e, m, mem-append x pre (y ∷ ys)))

-- `link_` between neighbours of a list inserts the element there.
pub splice-Represents :
    (hd x : ℕ) (pre post : List ℕ) (h : Memory)
    → x ≢ 0
    → x ≢ hd
    → mem x (pre ++ post) ≡ false
    → Represents hd h (pre ++ post)
    → Represents hd (splice (last hd pre) x (first post hd) h) (pre ++ (x ∷ post))
splice-Represents hd x pre post h nz nh m r =
    let na = not-last x hd pre post m nh in
    let nb = not-first x hd pre post m nh in
    let sp = splice-Spliced h (last hd pre) x (first post hd) na nb in
    record {
      hd_nonzero = r.hd_nonzero;
      distinct = Distinct-insert pre post x nz m r.distinct;
      hd_out = ground (arith, mem-insert hd x pre post, r.hd_out);
      chain =
          insert-Chain h (splice (last hd pre) x (first post hd) h) x hd hd pre post sp r.distinct m
            r.hd_out r.hd_out nh nh r.chain;
      unlinked = λ e ne me.
          let out : mem e (pre ++ post) ≡ false = ground (arith, me, mem-insert e x pre post) in
          let nx : e ≢ x = λ q. absurd (ground (arith, q, me, mem-insert e x pre post)) in
          let was = r.unlinked e ne out in
          (
            sp.succ_same e (not-last e hd pre post out ne) nx ∙ was.0,
            sp.pred_same e (not-first e hd pre post out ne) nx ∙ was.1,
          );
      no_lock = λ e. ground (arith, r.no_lock e);
      hd_kind = ground (arith, r.hd_kind);
      kinds = λ e ne. ground (arith, r.kinds e ne);
    }

pub Distinct-remove :
    (pre post : List ℕ) (x : ℕ)
    → Distinct (pre ++ (x ∷ post))
    → (mem x (pre ++ post) ≡ false) × Distinct (pre ++ post) × (x ≢ 0)
Distinct-remove [] post x d = (d.1, d.2, d.0)
Distinct-remove (p ∷ ps) post x d =
    let rest = Distinct-remove ps post x d.2 in
    (
      ground (arith, rest.0, d.1, mem-insert p x ps post),
      (d.0, ground (arith, d.1, mem-insert p x ps post), rest.1),
      rest.2,
    )

-- `unlink_` of an element from its predecessor takes it out.
pub detach-Represents :
    (hd x : ℕ) (pre post : List ℕ) (h : Memory)
    → Represents hd h (pre ++ (x ∷ post))
    → Represents hd (detach (last hd pre) x (first post hd) h) (pre ++ post)
detach-Represents hd x pre post h r =
    let gone = Distinct-remove pre post x r.distinct in
    let nh : x ≢ hd = λ e. absurd (ground (arith, e, r.hd_out, mem-insert hd x pre post)) in
    let na = not-last x hd pre post gone.0 nh in
    let nb = not-first x hd pre post gone.0 nh in
    let cl = detach-Closed h (last hd pre) x (first post hd) na nb in
    record {
      hd_nonzero = r.hd_nonzero;
      distinct = gone.1;
      hd_out = ground (arith, mem-insert hd x pre post, r.hd_out);
      chain =
          remove-Chain h (detach (last hd pre) x (first post hd) h) x hd hd pre post cl r.distinct
            r.hd_out r.hd_out r.chain;
      unlinked = λ e ne me. elim (ℕ_discrete e x) [
        | yes q ↦ rw q (detached h (last hd pre) x (first post hd) na nb)
        | no n ↦
            let out : mem e (pre ++ (x ∷ post)) ≡ false =
              ground (arith, me, mem-insert e x pre post, n) in
            let was = r.unlinked e ne out in
            (
              cl.succ_same e (not-last e hd pre post me ne) n ∙ was.0,
              cl.pred_same e (not-first e hd pre post me ne) n ∙ was.1,
            )
      ];
      no_lock = λ e. ground (arith, r.no_lock e);
      hd_kind = ground (arith, r.hd_kind);
      kinds = λ e ne. ground (arith, r.kinds e ne);
    }
  where
    detached :
        (h : Memory) (a x b : ℕ)
        → x ≢ a
        → x ≢ b
        → ((detach a x b h x).succ ≡ s_plain 0) × ((detach a x b h x).pred ≡ p_plain 0)
    detached h a x b na nb = (ground arith, ground arith)
