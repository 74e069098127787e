-- ===== src/LlList/Around.antt =====
-- src/ll_list.cc: `position::link_around`, without interference.
use native.Mathlib.Decide.{ℕ_discrete}
use ilias_async.Base.{ℕ, suc, ◌≡◌, ◌≢◌, refl, sym, ap, ◌∙◌, true, false, [], ◌∷◌, arith}
use ilias_async.LlList.Memory.{Memory, s_plain, p_plain, returns}
use ilias_async.LlList.Pred.{pred_, pred_loop, pred_turn}
use ilias_async.LlList.Link.{link_after_, link_before_, link_done}
use ilias_async.LlList.Chain.{Chain, Spliced}
use ilias_async.LlList.Insert.{IsFree, splice, splice-Spliced, link_-splice}
use ilias_async.LlList.Remove.{succ_-plain, pred_-plain, nonzero}
use ilias_async.LlList.Position.{Position, unlink_iter_, unlink, link_around}

-- The element `x` between its neighbours `a` and `b`, and `c` before `a`; two other elements `f` and
-- `k` are not linked.
pub record Between (h : Memory) (c a x b f k : ℕ) : Type 0 where
  pub a_nonzero : a ≢ 0
  pub x_nonzero : x ≢ 0
  pub b_nonzero : b ≢ 0
  pub c_nonzero : c ≢ 0
  pub f_nonzero : f ≢ 0
  pub a_x : a ≢ x
  pub x_b : x ≢ b
  pub f_a : f ≢ a
  pub f_x : f ≢ x
  pub f_b : f ≢ b
  pub k_a : k ≢ a
  pub k_x : k ≢ x
  pub k_b : k ≢ b
  pub k_f : k ≢ f
  pub before : Chain h a (x ∷ []) b
  pub first_pred : (h a).pred ≡ p_plain c
  pub f_free : IsFree h f
  pub k_free : IsFree h k

pred_-free :
    (fuel i : ℕ) (h : Memory) → (h i).pred ≡ p_plain 0 → pred_ (suc fuel) i h ≡ returns (h, 0)
unfolding pred_ pred_loop pred_turn
pred_-free fuel i h e = rw e refl

unlink_iter_-free :
    (fuel i : ℕ) (h : Memory)
    → (h i).pred ≡ p_plain 0
    → unlink_iter_ (suc fuel) i h ≡ returns (h, false)
unfolding unlink_iter_
unlink_iter_-free fuel i h e = rw (pred_-free fuel i h e) refl

unlink-free :
    (fuel : ℕ) (p : Position) (h : Memory)
    → IsFree h p.pos_first
    → IsFree h p.pos_second
    → unlink (suc fuel) p h ≡ returns (h, record p { swap = false })
unfolding unlink
unlink-free fuel p h f k =
    rw
      (
        unlink_iter_-free fuel p.pos_first h f.pred_free,
        unlink_iter_-free fuel p.pos_second h k.pred_free,
      )
      refl

module _ (h : Memory) (c a x b f k : ℕ) (t : Between h c a x b f k) where
  abbrev once : Memory
  once = splice x f b h

  once-Spliced : Spliced h once x f b
  once-Spliced = splice-Spliced h x f b t.f_x t.f_b

  after-once : (fuel : ℕ) → link_after_ (suc fuel) x f h ≡ returns (once, link_done)
  unfolding link_after_
  after-once fuel =
      rw
        (
          succ_-plain (suc fuel) x b h t.before.2.0,
          nonzero b t.b_nonzero,
          link_-splice (suc fuel) x f b h t.f_free t.f_x t.f_b t.before.2.0 t.before.2.1,
        )
        refl

  once-pred : (e : ℕ) × ((once a).pred ≡ p_plain e) × (e ≢ 0)
  once-pred = elim (ℕ_discrete a b) [
    | yes q ↦ (f, ap (λ y. (once y).pred) q ∙ once-Spliced.before, t.f_nonzero)
    | no n ↦ (c, once-Spliced.pred_same a n (λ e. t.f_a (sym e)) ∙ t.first_pred, t.c_nonzero)
  ]

  once-succ : (once a).succ ≡ s_plain x
  once-succ = once-Spliced.succ_same a t.a_x (λ e. t.f_a (sym e)) ∙ t.before.0

  once-back : (once x).pred ≡ p_plain a
  once-back = once-Spliced.pred_same x t.x_b (λ e. t.f_x (sym e)) ∙ t.before.1

  once-IsFree : IsFree once k
  once-IsFree = record {
    succ_free = once-Spliced.succ_same k t.k_x t.k_f ∙ t.k_free.succ_free;
    pred_free = once-Spliced.pred_same k t.k_b t.k_f ∙ t.k_free.pred_free;
    not_linking = ground (arith, t.k_free.not_linking);
  }

  before-twice :
      (fuel : ℕ) → link_before_ (suc fuel) x k once ≡ returns (splice a k x once, link_done)
  unfolding link_before_
  before-twice fuel =
      let (e, p, n) = once-pred in
      rw
        (
          pred_-plain fuel x a e once t.x_nonzero t.a_nonzero n once-back once-succ p,
          nonzero a t.a_nonzero,
          link_-splice (suc fuel) a k x once once-IsFree t.k_a t.k_x once-succ once-back,
        )
        refl

  twice-Chain : Chain (splice a k x once) a (k ∷ x ∷ f ∷ []) b
  twice-Chain =
      let s = splice-Spliced once a k x t.k_a t.k_x in
      (
        s.after,
        s.back,
        (
          s.on,
          s.before,
          (
            s.succ_same x (λ e. t.a_x (sym e)) (λ e. t.k_x (sym e)) ∙ once-Spliced.after,
            s.pred_same f t.f_x (λ e. t.k_f (sym e)) ∙ once-Spliced.back,
            (
              s.succ_same f t.f_a (λ e. t.k_f (sym e)) ∙ once-Spliced.on,
              s.pred_same b (λ e. t.x_b (sym e)) (λ e. t.k_b (sym e)) ∙ once-Spliced.before,
            ),
          ),
        ),
      )

-- `link_around`, of an element in a list with a position whose iterators are not linked, puts the one
-- before the element and the other behind it.
pub link_around-Chain :
    (fuel : ℕ) (h : Memory) (p : Position) (c a x b : ℕ)
    → Between h c a x b p.pos_first p.pos_second
    → (m : Memory) × (link_around (suc fuel) x p h ≡ returns (m, record p { swap = false }, true))
      × Chain m a (p.pos_second ∷ x ∷ p.pos_first ∷ []) b
unfolding link_around
link_around-Chain fuel h p c a x b t = (
  splice a p.pos_second x (splice x p.pos_first b h),
  rw
      (
        unlink-free fuel p h t.f_free t.k_free,
        after-once h c a x b p.pos_first p.pos_second t fuel,
        before-twice h c a x b p.pos_first p.pos_second t fuel,
      )
      refl,
  twice-Chain h c a x b p.pos_first p.pos_second t,
)
