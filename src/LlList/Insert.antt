-- ===== src/LlList/Insert.antt =====
-- src/ll_list.cc: `link_` between neighbours, without interference.
use ilias_async.Base.{ℕ, ◌≡◌, ◌≢◌, refl, true, false, arith}
use ilias_async.LlList.Memory.{
  Succ, Pred, Memory, s_plain, p_plain, same_succ, same_pred, put_succ, put_pred, returns,
}
use ilias_async.LlList.Link.{xlink_ok, link_, link_pred}
use ilias_async.LlList.Chain.{Spliced}

pub same_succ_refl : (u v : Succ) → u ≡ v → same_succ u v ≡ true
same_succ_refl u v e = rw e (ground arith)

pub same_pred_refl : (u v : Pred) → u ≡ v → same_pred u v ≡ true
same_pred_refl u v e = rw e (ground arith)

-- An element that is not linked, and that no thread is linking.
pub record IsFree (h : Memory) (x : ℕ) : Type 0 where
  pub succ_free : (h x).succ ≡ s_plain 0
  pub pred_free : (h x).pred ≡ p_plain 0
  pub not_linking : (h x).linking ≡ false

abbrev pub splice : ℕ → ℕ → ℕ → Memory → Memory
splice a x b h =
    put_pred b (p_plain x)
      (put_succ a (s_plain x) (put_succ x (s_plain b) (put_pred x (p_plain a) h)))

pub splice-Spliced : (h : Memory) (a x b : ℕ) → x ≢ a → x ≢ b → Spliced h (splice a x b h) a x b
splice-Spliced h a x b na nb = record {
  after = ground arith;
  back = ground arith;
  on = ground arith;
  before = ground arith;
  succ_same = λ e ea ex. ground arith;
  pred_same = λ e eb ex. ground arith;
}

pub link_-splice :
    (fuel : ℕ) (a x b : ℕ) (h : Memory)
    → IsFree h x
    → x ≢ a
    → x ≢ b
    → (h a).succ ≡ s_plain b
    → (h b).pred ≡ p_plain a
    → link_ fuel a x b h ≡ returns (splice a x b h, xlink_ok)
unfolding link_ link_pred
link_-splice fuel a x b h f na nb ea eb =
    let own = put_succ x (s_plain b) (put_pred x (p_plain a) h) in
    let own_a : (own a).succ ≡ s_plain b = ground arith in
    let own_b : (put_succ a (s_plain x) own b).pred ≡ p_plain a = ground arith in
    rw
      (
        f.not_linking,
        same_pred_refl (h x).pred (p_plain 0) f.pred_free,
        same_succ_refl (h x).succ (s_plain 0) f.succ_free,
        same_succ_refl (own a).succ (s_plain b) own_a,
        same_pred_refl (put_succ a (s_plain x) own b).pred (p_plain a) own_b,
      )
      refl
