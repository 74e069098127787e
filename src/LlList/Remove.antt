-- ===== src/LlList/Remove.antt =====
-- src/ll_list.cc: `succ_`, `pred_` and `unlink_` on linked elements, without interference.
use ilias_async.Base.{ℕ, zero, suc, ◌≡◌, ◌≢◌, refl, true, false, ◌==◌, arith}
use ilias_async.LlList.Memory.{
  Succ, Pred, Memory, s_plain, p_plain, put_succ, put_pred, Run, returns,
}
use ilias_async.LlList.Walk.{
  Aided, cascade, fix_pred, skip_us, aid_after, intend, unlink_aid_, succ_loop, succ_,
}
use ilias_async.LlList.Pred.{pred_, pred_loop, pred_turn, indirect, direct}
use ilias_async.LlList.Link.{unlink_ok, unlink_}
use ilias_async.LlList.Chain.{Closed}
use ilias_async.LlList.Insert.{same_succ_refl, same_pred_refl}

pub succ_-plain :
    (fuel a b : ℕ) (h : Memory) → (h a).succ ≡ s_plain b → succ_ fuel a h ≡ returns (h, b)
unfolding succ_ succ_loop
succ_-plain zero a b h e = rw e (ground arith)
succ_-plain (suc fuel) a b h e = rw e (ground arith)

pub nonzero : (a : ℕ) → a ≢ 0 → (a == 0) ≡ false
nonzero a n = ground arith

eq_self : (a : ℕ) → (a == a) ≡ true
eq_self a = ground arith

pub pred_-plain :
    (fuel x a c : ℕ) (h : Memory)
    → x ≢ 0
    → a ≢ 0
    → c ≢ 0
    → (h x).pred ≡ p_plain a
    → (h a).succ ≡ s_plain x
    → (h a).pred ≡ p_plain c
    → pred_ (suc fuel) x h ≡ returns (h, a)
unfolding pred_ pred_loop pred_turn indirect direct
pred_-plain fuel x a c h nx na nc ep es ec =
    rw (ep, nonzero a na, es, eq_self x, nonzero x nx, ec, nonzero c nc) refl

abbrev pub s_marking : ℕ → Succ
s_marking x = record { to = x; s_marked = true; d_marked = false }

abbrev pub marking : ℕ → Pred
marking a = record { to = a; is_marked = true }

abbrev pub leaving : ℕ → Succ
leaving b = record { to = b; s_marked = false; d_marked = true }

-- The memory after `unlink_aid_`, and after `unlink_`.
abbrev pub aided : ℕ → ℕ → ℕ → Memory → Memory
aided a x b h = put_succ x (s_plain 0) (
    put_succ a (s_plain b)
      (put_pred b (p_plain a) (put_succ x (leaving b) (put_pred x (marking a) h))))

abbrev pub detach : ℕ → ℕ → ℕ → Memory → Memory
detach a x b h = put_pred x (p_plain 0) (aided a x b (put_succ a (s_marking x) h))

pub detach-Closed : (h : Memory) (a x b : ℕ) → x ≢ a → x ≢ b → Closed h (detach a x b h) a x b
detach-Closed h a x b na nb = record {
  after = ground arith;
  before = ground arith;
  succ_same = λ e ea ex. ground arith;
  pred_same = λ e eb ex. ground arith;
}

cascade-unmarked :
    (again : ℕ → ℕ → Memory → Run Aided) (fuel x b : ℕ) (h : Memory)
    → b ≢ 0
    → cascade again fuel x (leaving b) h ≡ returns (leaving b, h)
unfolding cascade
cascade-unmarked again zero x b h n = rw (nonzero b n) refl
cascade-unmarked again (suc fuel) x b h n = rw (nonzero b n) refl

unlink_aid_-aided :
    (fuel a x b : ℕ) (h : Memory)
    → x ≢ a
    → x ≢ b
    → a ≢ 0
    → b ≢ 0
    → (h a).succ ≡ s_marking x
    → (h x).pred ≡ p_plain a
    → (h x).succ ≡ s_plain b
    → (h b).pred ≡ p_plain x
    → unlink_aid_ (suc fuel) a x h
      ≡ returns (record { memory = aided a x b h; before = a; after = s_plain b })
unfolding unlink_aid_ cascade aid_after intend fix_pred skip_us
unlink_aid_-aided fuel a x b h nax nbx na nb ea ep es eb =
    let marked = put_pred x (marking a) h in
    let marked_x : (marked x).succ ≡ s_plain b = ground arith in
    let going = put_succ x (leaving b) marked in
    let going_x : (going x).succ ≡ leaving b = ground arith in
    let going_b : (going b).pred ≡ p_plain x = ground arith in
    let fixed = put_pred b (p_plain a) going in
    let fixed_a : (fixed a).succ ≡ s_marking x = ground arith in
    rw
      (
        ep,
        nonzero a na,
        marked_x,
        nonzero b nb,
        going_x,
        cascade-unmarked (unlink_aid_ fuel) fuel x b going nb,
        nonzero b nb,
        same_pred_refl (going b).pred (p_plain x) going_b,
        fixed_a,
        eq_self x,
      )
      refl

pub unlink_-detach :
    (fuel a x b : ℕ) (h : Memory)
    → x ≢ a
    → x ≢ b
    → a ≢ 0
    → b ≢ 0
    → (h a).succ ≡ s_plain x
    → (h x).pred ≡ p_plain a
    → (h x).succ ≡ s_plain b
    → (h b).pred ≡ p_plain x
    → unlink_ (suc fuel) a x h ≡ returns (detach a x b h, unlink_ok)
unfolding unlink_
unlink_-detach fuel a x b h nax nbx na nb ea ep es eb =
    let marked = put_succ a (s_marking x) h in
    let marked_a : (marked a).succ ≡ s_marking x = ground arith in
    let marked_p : (marked x).pred ≡ p_plain a = ground arith in
    let marked_x : (marked x).succ ≡ s_plain b = ground arith in
    let marked_b : (marked b).pred ≡ p_plain x = ground arith in
    rw
      (
        nonzero a na,
        same_succ_refl (h a).succ (s_plain x) ea,
        unlink_aid_-aided fuel a x b marked nax nbx na nb marked_a marked_p marked_x marked_b,
        nonzero a na,
      )
      refl
