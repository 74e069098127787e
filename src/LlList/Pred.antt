-- ===== src/LlList/Pred.antt =====
-- src/ll_list.cc: `pred_`.
use ilias_async.Base.{ℕ, zero, suc, not, ◌&&◌, ◌==◌, if◌then◌else◌}
use ilias_async.LlList.Memory.{
  Succ, Pred, Memory, p_plain, same_pred, put_pred, Run, ◌>>=◌, check, returns, runs_on,
}
use ilias_async.LlList.Walk.{unlink_aid_}

-- `x.pred_.compare_exchange_weak(p, to)`, and what the variable `p` is then; `moved` is its value
-- where the exchange succeeds.
pub data Turn : Type 0 where
  found : Memory → ℕ → Turn
  turn : Memory → Pred → Turn

unfoldable pub exchange_pred : ℕ → Pred → Pred → Pred → Memory → Turn
exchange_pred x p to moved h =
    if same_pred (h x).pred p then turn (put_pred x to h) moved else turn h (h x).pred

-- `pred_`: "p is a direct predecessor of x"
unfoldable pub direct : ℕ → Pred → Memory → Run Turn
unfolding exchange_pred
direct x p h =
    let pp = (h p.to).pred in
    check (not (pp.to == 0)) (
      returns
        (if pp.is_marked then exchange_pred x p (record p { to = pp.to }) p h else found h p.to))

unfoldable pub indirect : ℕ → Pred → Memory × Succ → Run Turn
unfolding direct exchange_pred
indirect x p (h, ps) =
    if ps.to == 0
    then check (not ((h p.to).pred.to == 0))
        (returns (exchange_pred x p (record p { to = (h p.to).pred.to }) p h))
    else if not (ps.to == x)
    then returns (exchange_pred x p (p_plain ps.to) (record p { to = ps.to }) h)
    else direct x p h

-- One turn of the loop of `pred_`, with its variable `p`.
unfoldable pub pred_turn : ℕ → ℕ → Pred → Memory → Run Turn
unfolding unlink_aid_ direct indirect
pred_turn fuel x p h =
    let ps = (h p.to).succ in
    if p.to == 0
    then returns (found h 0)
    else if p.is_marked
    then direct x p h
    else if not (ps.to == 0) && (not (ps.to == x) && ps.s_marked)
    then (unlink_aid_ fuel p.to ps.to h >>= λ r. indirect x p (r.memory, r.after))
    else indirect x p (h, ps)

unfoldable pub pred_loop : ℕ → ℕ → Pred → Memory → Run (Memory × ℕ)
unfolding pred_turn
pred_loop zero x p h = runs_on
pred_loop (suc fuel) x p h = pred_turn fuel x p h >>= λ t. elim t [
  | found g e ↦ returns (g, e)
  | turn g q ↦ pred_loop fuel x q g
]

unfoldable pub pred_ : ℕ → ℕ → Memory → Run (Memory × ℕ)
unfolding pred_loop
pred_ fuel x h = pred_loop fuel x (h x).pred h
