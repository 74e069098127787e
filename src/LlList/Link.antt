-- ===== src/LlList/Link.antt =====
-- src/ll_list.cc: `link_` and `unlink_`, with the loops around `link_`.
use ilias_async.Base.{ℕ, zero, suc, Bool, true, false, not, ◌&&◌, ◌==◌, if◌then◌else◌}
use ilias_async.LlList.Memory.{
  Succ, Memory, s_plain, p_plain, same_succ, same_pred, put_succ, put_pred, Run, ◌>>=◌, check,
  returns, runs_on,
}
use ilias_async.LlList.Walk.{unlink_aid_, succ_}
use ilias_async.LlList.Pred.{pred_}

-- `axb_link_result`
pub data XLink : Type 0 where
  xlink_ok xlink_retry xlink_twice xlink_lost_a xlink_lost_b xlink_lost_ab : XLink

-- `link_`: "Fix b.pred to point at x"
unfoldable pub link_pred : ℕ → ℕ → ℕ → ℕ → Memory → Run Memory
unfolding pred_
link_pred fuel a x b h =
    if same_pred (h b).pred (p_plain a)
    then returns (put_pred b (p_plain x) h)
    else if same_pred (h b).pred (record { to = a; is_marked = true })
    then returns (put_pred b (record { to = x; is_marked = true }) h)
    else pred_ fuel b h >>= λ r. returns r.0

-- `link_`: which neighbour was lost, where the successor of `a` is `now`.
unfoldable pub link_error : ℕ → ℕ → Succ → Memory → XLink
link_error a b now h =
    if now.to == 0
    then (if (h b).pred.is_marked then xlink_lost_ab else xlink_lost_a)
    else if not (same_succ now (record { to = b; s_marked = true; d_marked = false }))
    then xlink_retry
    else if (h a).pred.is_marked
    then xlink_lost_ab
    else xlink_lost_b

-- `link_`, under the lock of `elem_linking_lock`, which is given back at the end.
unfoldable pub link_ : ℕ → ℕ → ℕ → ℕ → Memory → Run (Memory × XLink)
unfolding link_pred link_error
link_ fuel a x b h =
    let own = put_succ x (s_plain b) (put_pred x (p_plain a) h) in
    let linked = link_pred fuel a x b (put_succ a (s_plain x) own) >>= λ g. returns (g, xlink_ok) in
    if (h x).linking
    then returns (h, xlink_twice)
    else if not (same_pred (h x).pred (p_plain 0))
    then returns (h, xlink_twice)
    else check (same_succ (h x).succ (s_plain 0)) (
        if same_succ (own a).succ (s_plain b)
        then linked
        else returns
            (put_pred x (p_plain 0) (put_succ x (s_plain 0) own), link_error a b (own a).succ own))

-- `link_result`
pub data Link : Type 0 where
  link_done link_lost link_again : Link

-- Both loops turn once more where `link_` must be tried again.
abbrev pub after_result : XLink → Link × Bool
after_result xlink_ok = (link_done, false)
after_result xlink_twice = (link_again, false)
after_result xlink_retry = (link_lost, true)
after_result xlink_lost_b = (link_lost, true)
after_result xlink_lost_a = (link_lost, false)
after_result xlink_lost_ab = (link_lost, false)

abbrev pub before_result : XLink → Link × Bool
before_result xlink_ok = (link_done, false)
before_result xlink_twice = (link_again, false)
before_result xlink_retry = (link_lost, true)
before_result xlink_lost_a = (link_lost, true)
before_result xlink_lost_b = (link_lost, false)
before_result xlink_lost_ab = (link_lost, false)

-- `link_after_`
unfoldable pub link_after_ : ℕ → ℕ → ℕ → Memory → Run (Memory × Link)
unfolding succ_ link_
link_after_ zero a x h = runs_on
link_after_ (suc fuel) a x h = succ_ (suc fuel) a h >>= λ (g, b).
    if b == 0
    then returns (g, link_lost)
    else link_ (suc fuel) a x b g >>= λ (k, r). elim (after_result r).1 [
      | true ↦ link_after_ fuel a x k
      | false ↦ returns (k, (after_result r).0)
    ]

-- `link_before_`
unfoldable pub link_before_ : ℕ → ℕ → ℕ → Memory → Run (Memory × Link)
unfolding pred_ link_
link_before_ zero b x h = runs_on
link_before_ (suc fuel) b x h = pred_ (suc fuel) b h >>= λ (g, a).
    if a == 0
    then returns (g, link_lost)
    else link_ (suc fuel) a x b g >>= λ (k, r). elim (before_result r).1 [
      | true ↦ link_before_ fuel b x k
      | false ↦ returns (k, (before_result r).0)
    ]

-- `unlink_result`
pub data Unlink : Type 0 where
  unlink_ok unlink_retry unlink_fail : Unlink

-- `unlink_`, where no exchange of `a.succ_` takes place.
unfoldable pub unlink_error : ℕ → ℕ → Succ → Memory → Run (Memory × Unlink)
unfolding pred_
unlink_error fuel x now h =
    if (now.to == x) && now.s_marked
    then returns (h, unlink_fail)
    else if (h x).pred.is_marked
    then returns (h, unlink_fail)
    else if not (now.to == 0) && now.d_marked
    then (pred_ fuel now.to h >>= λ r. returns (r.0, unlink_retry))
    else returns (h, unlink_retry)

-- `unlink_`. The loops that wait for the references of other threads are left out.
unfoldable pub unlink_ : ℕ → ℕ → ℕ → Memory → Run (Memory × Unlink)
unfolding unlink_aid_ unlink_error
unlink_ fuel a x h = check (not (a == 0)) (
    if same_succ (h a).succ (s_plain x)
    then (unlink_aid_ fuel a x (put_succ a (record (s_plain x) { s_marked = true }) h) >>= λ r.
        check (not (r.before == 0)) (returns (put_pred x (p_plain 0) r.memory, unlink_ok)))
    else unlink_error fuel x (h a).succ h)
