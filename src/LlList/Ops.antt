-- ===== src/LlList/Ops.antt =====
-- src/ll_list.cc: operations of `list`.
use ilias_async.Base.{ℕ, zero, suc, Bool, true, false, not, ◌&&◌, ◌==◌, if◌then◌else◌}
use ilias_async.LlList.Memory.{
  ElemType, Memory, Run, ◌>>=◌, head, iterator, returns, fails, runs_on,
}
use ilias_async.LlList.Walk.{succ_}
use ilias_async.LlList.Pred.{pred_}
use ilias_async.LlList.Link.{
  link_after_, link_before_, unlink_, link_done, link_lost, link_again, unlink_ok, unlink_retry,
  unlink_fail,
}

abbrev pub is_iterator : ElemType → Bool
is_iterator iterator = true
is_iterator k = false

abbrev pub is_head : ElemType → Bool
is_head head = true
is_head k = false

-- The loop of `succ_elem_`, with its variable `s`.
unfoldable pub succ_elem_loop : ℕ → ℕ → ℕ → Memory → Run (Memory × ℕ)
unfolding succ_
succ_elem_loop zero x s h =
    if not (s == 0) && is_iterator (h s).kind then runs_on else returns (h, s)
succ_elem_loop (suc fuel) x s h =
    if not (s == 0) && is_iterator (h s).kind
    then (succ_ fuel s h >>= λ (g, t).
        (if t == 0 then succ_ fuel x g else returns (g, t)) >>= λ (k, u). succ_elem_loop fuel x u k)
    else returns (h, s)

-- `succ_elem_`
unfoldable pub succ_elem_ : ℕ → ℕ → Memory → Run (Memory × ℕ)
unfolding succ_ succ_elem_loop
succ_elem_ fuel x h = succ_ fuel x h >>= λ (g, s). succ_elem_loop fuel x s g

-- `list::empty`, of the list whose head is `hd`.
unfoldable pub empty : ℕ → ℕ → Memory → Run Bool
unfolding succ_elem_
empty fuel hd h = succ_elem_ fuel hd h >>= λ (g, e). returns (is_head (g e).kind)

-- `list::link_front` and `list::link_back`
unfoldable pub link_front : ℕ → ℕ → ℕ → Memory → Run (Memory × Bool)
unfolding link_after_
link_front fuel hd x h = link_after_ fuel hd x h >>= λ (g, r). elim r [
  | link_done ↦ returns (g, true)
  | link_again ↦ returns (g, false)
  | link_lost ↦ fails
]

unfoldable pub link_back : ℕ → ℕ → ℕ → Memory → Run (Memory × Bool)
unfolding link_before_
link_back fuel hd x h = link_before_ fuel hd x h >>= λ (g, r). elim r [
  | link_done ↦ returns (g, true)
  | link_again ↦ returns (g, false)
  | link_lost ↦ fails
]

-- The loop of `list::pop_front`, with its variable `e`; the result is the element, or 0.
unfoldable pub pop_loop : ℕ → ℕ → ℕ → Memory → Run (Memory × ℕ)
unfolding pred_ unlink_ succ_elem_
pop_loop zero hd e h = runs_on
pop_loop (suc fuel) hd e h = pred_ (suc fuel) e h >>= λ (g, a).
    unlink_ (suc fuel) a e g >>= λ (k, r). elim r [
      | unlink_ok ↦ returns (k, e)
      | unlink_retry ↦ pop_loop fuel hd e k
      | unlink_fail ↦ succ_elem_ fuel hd k >>= λ (m, f). elim (is_head (m f).kind) [
        | true ↦ returns (m, 0)
        | false ↦ pop_loop fuel hd f m
      ]
    ]

-- `list::pop_front`
unfoldable pub pop_front : ℕ → ℕ → Memory → Run (Memory × ℕ)
unfolding succ_elem_ pop_loop
pop_front fuel hd h = succ_elem_ fuel hd h >>= λ (g, e).
    if is_head (g e).kind then returns (g, 0) else pop_loop fuel hd e g

-- The loop of `pred_elem_`, with its variable `p`, and `pred_elem_`.
unfoldable pub pred_elem_loop : ℕ → ℕ → ℕ → Memory → Run (Memory × ℕ)
unfolding pred_
pred_elem_loop zero x p h =
    if not (p == 0) && is_iterator (h p).kind then runs_on else returns (h, p)
pred_elem_loop (suc fuel) x p h =
    if not (p == 0) && is_iterator (h p).kind
    then (pred_ fuel p h >>= λ (g, t).
        (if t == 0 then pred_ fuel x g else returns (g, t)) >>= λ (k, u). pred_elem_loop fuel x u k)
    else returns (h, p)

unfoldable pub pred_elem_ : ℕ → ℕ → Memory → Run (Memory × ℕ)
unfolding pred_ pred_elem_loop
pred_elem_ fuel x h = pred_ fuel x h >>= λ (g, p). pred_elem_loop fuel x p g

-- `list::pop_back`, and its loop.
unfoldable pub pop_back_loop : ℕ → ℕ → ℕ → Memory → Run (Memory × ℕ)
unfolding pred_ unlink_ pred_elem_
pop_back_loop zero hd e h = runs_on
pop_back_loop (suc fuel) hd e h = pred_ (suc fuel) e h >>= λ (g, a).
    unlink_ (suc fuel) a e g >>= λ (k, r). elim r [
      | unlink_ok ↦ returns (k, e)
      | unlink_retry ↦ pop_back_loop fuel hd e k
      | unlink_fail ↦ pred_elem_ fuel hd k >>= λ (m, f). elim (is_head (m f).kind) [
        | true ↦ returns (m, 0)
        | false ↦ pop_back_loop fuel hd f m
      ]
    ]

unfoldable pub pop_back : ℕ → ℕ → Memory → Run (Memory × ℕ)
unfolding pred_elem_ pop_back_loop
pop_back fuel hd h = pred_elem_ fuel hd h >>= λ (g, e).
    if is_head (g e).kind then returns (g, 0) else pop_back_loop fuel hd e g
