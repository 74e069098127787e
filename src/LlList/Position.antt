-- ===== src/LlList/Position.antt =====
-- src/ll_list.cc: `list::position`, two iterators around an element.
use ilias_async.Base.{ℕ, zero, suc, Bool, true, false, not, ◌==◌, if◌then◌else◌}
use ilias_async.LlList.Memory.{Memory, Run, returns, fails, runs_on, ◌>>=◌}
use ilias_async.LlList.Pred.{pred_}
use ilias_async.LlList.Link.{
  link_after_, link_before_, link_done, link_lost, link_again, unlink_, unlink_ok, unlink_retry,
  unlink_fail,
}
use ilias_async.LlList.Ops.{succ_elem_, pred_elem_}

-- `pos_` and `swap_`
pub record Position : Type 0 where
  pub pos_first : ℕ
  pub pos_second : ℕ
  pub swap : Bool

abbrev pub front : Position → ℕ
front p = if p.swap then p.pos_second else p.pos_first

abbrev pub back : Position → ℕ
back p = if p.swap then p.pos_first else p.pos_second

-- `unlink_iter_`
unfoldable pub unlink_iter_ : ℕ → ℕ → Memory → Run (Memory × Bool)
unfolding pred_ unlink_
unlink_iter_ zero i h = runs_on
unlink_iter_ (suc fuel) i h = pred_ (suc fuel) i h >>= λ (g, p). elim (p == 0) [
  | true ↦ returns (g, false)
  | false ↦ unlink_ (suc fuel) p i g >>= λ (k, r). elim r [
    | unlink_ok ↦ returns (k, true)
    | unlink_fail ↦ returns (k, false)
    | unlink_retry ↦ unlink_iter_ fuel i k
  ]
]

-- `position::unlink`
unfoldable pub unlink : ℕ → Position → Memory → Run (Memory × Position)
unfolding unlink_iter_
unlink fuel p h = unlink_iter_ fuel p.pos_first h >>= λ r.
    unlink_iter_ fuel p.pos_second r.0 >>= λ s. returns (s.0, record p { swap = false })

-- `position::link_around`
unfoldable pub link_around : ℕ → ℕ → Position → Memory → Run (Memory × Position × Bool)
unfolding unlink link_after_ link_before_
link_around fuel x p h = unlink fuel p h >>= λ (g, q). link_after_ fuel x (front q) g >>= λ (k, r).
    elim r [
      | link_again ↦ fails
      | link_lost ↦ returns (k, q, false)
      | link_done ↦ link_before_ fuel x (back q) k >>= λ (m, s). elim s [
        | link_again ↦ fails
        | link_lost ↦ unlink fuel q m >>= λ (n, t). returns (n, t, false)
        | link_done ↦ returns (m, q, true)
      ]
    ]

-- `position::step_forward` and `position::step_backward`, with their loops; the result is the element,
-- or 0.
unfoldable pub forward_loop : ℕ → Position → Memory → Run (Memory × Position × ℕ)
unfolding succ_elem_ link_after_
forward_loop zero p h = runs_on
forward_loop (suc fuel) p h = succ_elem_ fuel (front p) h >>= λ (g, e).
    link_after_ fuel e (back p) g >>= λ (k, r). elim r [
      | link_done ↦ returns (k, record p { swap = not p.swap }, e)
      | link_lost ↦ forward_loop fuel p k
      | link_again ↦ fails
    ]

unfoldable pub step_forward : ℕ → Position → Memory → Run (Memory × Position × ℕ)
unfolding unlink_iter_ forward_loop
step_forward fuel p h = unlink_iter_ fuel (back p) h >>= λ (g, b).
    if b then forward_loop fuel p g else returns (g, p, 0)

unfoldable pub backward_loop : ℕ → Position → Memory → Run (Memory × Position × ℕ)
unfolding pred_elem_ link_before_
backward_loop zero p h = runs_on
backward_loop (suc fuel) p h = pred_elem_ fuel (back p) h >>= λ (g, e).
    link_before_ fuel e (front p) g >>= λ (k, r). elim r [
      | link_done ↦ returns (k, record p { swap = not p.swap }, e)
      | link_lost ↦ backward_loop fuel p k
      | link_again ↦ fails
    ]

unfoldable pub step_backward : ℕ → Position → Memory → Run (Memory × Position × ℕ)
unfolding unlink_iter_ backward_loop
step_backward fuel p h = unlink_iter_ fuel (front p) h >>= λ (g, b).
    if b then backward_loop fuel p g else returns (g, p, 0)
