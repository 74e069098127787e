-- ===== src/Refcnt/TicketLock/Tests.antt =====
-- The ticket lock at concrete inputs.
use ilias_async.Base.{◌≡◌, ◌≤◌, refl, false, [], ◌∷◌, ◌==◌, is_empty, length, arith}
use ilias_async.Refcnt.TicketLock.{Lock, draw, enter, member, Reach, here, next, draws, enters}
use ilias_async.Refcnt.TicketLock.Fair

-- Three threads have drawn a ticket, and the first is inside.
abbrev contended : Lock
contended = record { ticket = 3; start = 0; waiting = 1 ∷ 2 ∷ []; inside = 0 ∷ [] }

contended-Reach : Reach contended
unfolding draw enter
contended-Reach =
    next (next (next (next here (draws (omega arith))) (draws (omega arith))) (draws (omega arith)))
      (enters 0 refl refl)

one_inside_example : length contended.inside ≤ 1
one_inside_example = Fair.one_inside contended-Reach

served_in_order_example :
    ((1 == contended.start) ≡ is_empty contended.inside) × (member contended.start (2 ∷ []) ≡ false)
served_in_order_example = Fair.served_in_order contended-Reach refl
