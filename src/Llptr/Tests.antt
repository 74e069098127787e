-- ===== src/Llptr/Tests.antt =====
-- An `llptr` with a thread that reads it while another one replaces its pointer.
use ilias_async.Base.{◌+◌, ◌<◌, ◌≡◌, refl, inl, inr, arith}
use ilias_async.Llptr.{
  add, with_slot, granter, skip, lock, take, unlock, acquire_more, slot, State, stores, replace,
  enter, publish, test,
}
use ilias_async.Llptr.Steps.{
  Reach, here, next, creates, replaces, enters, publishes, tests, initial,
}
use ilias_async.Llptr.Sums.{total}
use ilias_async.Llptr.Ledger.{one, slot_refs, granter_refs}
use ilias_async.Llptr.Safety.{acquire_alive, references_counted}

abbrev stored : State
stored =
    replace stores 5 (record initial { refs = add 5 1 initial.refs; held = add 5 1 initial.held })

abbrev entering : State
entering = with_slot 3 (enter 5 (slot stored 3)) stored

abbrev publishing : State
publishing = with_slot 3 (publish 5 (slot entering 3)) entering

abbrev testing : State
testing = with_slot 3 (test publishing.cur 5 (slot publishing 3)) publishing

-- The pointer 5 is stored, loaded, published and found again; then it is replaced by `nullptr`.
abbrev reading : State
reading = replace stores 0 testing

entering-Reach : Reach entering
unfolding replace
entering-Reach =
    next
      (next (next here (creates 5 (λ e. absurd (omega (arith, e))) refl))
        (replaces stores 5 (inr (omega arith)) (inl (λ e. absurd (cc e)))))
      (enters 3 5 refl (omega arith) refl (λ e. absurd (omega (arith, e))))

reading-Reach : Reach reading
unfolding replace enter publish test
reading-Reach =
    next (next (next entering-Reach (publishes 3 5 refl)) (tests 3 5 refl))
      (replaces stores 0 (inl refl) (inl (λ e. absurd (cc e))))

acquire_alive_example : 0 < reading.refs 5
unfolding replace enter publish test
acquire_alive_example = acquire_alive 3 5 reading-Reach refl

references_counted_example :
    reading.refs 5
    ≡ one reading.cur 5
      + reading.held 5
      + total (slot_refs 5) reading.slots
      + total (granter_refs 5) reading.granters
references_counted_example = references_counted 5 reading-Reach (λ e. absurd (omega (arith, e)))

-- The thread that has stored `nullptr` grants the reader its reference before the reader acquires one.
abbrev granting : State
granting = unlock 0 (take 0 (lock 0 (skip 0 (skip 0 (skip 0 (acquire_more 0 reading))))))

granted : (granting.refs 5 ≡ 64) × ((slot granting 3).value ≡ 0) × ((granter granting 0).have ≡ 63)
unfolding replace enter publish test acquire_more skip lock take unlock
granted = (refl, refl, refl)
