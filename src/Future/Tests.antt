-- ===== src/Future/Tests.antt =====
-- A shared state from its promise to its callbacks.
use ilias_async.Base.{◌≤◌, ◌≡◌, ◌≢◌, ◌⊎◌, true, false, arith}
use ilias_async.Future.{
  ready_value, is_ready, Shared, initial, set_ready, install_shared_callback, register_dependant,
  invoke_ready_cb, Reach, here, next, sets_value, invokes, installs_shared, registers,
}
use ilias_async.Future.Callbacks.{times, callbacks_called}

-- Two callbacks wait, one comes late, and the value is set twice.
abbrev waiting_shared : Shared
waiting_shared = register_dependant 8 (install_shared_callback 7 (initial false))

abbrev fired : Shared
fired =
    install_shared_callback 7
      (invoke_ready_cb (set_ready ready_value 2 (set_ready ready_value 5 waiting_shared).0).0)

fired-Reach : Reach fired
unfolding set_ready register_dependant install_shared_callback
fired-Reach =
    next
      (next
        (next (next (next (next (here false) (installs_shared 7)) (registers 8)) (sets_value 5))
          (sets_value 2))
        (invokes (λ e. absurd (omega (arith, e)))))
      (installs_shared 7)

callbacks_called_example :
    (times 7 fired.called ≤ times 7 fired.installed)
    × (((is_ready fired.state ≡ false) × (times 7 fired.called ≡ 0))
        ⊎ ((is_ready fired.state ≡ true)
            × ((fired.firing ≢ 0) ⊎ (times 7 fired.called ≡ times 7 fired.installed))))
callbacks_called_example = callbacks_called 7 fired-Reach
