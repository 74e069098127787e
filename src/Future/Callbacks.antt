-- ===== src/Future/Callbacks.antt =====
-- include/ilias/future-inl.h: the calls of the callbacks of a shared state.
use native.Mathlib.Decide.{ℕ_discrete}
use mathlib.Core.Option.{Option, none, some}
use ilias_async.Base.{
  ap, sym, ◌∙◌, ◌≤◌, ℕ, ◌+◌, ◌≡◌, ◌≢◌, refl, Bool, true, false, List, [], ◌∷◌, ◌++◌, ◌==◌,
  if◌then◌else◌, arith, ◌⊎◌, inl, inr, Checked, ok, assert_failed, check, Bool-cases,
}
use ilias_async.Future.{
  StateT, uninitialized, uninitialized_deferred, uninitialized_convert, ready_value, ready_exc,
  is_ready, is_uninitialized, Shared, initial, set_ready, exchange_state, clear_deferred,
  clear_convert, mark_convert_present, same, call, is_none, install_callback,
  install_shared_callback, register_dependant, to_list, waiting, invoke_ready_cb, Step, sets_value,
  sets_exc, invokes, clears_deferred, clears_convert, marks_convert, installs, installs_shared,
  registers, Reach, here, next,
}

abbrev pub times : ℕ → List ℕ → ℕ
times c [] = 0
times c (d ∷ ds) = (if c == d then 1 else 0) + times c ds

times-append : (c : ℕ) (ds es : List ℕ) → times c (ds ++ es) ≡ times c ds + times c es
times-append c [] es = omega arith
times-append c (d ∷ ds) es = omega (arith, times-append c ds es)

-- How often a callback waits.
abbrev waits : ℕ → Shared → ℕ
waits c f = times c (to_list f.ready_cb) + times c f.shared_ready_cb + times c f.dependants

record Inv (f : Shared) : Type 0 where
  balance : (c : ℕ) → waits c f + times c f.called ≡ times c f.installed
  idle : is_ready f.state ≡ true → f.firing ≡ 0 → (c : ℕ) → waits c f ≡ 0
  quiet : is_ready f.state ≡ false → f.firing ≡ 0
  early : is_ready f.state ≡ false → (c : ℕ) → times c f.called ≡ 0

outcome : Shared → Checked Shared → Shared
outcome d (ok f) = f
outcome d assert_failed = d

ok-injective : {f g : Shared} → ok f ≡ ok g → f ≡ g
unfolding outcome
ok-injective {f} e = ap (outcome f) e

set_ready-Inv :
    (s : StateT) (v : ℕ) (f : Shared) → is_ready s ≡ true → Inv f → Inv (set_ready s v f).0
unfolding set_ready
set_ready-Inv s v f hs h = elim (Bool-cases (is_uninitialized f.state)) [
  | inl e ↦ rw e (record {
    balance = h.balance;
    idle = λ r z c. absurd (omega (arith, z));
    quiet = λ n. absurd (ground (arith, hs, n));
    early = λ n c. absurd (ground (arith, hs, n));
  })
  | inr e ↦ rw e h
]

checked-Inv : (b : Bool) (f g : Shared) → check b (ok f) ≡ ok g → Inv f → Inv g
checked-Inv true f g e h = rw (sym (ok-injective e)) h
checked-Inv false f g e h = absurd (cc e)

same-is_ready : (s t : StateT) → same s t ≡ true → is_ready s ≡ is_ready t
same-is_ready s t h = ground arith

exchange_state-Inv :
    (s t : StateT) (f : Shared)
    → is_ready s ≡ false
    → is_ready t ≡ false
    → Inv f
    → Inv (exchange_state s t f).0
unfolding exchange_state
exchange_state-Inv s t f hs ht h = elim (Bool-cases (same f.state s)) [
  | inl e ↦ rw e (record {
    balance = h.balance;
    idle = λ r z c. absurd (ground (arith, ht, r));
    quiet = λ n. h.quiet (same-is_ready f.state s e ∙ hs);
    early = λ n c. h.early (same-is_ready f.state s e ∙ hs) c;
  })
  | inr e ↦ rw e h
]

mark_convert_present-Inv : (f g : Shared) → mark_convert_present f ≡ ok g → Inv f → Inv g
unfolding mark_convert_present
mark_convert_present-Inv f g e h =
    checked-Inv (exchange_state uninitialized uninitialized_convert f).1
      (exchange_state uninitialized uninitialized_convert f).0 g e
      (exchange_state-Inv uninitialized uninitialized_convert f refl refl h)

invoke_ready_cb-Inv : (f : Shared) → is_ready f.state ≡ true → Inv f → Inv (invoke_ready_cb f)
unfolding invoke_ready_cb
invoke_ready_cb-Inv f hr h = record {
  balance = λ c. omega (
    arith,
    h.balance c,
    times-append c (to_list f.ready_cb) (f.shared_ready_cb ++ f.dependants),
    times-append c f.shared_ready_cb f.dependants,
    times-append c (waiting f) f.called,
  );
  idle = λ r z c. omega arith;
  quiet = λ n. absurd (ground (arith, hr, n));
  early = λ n c. absurd (ground (arith, hr, n));
}

call-Inv : (c : ℕ) (f : Shared) → is_ready f.state ≡ true → Inv f → Inv (call c f)
call-Inv c f e h = record {
  balance = λ d. omega (arith, h.balance d);
  idle = h.idle;
  quiet = h.quiet;
  early = λ n d. absurd (ground (arith, e, n));
}

install_shared_callback-Inv : (c : ℕ) (f : Shared) → Inv f → Inv (install_shared_callback c f)
unfolding install_shared_callback
install_shared_callback-Inv c f h = elim (Bool-cases (is_ready f.state)) [
  | inl e ↦ rw e (call-Inv c f e h)
  | inr e ↦ rw e (record {
    balance = λ d. omega (arith, h.balance d);
    idle = λ r z d. absurd (ground (arith, e, r));
    quiet = h.quiet;
    early = h.early;
  })
]

register_dependant-Inv : (c : ℕ) (f : Shared) → Inv f → Inv (register_dependant c f)
unfolding register_dependant
register_dependant-Inv c f h = elim (Bool-cases (is_ready f.state)) [
  | inl e ↦ rw e (call-Inv c f e h)
  | inr e ↦ rw e (record {
    balance = λ d. omega (arith, h.balance d, times-append d f.dependants (c ∷ []));
    idle = λ r z d. absurd (ground (arith, e, r));
    quiet = h.quiet;
    early = h.early;
  })
]

none-times : (d : ℕ) (o : Option ℕ) → is_none o ≡ true → times d (to_list o) ≡ 0
none-times d none e = refl
none-times d (some c) e = absurd (cc e)

ready_cb-Inv :
    (c : ℕ) (f : Shared)
    → is_none f.ready_cb ≡ true
    → is_ready f.state ≡ false
    → Inv f
    → Inv (record f { ready_cb = some c; installed = c ∷ f.installed })
ready_cb-Inv c f n e h = record {
  balance = λ d. omega (arith, h.balance d, none-times d f.ready_cb n);
  idle = λ r z d. absurd (ground (arith, e, r));
  quiet = h.quiet;
  early = h.early;
}

installed-Inv :
    (r n : Bool) (c : ℕ) (f g : Shared)
    → is_ready f.state ≡ r
    → is_none f.ready_cb ≡ n
    → (if r
        then ok (call c f)
        else check n (ok (record f { ready_cb = some c; installed = c ∷ f.installed })))
      ≡ ok g
    → Inv f
    → Inv g
installed-Inv true n c f g hr hn e h = rw (sym (ok-injective e)) (call-Inv c f hr h)
installed-Inv false true c f g hr hn e h = rw (sym (ok-injective e)) (ready_cb-Inv c f hn hr h)
installed-Inv false false c f g hr hn e h = absurd (cc e)

install_callback-Inv : (c : ℕ) (f g : Shared) → install_callback c f ≡ ok g → Inv f → Inv g
unfolding install_callback
install_callback-Inv c f g e h =
    installed-Inv (is_ready f.state) (is_none f.ready_cb) c f g refl refl e h

clear_deferred-Inv : (f : Shared) → Inv f → Inv (clear_deferred f).0
unfolding clear_deferred
clear_deferred-Inv f h = exchange_state-Inv uninitialized_deferred uninitialized f refl refl h

clear_convert-Inv : (f : Shared) → Inv f → Inv (clear_convert f).0
unfolding clear_convert
clear_convert-Inv f h = exchange_state-Inv uninitialized_convert uninitialized f refl refl h

firing-is_ready : (f : Shared) → f.firing ≢ 0 → Inv f → is_ready f.state ≡ true
firing-is_ready f n h = elim (Bool-cases (is_ready f.state)) [
  | inl r ↦ r
  | inr r ↦ absurd (n (h.quiet r))
]

Step-Inv : {f g : Shared} → Step f g → Inv f → Inv g
Step-Inv {f} (sets_value v) h = set_ready-Inv ready_value v f refl h
Step-Inv {f} (sets_exc v) h = set_ready-Inv ready_exc v f refl h
Step-Inv {f} (invokes n) h = invoke_ready_cb-Inv f (firing-is_ready f n h) h
Step-Inv {f} clears_deferred h = clear_deferred-Inv f h
Step-Inv {f} clears_convert h = clear_convert-Inv f h
Step-Inv {f} {g} (marks_convert e) h = mark_convert_present-Inv f g e h
Step-Inv {f} {g} (installs c e) h = install_callback-Inv c f g e h
Step-Inv {f} (installs_shared c) h = install_shared_callback-Inv c f h
Step-Inv {f} (registers c) h = register_dependant-Inv c f h

initial-Inv : (deferred : Bool) → Inv (initial deferred)
initial-Inv true = record {
  balance = λ c. refl;
  idle = λ r z c. refl;
  quiet = λ n. refl;
  early = λ n c. refl;
}
initial-Inv false = record {
  balance = λ c. refl;
  idle = λ r z c. refl;
  quiet = λ n. refl;
  early = λ n c. refl;
}

Reach-Inv : {f : Shared} → Reach f → Inv f
Reach-Inv (here deferred) = initial-Inv deferred
Reach-Inv (next r s) = Step-Inv s (Reach-Inv r)

-- However the threads interleave, no callback is called more often than it was handed over; before
-- the state is ready none is called; and once it is ready and no thread has `invoke_ready_cb` still
-- ahead, each has been called as often as it was handed over.
pub callbacks_called :
    {f : Shared} (c : ℕ)
    → Reach f
    → (times c f.called ≤ times c f.installed)
      × (((is_ready f.state ≡ false) × (times c f.called ≡ 0))
          ⊎ ((is_ready f.state ≡ true)
              × ((f.firing ≢ 0) ⊎ (times c f.called ≡ times c f.installed))))
callbacks_called {f} c r =
    let h = Reach-Inv r in
    (
      omega (arith, h.balance c),
      elim (Bool-cases (is_ready f.state)) [
        | inr e ↦ inl (e, h.early e c)
        | inl e ↦ elim (ℕ_discrete f.firing 0) [
          | yes z ↦ inr (e, inr (omega (arith, h.balance c, h.idle e z c)))
          | no n ↦ inr (e, inl n)
        ]
      ],
    )
