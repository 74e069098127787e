-- ===== src/Intf/Multiplexer/Wakeups.antt =====
-- src/threadpool_intf.cc: what becomes of a wakeup.
use ilias_async.Base.{
  ℕ, ◌+◌, ◌-◌, ◌%◌, ◌<◌, ◌≤◌, ◌≡◌, ◌≢◌, refl, ap, ◌∙◌, Bool, true, false, Bool-cases, List, [], ◌∷◌,
  ◌++◌, ◌==◌, if◌then◌else◌, arith, inl, inr,
}
use ilias_async.Intf.{uint}
use ilias_async.Intf.Multiplexer.{
  no, maybe, Multiplexer, mem, erase, post_deactivate, invoke_work, wakeup_loop, woken, wakeup,
  work_on, found, Client, min, wakeup_clients, wakeup_all,
}

erase-append : (x : ℕ) (xs : List ℕ) → mem x xs ≡ false → erase x (xs ++ (x ∷ [])) ≡ xs
erase-append x [] m = let e : (x == x) ≡ true = ground arith in rw e refl
erase-append x (y ∷ ys) m = elim (Bool-cases (x == y)) [
  | inl e ↦ absurd (ground (arith, m, e))
  | inr e ↦ rw e (ap (λ r. y ∷ r) (erase-append x ys (ground (arith, m, e))))
]

mem-end : (x : ℕ) (xs : List ℕ) → mem x (xs ++ (x ∷ [])) ≡ true
mem-end x [] = ground arith
mem-end x (y ∷ ys) = ground (arith, mem-end x ys)

-- The memory after the `wakeup` of a service without work.
abbrev linked : ℕ → Multiplexer → Multiplexer
linked x m = record m { active = m.active ++ (x ∷ []) }

module _ (x : ℕ) where
  wakeup_loop-no : (m : Multiplexer) → m.avail x ≡ no → wakeup_loop [] x maybe m ≡ (m, found no)
  unfolding wakeup_loop
  wakeup_loop-no m e = rw e refl

  invoke_work-no :
      (rv : Bool) (during : Multiplexer → Multiplexer) (m : Multiplexer)
      → m.avail x ≡ no
      → invoke_work x rv during m ≡ (m, false)
  unfolding invoke_work
  invoke_work-no rv during m e = rw (e, invoke_work) refl

  post_deactivate-no : (m : Multiplexer) → m.avail x ≡ no → post_deactivate x m ≡ m
  unfolding post_deactivate
  post_deactivate-no m e = rw (e, post_deactivate) refl

  wakeup-no :
      (impl : ℕ → ℕ) (n : ℕ) (m : Multiplexer)
      → n ≢ 0
      → m.attached x ≡ true
      → m.avail x ≡ no
      → mem x m.active ≡ false
      → wakeup impl [] x n m ≡ (linked x m, impl n)
  unfolding wakeup woken
  wakeup-no impl n m nz at e out =
      let some : (n == 0) ≡ false = ground (arith, nz) in
      let linking : woken impl x n m (found no) ≡ (linked x m, impl n) = rw out refl in
      rw (some, at) (ap (λ r. woken impl x n r.0 r.1) (wakeup_loop-no m e) ∙ linking)

  work_on-no :
      (rv : Bool) (during : Multiplexer → Multiplexer) (m : Multiplexer)
      → m.avail x ≡ no
      → mem x m.active ≡ false
      → work_on x rv during (linked x m) ≡ m
  unfolding work_on
  work_on-no rv during m e out =
      rw
        (
          invoke_work-no rv during (linked x m) e,
          erase-append x m.active out,
          post_deactivate-no m e,
          e,
        )
        refl

-- A service without work is woken: it is then on the list of active services, but when a worker comes
-- to it, the `do_work` of its client is not called, whatever it would do, and the service is off the
-- list; nothing has changed.
pub wakeup_lost :
    (impl : ℕ → ℕ) (n x : ℕ) (m : Multiplexer) (rv : Bool) (during : Multiplexer → Multiplexer)
    → n ≢ 0
    → m.attached x ≡ true
    → m.avail x ≡ no
    → mem x m.active ≡ false
    → (mem x (wakeup impl [] x n m).0.active ≡ true)
      × (work_on x rv during (wakeup impl [] x n m).0 ≡ m)
wakeup_lost impl n x m rv during nz at e out =
    rw (wakeup-no x impl n m nz at e out) (mem-end x m.active, work_on-no x rv during m e out)

abbrev pub without_service : List Client → List Client
without_service [] = []
without_service (c ∷ cs) = if c.has_service then without_service cs else c ∷ without_service cs

wakeup_clients-bound :
    (n rv : ℕ) (cs : List Client)
    → n < uint
    → rv ≤ n
    → ((wakeup_clients n rv cs).0 ≤ n) × ((wakeup_clients n rv cs).1 ≡ without_service cs)
unfolding wakeup_clients
wakeup_clients-bound n rv [] u b = (b, refl)
wakeup_clients-bound n rv (c ∷ cs) u b =
    let more : (rv + min (n - rv) (c.wakes n)) % uint ≤ n = ground (arith, u, b) in
    let (bound, kept) = wakeup_clients-bound n ((rv + min (n - rv) (c.wakes n)) % uint) cs u more in
    (bound, rw kept refl)

-- Waking the clients of a multiplexer: the result is at most `n`, and the clients that have a service
-- are no longer in the list.
pub wakeup_all-bound :
    (n : ℕ) (cs : List Client)
    → n < uint
    → ((wakeup_all true n cs).0 ≤ n) × ((wakeup_all true n cs).1 ≡ without_service cs)
unfolding wakeup_all
wakeup_all-bound n cs u = wakeup_clients-bound n 0 cs u (omega arith)
