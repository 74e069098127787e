-- ===== src/Threadpool/Active.antt =====
-- src/threadpool.cc: the threads that have not ended, and those that sleep.
use ilias_async.Base.{
  ap, ◌∙◌, ℕ, zero, suc, ◌+◌, ◌≤◌, ◌≡◌, refl, Bool, true, false, List, [], ◌∷◌, ltb, ◌==◌,
  if◌then◌else◌, arith, inl, inr, Bool-cases, Checked, ok, assert_failed, ◌⊎◌,
}
use ilias_async.Threadpool.{
  ThreadState, busy, sleep_test, sleep, dying, dead, is_dead, Pool, state_at, set_state, transition,
  wakeup_worker, wakeup_loop, wakeup, marked, erase, leave_idle, finish,
}
use ilias_async.Threadpool.Sizes.{wakeup_worker-idle}
use ilias_async.Threadpool.Accounting.{live, length-set_state, NoneDead, Sound}

abbrev pub not_ended : List ThreadState → ℕ
not_ended [] = 0
not_ended (s ∷ ss) = (if is_dead s then 0 else 1) + not_ended ss

not_ended-set_dead :
    (ss : List ThreadState) (w : ℕ)
    → not_ended (set_state ss w dead) + (if is_dead (state_at ss w) then 0 else 1) ≡ not_ended ss
not_ended-set_dead [] w = refl
not_ended-set_dead (s ∷ ss) zero = omega arith
not_ended-set_dead (s ∷ ss) (suc w) = omega (arith, not_ended-set_dead ss w)

live-set_dead :
    (ss : List ThreadState) (w : ℕ)
    → marked (state_at ss w) ≡ true
    → live (set_state ss w dead) ≡ live ss
live-set_dead [] w h = refl
live-set_dead (s ∷ ss) zero h = ground arith
live-set_dead (s ∷ ss) (suc w) h = omega (arith, live-set_dead ss w h)

state_at-set_other :
    (ss : List ThreadState) (w i : ℕ) (t : ThreadState)
    → (w == i) ≡ false
    → state_at (set_state ss w t) i ≡ state_at ss i
state_at-set_other [] w i t h = refl
state_at-set_other (s ∷ ss) zero zero t h = absurd (ground arith)
state_at-set_other (s ∷ ss) zero (suc i) t h = refl
state_at-set_other (s ∷ ss) (suc w) zero t h = refl
state_at-set_other (s ∷ ss) (suc w) (suc i) t h = state_at-set_other ss w i t (ground arith)

-- A worker that has left the list of idle threads may end.
NoneDead-erase :
    (ss : List ThreadState) (w : ℕ) (is : List ℕ)
    → NoneDead ss is
    → NoneDead (set_state ss w dead) (erase w is)
NoneDead-erase ss w [] h = tt
NoneDead-erase ss w (i ∷ is) h = elim (Bool-cases (w == i)) [
  | inl e ↦ rw e (NoneDead-erase ss w is h.1)
  | inr e ↦ rw e (ap is_dead (state_at-set_other ss w i dead e) ∙ h.0, NoneDead-erase ss w is h.1)
]

pub Ended : ℕ → Checked Pool → Type 0
Ended k assert_failed = ⊥
Ended k (ok q) = (q.n_active ≡ not_ended q.workers) × Sound k q

-- A worker that is about to die leaves the list of idle threads and ends: the assertion on `n_active`
-- holds, `n_active` is again the number of threads that have not ended, and the accounts of the pool
-- stay as they were.
pub finish-Ended :
    (collect : Bool) (k w : ℕ) (p : Pool)
    → state_at p.workers w ≡ dying
    → p.n_active ≡ not_ended p.workers
    → Sound k p
    → Ended k (finish collect w (leave_idle w p))
unfolding finish leave_idle Ended
finish-Ended collect k w p hw ha h =
    let count = not_ended-set_dead p.workers w in
    let alive = ap is_dead hw in
    let some_active : ltb 0 p.n_active ≡ true = ground (arith, count, alive) in
    rw some_active (
      ground (arith, count, alive),
      record {
        accounts = live-set_dead p.workers w (ap marked hw) ∙ h.accounts;
        HasRoom = omega (arith, h.HasRoom, length-set_state p.workers w dead);
        idle_alive = NoneDead-erase p.workers w p.idle h.idle_alive;
      },
    )

abbrev pub sleeps : ThreadState → ℕ
sleeps sleep_test = 1
sleeps sleep = 1
sleeps s = 0

abbrev pub sleepers : List ThreadState → ℕ
sleepers [] = 0
sleepers (s ∷ ss) = sleeps s + sleepers ss

sleepers-set :
    (ss : List ThreadState) (w : ℕ)
    → sleepers (set_state ss w busy) + sleeps (state_at ss w) ≡ sleepers ss
sleepers-set [] w = refl
sleepers-set (s ∷ ss) zero = omega arith
sleepers-set (s ∷ ss) (suc w) = omega (arith, sleepers-set ss w)

wakeup_worker-sleepers :
    (w : ℕ) (p : Pool)
    → sleepers (wakeup_worker w p).0.workers + (if (wakeup_worker w p).1 then 1 else 0)
      ≡ sleepers p.workers
unfolding wakeup_worker transition
wakeup_worker-sleepers w p = ground (arith, sleepers-set p.workers w)

wakeup_loop-exact :
    (n c : ℕ) (is : List ℕ) (p : Pool)
    → p.idle ≡ is
    → c ≤ n
    → ((wakeup_loop n c is p).1 ≤ n)
      × (((wakeup_loop n c is p).1 ≡ n) ⊎ ((wakeup_loop n c is p).0.idle ≡ []))
      × (sleepers (wakeup_loop n c is p).0.workers + (wakeup_loop n c is p).1
          ≡ sleepers p.workers + c)
unfolding wakeup_loop
wakeup_loop-exact n c [] p e h = (h, inr e, refl)
wakeup_loop-exact n c (i ∷ is) p e h =
    let popped = record p { idle = is } in
    let woken = wakeup_worker i popped in
    elim (Bool-cases (ltb c n)) [
      | inr b ↦ rw b (h, inl (ground arith), refl)
      | inl b ↦
          let rest =
            wakeup_loop-exact n (if woken.1 then c + 1 else c) is woken.0
              (wakeup_worker-idle i popped) (ground arith) in
          rw b (rest.0, rest.1, ground (arith, rest.2, wakeup_worker-sleepers i popped))
    ]

-- `wakeup n` wakes at most `n` threads, stops before `n` only where no idle thread is left, and returns
-- by how many the sleeping threads have become fewer.
pub wakeup-exact :
    (n : ℕ) (p : Pool)
    → ((wakeup n p).1 ≤ n)
      × (((wakeup n p).1 ≡ n) ⊎ ((wakeup n p).0.idle ≡ []))
      × (sleepers (wakeup n p).0.workers + (wakeup n p).1 ≡ sleepers p.workers)
unfolding wakeup
wakeup-exact n p =
    let (bound, enough, count) = wakeup_loop-exact n 0 p.idle p refl (omega arith) in
    (bound, enough, omega (arith, count))
