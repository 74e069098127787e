-- ===== src/Threadpool/Resize.antt =====
-- src/threadpool.cc: `set_nthreads`, that grows and shrinks the pool.
use mathlib.Core.Option.{Option, none, some}
use ilias_async.Base.{
  ◌∙◌, ℕ, zero, suc, ◌+◌, ◌-◌, ◌≤◌, ◌≡◌, refl, Bool, false, List, [], ◌∷◌, ltb, if◌then◌else◌,
  arith, length, length-append, inl, inr, Bool-cases, Checked, ok, assert_failed, ◌⊎◌, leb, not,
}
use ilias_async.Threadpool.{
  ThreadState, busy, dying, is_dead, Pool, state_at, set_state, put, killed, kill, min,
  create_worker, grow, back, but_back, kill_idle, kill_self, marked,
}
use ilias_async.Threadpool.Accounting.{
  live, live-append, length-set_state, live-set_mark, is_dead-set, NoneDead, NoneDead-set,
  NoneDead-but_back, NoneDead-append, back-not_dead, Sound,
}

create_worker-live : (p : Pool) → live (create_worker p).workers ≡ live p.workers + 1
unfolding create_worker
create_worker-live p = omega (arith, live-append p.workers (busy ∷ []))

create_worker-length : (p : Pool) → length (create_worker p).workers ≡ length p.workers + 1
unfolding create_worker
create_worker-length p = omega (arith, length-append p.workers (busy ∷ []))

create_worker-n_threads : (p : Pool) → (create_worker p).n_threads ≡ p.n_threads
unfolding create_worker
create_worker-n_threads p = refl

create_worker-n_oversize : (p : Pool) → (create_worker p).n_oversize ≡ p.n_oversize
unfolding create_worker
create_worker-n_oversize p = refl

create_worker-idle_alive :
    (p : Pool)
    → NoneDead p.workers p.idle
    → NoneDead (create_worker p).workers (create_worker p).idle
unfolding create_worker
create_worker-idle_alive p h = NoneDead-append p.workers (busy ∷ []) p.idle h

-- What the growing loop creates, of `m` workers that are missing, before a creation throws.
pub record Grown (m room : ℕ) (p : Pool) (r : Pool × Bool) : Type 0 where
  pub lives : live r.0.workers ≡ live p.workers + min m room
  pub lengths : length r.0.workers ≡ length p.workers + min m room
  pub threads : r.0.n_threads ≡ p.n_threads
  pub oversize : r.0.n_oversize ≡ p.n_oversize
  pub returns : r.1 ≡ leb m room
  pub idle_alive : NoneDead r.0.workers r.0.idle

pub grow-Grown :
    (m room : ℕ) (p : Pool) → NoneDead p.workers p.idle → Grown m room p (grow m room p)
unfolding grow
grow-Grown zero room p h = record {
  lives = ground arith;
  lengths = ground arith;
  threads = refl;
  oversize = refl;
  returns = ground arith;
  idle_alive = h;
}
grow-Grown (suc m) zero p h = record {
  lives = ground arith;
  lengths = ground arith;
  threads = refl;
  oversize = refl;
  returns = ground arith;
  idle_alive = h;
}
grow-Grown (suc m) (suc room) p h =
    let r = grow-Grown m room (create_worker p) (create_worker-idle_alive p h) in
    record {
      lives = ground (arith, r.lives, create_worker-live p);
      lengths = ground (arith, r.lengths, create_worker-length p);
      threads = r.threads ∙ create_worker-n_threads p;
      oversize = r.oversize ∙ create_worker-n_oversize p;
      returns = ground (arith, r.returns);
      idle_alive = r.idle_alive;
    }

killed-not_dead : (s : ThreadState) → is_dead s ≡ false → killed s ≡ ok (not (marked s))
killed-not_dead s h = ground arith

kill-not_dead :
    (w : ℕ) (p : Pool)
    → is_dead (state_at p.workers w) ≡ false
    → kill w p ≡ ok (put w dying p, not (marked (state_at p.workers w)))
unfolding kill
kill-not_dead w p h = rw (killed-not_dead (state_at p.workers w) h) refl

pub put_dying-Sound :
    (k j w : ℕ) (p : Pool)
    → k ≡ j + (if marked (state_at p.workers w) then 0 else 1)
    → Sound k p
    → Sound j (put w dying p)
put_dying-Sound k j w p e h = record {
  accounts = omega (arith, h.accounts, live-set_mark p.workers w, e);
  HasRoom = omega (arith, h.HasRoom, length-set_state p.workers w dying);
  idle_alive = NoneDead-set p.workers w dying p.idle refl h.idle_alive;
}

-- The thread that resizes the pool is alive.
abbrev pub SelfAlive : Option ℕ → List ThreadState → Type 0
SelfAlive none ss = Unit
SelfAlive (some w) ss = is_dead (state_at ss w) ≡ false

SelfAlive-put :
    (self : Option ℕ) (w : ℕ) (ss : List ThreadState)
    → SelfAlive self ss
    → SelfAlive self (set_state ss w dying)
SelfAlive-put none w ss h = tt
SelfAlive-put (some v) w ss h = is_dead-set ss w v dying refl h

-- How the shrinking of a pool to `n` threads stands: `old - n` workers have still to die.
unfoldable pub Standing : Option ℕ → ℕ → ℕ → Checked (Pool × ℕ) → Type 0
Standing self k n assert_failed = ⊥
Standing self k n (ok (q, old)) =
    (n ≤ old) × (q.n_threads ≡ n) × Sound (k + (old - n)) q × SelfAlive self q.workers

Option-cases : (o : Option ℕ) → (o ≡ none) ⊎ ((i : ℕ) × (o ≡ some i))
Option-cases none = inl refl
Option-cases (some i) = inr (i, refl)

pub kill_idle-Standing :
    (self : Option ℕ) (k n turns old : ℕ) (p : Pool)
    → n ≤ old
    → p.n_threads ≡ n
    → Sound (k + (old - n)) p
    → SelfAlive self p.workers
    → Standing self k n (kill_idle turns old n p)
unfolding kill_idle Standing
kill_idle-Standing self k n zero old p hn ht h hs = (hn, ht, h, hs)
kill_idle-Standing self k n (suc turns) old p hn ht h hs = elim (Bool-cases (ltb n old)) [
  | inr b ↦ rw b (hn, ht, h, hs)
  | inl b ↦ rw b (elim (Option-cases (back p.idle)) [
    | inl e ↦ rw e (hn, ht, h, hs)
    | inr (i, e) ↦
        let awake = back-not_dead p.workers p.idle i h.idle_alive e in
        rw (e, kill-not_dead i (record p { idle = but_back p.idle }) awake)
          (kill_idle-Standing self k n turns
            (if not (marked (state_at p.workers i)) then old - 1 else old)
            (put i dying (record p { idle = but_back p.idle })) (ground arith) ht
            (put_dying-Sound (k + (old - n))
              (k + ((if not (marked (state_at p.workers i)) then old - 1 else old) - n)) i
              (record p { idle = but_back p.idle }) (ground arith)
              (record {
                accounts = h.accounts;
                HasRoom = h.HasRoom;
                idle_alive = NoneDead-but_back p.workers p.idle h.idle_alive;
              }))
            (SelfAlive-put self i p.workers hs))
  ])
]

pub kill_self-Standing :
    (self : Option ℕ) (k n old : ℕ) (p : Pool)
    → n ≤ old
    → p.n_threads ≡ n
    → Sound (k + (old - n)) p
    → SelfAlive self p.workers
    → Standing self k n (kill_self self old n p)
unfolding kill_self Standing
kill_self-Standing none k n old p hn ht h hs = (hn, ht, h, hs)
kill_self-Standing (some w) k n old p hn ht h hs = elim (Bool-cases (ltb n old)) [
  | inr b ↦ rw b (hn, ht, h, hs)
  | inl b ↦
      rw (b, kill-not_dead w p hs)
        (
          ground arith,
          ht,
          put_dying-Sound (k + (old - n))
              (k + ((if not (marked (state_at p.workers w)) then old - 1 else old) - n)) w p
              (ground arith) h,
          is_dead-set p.workers w w dying refl hs,
        )
]
