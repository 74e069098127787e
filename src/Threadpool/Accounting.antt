-- ===== src/Threadpool/Accounting.antt =====
-- src/threadpool.cc: the accounts of the workers that stay and of those that are to die.

use mathlib.Core.Option.{some}
use ilias_async.Base.{
  ◌∙◌, ℕ, zero, suc, ◌+◌, ◌<◌, ◌≤◌, ◌≡◌, refl, true, false, List, [], ◌∷◌, ◌++◌, if◌then◌else◌,
  arith, length, All, inl, inr, Bool-cases,
}
use ilias_async.Threadpool.{
  ThreadState, busy, sleep_test, sleep, dying, is_dead, same, uint, Pool, state_at, set_state, put,
  transition, wakeup_worker, back, but_back, marked,
}

-- The workers that are not about to die.
abbrev pub live : List ThreadState → ℕ
live [] = 0
live (s ∷ ss) = (if marked s then 0 else 1) + live ss

pub live-append : (ss ts : List ThreadState) → live (ss ++ ts) ≡ live ss + live ts
live-append [] ts = omega arith
live-append (s ∷ ss) ts = omega (arith, live-append ss ts)

pub live-le-length : (ss : List ThreadState) → live ss ≤ length ss
live-le-length [] = omega arith
live-le-length (s ∷ ss) = ground (arith, live-le-length ss)

pub length-set_state :
    (ss : List ThreadState) (w : ℕ) (t : ThreadState) → length (set_state ss w t) ≡ length ss
length-set_state [] w t = refl
length-set_state (s ∷ ss) zero t = refl
length-set_state (s ∷ ss) (suc w) t = omega (arith, length-set_state ss w t)

-- A worker that is about to die does not count, any other does.
pub live-set_mark :
    (ss : List ThreadState) (w : ℕ)
    → live (set_state ss w dying) + (if marked (state_at ss w) then 0 else 1) ≡ live ss
live-set_mark [] w = refl
live-set_mark (s ∷ ss) zero = omega arith
live-set_mark (s ∷ ss) (suc w) = omega (arith, live-set_mark ss w)

pub live-set_same :
    (ss : List ThreadState) (w : ℕ) (t : ThreadState)
    → marked (state_at ss w) ≡ false
    → marked t ≡ false
    → live (set_state ss w t) ≡ live ss
live-set_same [] w t hs ht = refl
live-set_same (s ∷ ss) zero t hs ht = ground arith
live-set_same (s ∷ ss) (suc w) t hs ht = omega (arith, live-set_same ss w t hs ht)

pub same-marked : (s t : ThreadState) → same s t ≡ true → marked s ≡ marked t
same-marked s t h = ground arith

pub is_dead-set :
    (ss : List ThreadState) (w i : ℕ) (t : ThreadState)
    → is_dead t ≡ false
    → is_dead (state_at ss i) ≡ false
    → is_dead (state_at (set_state ss w t) i) ≡ false
is_dead-set [] w i t ht h = h
is_dead-set (s ∷ ss) zero zero t ht h = ht
is_dead-set (s ∷ ss) zero (suc i) t ht h = h
is_dead-set (s ∷ ss) (suc w) zero t ht h = h
is_dead-set (s ∷ ss) (suc w) (suc i) t ht h = is_dead-set ss w i t ht h

-- No worker of the list is dead.
abbrev pub NoneDead : List ThreadState → List ℕ → Type 0
NoneDead ss is = All (λ i. is_dead (state_at ss i) ≡ false) is

pub NoneDead-set :
    (ss : List ThreadState) (w : ℕ) (t : ThreadState) (is : List ℕ)
    → is_dead t ≡ false
    → NoneDead ss is
    → NoneDead (set_state ss w t) is
NoneDead-set ss w t [] ht h = tt
NoneDead-set ss w t (i ∷ is) ht h = (is_dead-set ss w i t ht h.0, NoneDead-set ss w t is ht h.1)

state_at-append-not_dead :
    (ss ts : List ThreadState) (i : ℕ)
    → is_dead (state_at ss i) ≡ false
    → is_dead (state_at (ss ++ ts) i) ≡ false
state_at-append-not_dead [] ts i h = ground arith
state_at-append-not_dead (s ∷ ss) ts zero h = h
state_at-append-not_dead (s ∷ ss) ts (suc i) h = state_at-append-not_dead ss ts i h

pub NoneDead-append :
    (ss ts : List ThreadState) (is : List ℕ) → NoneDead ss is → NoneDead (ss ++ ts) is
NoneDead-append ss ts [] h = tt
NoneDead-append ss ts (i ∷ is) h =
    (state_at-append-not_dead ss ts i h.0, NoneDead-append ss ts is h.1)

pub NoneDead-but_back :
    (ss : List ThreadState) (is : List ℕ) → NoneDead ss is → NoneDead ss (but_back is)
NoneDead-but_back ss [] h = tt
NoneDead-but_back ss (i ∷ []) h = tt
NoneDead-but_back ss (i ∷ j ∷ is) h = (h.0, NoneDead-but_back ss (j ∷ is) h.1)

pub back-not_dead :
    (ss : List ThreadState) (is : List ℕ) (w : ℕ)
    → NoneDead ss is
    → back is ≡ some w
    → is_dead (state_at ss w) ≡ false
back-not_dead ss [] w h e = absurd (cc e)
back-not_dead ss (i ∷ []) w h e = ground (arith, h.0)
back-not_dead ss (i ∷ j ∷ is) w h e = back-not_dead ss (j ∷ is) w h.1 e

-- The workers that stay are as many as the threads that the pool is to have, those that exceed it, and
-- `k` whose deaths a thread has taken off the counter but not carried out.
pub record Sound (k : ℕ) (p : Pool) : Type 0 where
  pub accounts : live p.workers ≡ p.n_threads + p.n_oversize + k
  pub HasRoom : length p.workers < uint
  pub idle_alive : NoneDead p.workers p.idle

put-Sound :
    (k w : ℕ) (t : ThreadState) (p : Pool)
    → marked (state_at p.workers w) ≡ false
    → marked t ≡ false
    → is_dead t ≡ false
    → Sound k p
    → Sound k (put w t p)
put-Sound k w t p hs ht hd h = record {
  accounts = omega (arith, live-set_same p.workers w t hs ht, h.accounts);
  HasRoom = omega (arith, length-set_state p.workers w t, h.HasRoom);
  idle_alive = NoneDead-set p.workers w t p.idle hd h.idle_alive;
}

pub transition-Sound :
    (k w : ℕ) (s t : ThreadState) (p : Pool)
    → marked s ≡ false
    → marked t ≡ false
    → is_dead t ≡ false
    → Sound k p
    → Sound k (transition w s t p).0
unfolding transition
transition-Sound k w s t p hs ht hd h = elim (Bool-cases (same (state_at p.workers w) s)) [
  | inl e ↦ rw e (put-Sound k w t p (same-marked (state_at p.workers w) s e ∙ hs) ht hd h)
  | inr e ↦ rw e h
]

pub wakeup_worker-Sound : (k w : ℕ) (p : Pool) → Sound k p → Sound k (wakeup_worker w p).0
unfolding wakeup_worker
wakeup_worker-Sound k w p h = elim (Bool-cases (transition w sleep_test busy p).1) [
  | inl e ↦ rw e (transition-Sound k w sleep_test busy p refl refl refl h)
  | inr e ↦ rw e (transition-Sound k w sleep busy p refl refl refl h)
]
