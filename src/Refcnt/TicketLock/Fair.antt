-- ===== src/Refcnt/TicketLock/Fair.antt =====
-- src/refcnt.cc: one thread at a time, in the order of the tickets.
use ilias_async.Base.{
  ℕ, zero, suc, ◌+◌, ◌%◌, ◌<◌, ◌≤◌, ◌≡◌, refl, sym, ap, ◌∙◌, true, false, List, [], ◌∷◌, ◌++◌, ◌==◌,
  is_empty, length, arith,
}
use ilias_async.Refcnt.{uint}
use ilias_async.Refcnt.TicketLock.{
  Lock, draw, member, remove, enter, unlock, Step, draws, enters, leaves, Reach, here, next,
}

-- `n` tickets, from `t` on.
abbrev pub tickets_from : ℕ → ℕ → List ℕ
tickets_from t zero = []
tickets_from t (suc n) = t ∷ tickets_from ((t + 1) % uint) n

length-tickets_from : (t n : ℕ) → length (tickets_from t n) ≡ n
length-tickets_from t zero = refl
length-tickets_from t (suc n) = omega (arith, length-tickets_from ((t + 1) % uint) n)

tickets_from-suc :
    (t n : ℕ) → t < uint → tickets_from t n ++ (((t + n) % uint) ∷ []) ≡ tickets_from t (suc n)
tickets_from-suc t zero h = let e : (t + 0) % uint ≡ t = omega arith in ap (λ x. x ∷ []) e
tickets_from-suc t (suc n) h =
    let u = (t + 1) % uint in
    let e : (t + suc n) % uint ≡ (u + n) % uint = omega arith in
    ap (λ x. t ∷ (tickets_from u n ++ (x ∷ []))) e
    ∙ ap (λ l. t ∷ l) (tickets_from-suc u n (omega arith))

-- A ticket is not drawn twice, as long as fewer are out than there are.
not_member :
    (s d n : ℕ)
    → s < uint
    → 0 < d
    → d + n < uint + 1
    → member s (tickets_from ((s + d) % uint) n) ≡ false
not_member s d zero h p q = refl
not_member s d (suc n) h p q =
    let e : (s == ((s + d) % uint)) ≡ false = ground arith in
    let f : ((s + d) % uint + 1) % uint ≡ (s + (d + 1)) % uint = omega arith in
    rw e (rw f (not_member s (d + 1) n h (omega arith) (omega arith)))

-- The tickets of the `n` waiting threads follow one another, up to the next one to be drawn.
pub record IsQueue (l : Lock) (n : ℕ) : Type 0 where
  pub low : l.start < uint
  pub alone : length l.inside ≤ 1
  pub queue : l.waiting ≡ tickets_from ((l.start + length l.inside) % uint) n
  pub last : l.ticket ≡ (l.start + length l.inside + n) % uint
  pub few : n + length l.inside + 1 < uint

abbrev pub Queued : Lock → Type 0
Queued l = (n : ℕ) × IsQueue l n

draw-Queued :
    (l : Lock) (n : ℕ)
    → IsQueue l n
    → length l.waiting + length l.inside + 2 < uint
    → IsQueue (draw l) (suc n)
unfolding draw
draw-Queued l n q room =
    let f = (l.start + length l.inside) % uint in
    let next : l.ticket ≡ (f + n) % uint = omega (arith, q.last) in
    record {
      low = q.low;
      alone = q.alone;
      queue =
          ap (λ w. w ++ (l.ticket ∷ [])) q.queue
          ∙ ap (λ t. tickets_from f n ++ (t ∷ [])) next
          ∙ tickets_from-suc f n (omega arith);
      last = omega (arith, q.last);
      few = omega (arith, room, ap (λ (w : List ℕ). length w) q.queue, length-tickets_from f n);
    }

-- A thread enters only while no other is inside, and is the one that has waited longest.
enter_at :
    (ticket start : ℕ) (waiting inside : List ℕ) (n : ℕ)
    → IsQueue (record { ticket = ticket; start = start; waiting = waiting; inside = inside }) n
    → member start waiting ≡ true
    → (inside ≡ [])
      × ((m : ℕ) × (waiting ≡ start ∷ tickets_from ((start + 1) % uint) m) × (n ≡ suc m))
enter_at ticket start waiting [] zero q h = absurd (cc (q.queue, h))
enter_at ticket start waiting [] (suc m) q h =
    let e : (start + 0) % uint ≡ start = omega (arith, q.low) in
    (refl, (m, q.queue ∙ ap (λ s. tickets_from s (suc m)) e, refl))
enter_at ticket start waiting (u ∷ us) n q h =
    let none_waits =
      not_member start (suc (length us)) n q.low (omega arith) (omega (arith, q.alone, q.few)) in
    absurd (cc (q.queue, h, none_waits))

remove-first : (t : ℕ) (us : List ℕ) → remove t (t ∷ us) ≡ us
remove-first t us = ground arith

enter-Queued :
    (l : Lock) (n : ℕ) → IsQueue l n → member l.start l.waiting ≡ true → Queued (enter l.start l)
unfolding enter
enter-Queued l n q h =
    let (none_inside, (m, first, size)) = enter_at l.ticket l.start l.waiting l.inside n q h in
    let z : length l.inside ≡ 0 = ap (λ (ts : List ℕ). length ts) none_inside in
    (
      m,
      record {
        low = q.low;
        alone = omega (arith, z);
        queue =
            ap (remove l.start) first
            ∙ remove-first l.start (tickets_from ((l.start + 1) % uint) m)
            ∙ ap (λ k. tickets_from ((l.start + suc k) % uint) m) (sym z);
        last = omega (arith, q.last, z, size);
        few = omega (arith, q.few, size, z);
      },
    )

leave-Queued :
    (l : Lock) (n t : ℕ) (ts : List ℕ)
    → IsQueue l n
    → l.inside ≡ t ∷ ts
    → IsQueue (record (unlock l) { inside = ts }) n
unfolding unlock
leave-Queued l n t ts q h =
    let one : length l.inside ≡ suc (length ts) = ap (λ (us : List ℕ). length us) h in
    let f : (l.start + length l.inside) % uint ≡ ((l.start + 1) % uint + length ts) % uint =
      omega (arith, one) in
    record {
      low = omega arith;
      alone = omega (arith, one, q.alone);
      queue = q.queue ∙ ap (λ s. tickets_from s n) f;
      last = omega (arith, q.last, one);
      few = omega (arith, q.few, one);
    }

Step-Queued : {l m : Lock} → Step l m → Queued l → Queued m
Step-Queued {l} (draws room) (n, q) = (suc n, draw-Queued l n q room)
Step-Queued {l} (enters t h e) (n, q) = rw e (enter-Queued l n q (rw (← e) h))
Step-Queued {l} (leaves t ts e) (n, q) = (n, leave-Queued l n t ts q e)

Reach-Queued : {l : Lock} → Reach l → Queued l
Reach-Queued here = (
  0,
  record { low = omega arith; alone = omega arith; queue = refl; last = refl; few = omega arith },
)
Reach-Queued (next r s) = Step-Queued s (Reach-Queued r)

-- However the threads interleave, and however often the tickets wrap around, at most one thread is
-- inside the lock, while fewer threads than there are tickets use it.
pub one_inside : {l : Lock} → Reach l → length l.inside ≤ 1
one_inside r = (Reach-Queued r).1.alone

head_is : {t u : ℕ} {ts us : List ℕ} → t ∷ ts ≡ u ∷ us → t ≡ u
head_is e = cc e

tail_is : {t u : ℕ} {ts us : List ℕ} → t ∷ ts ≡ u ∷ us → ts ≡ us
tail_is e = cc e

served_at :
    (start k n : ℕ) (t : ℕ) (ts : List ℕ)
    → start < uint
    → k + n < uint
    → t ∷ ts ≡ tickets_from ((start + k) % uint) n
    → ((t == start) ≡ (k == 0)) × (member start ts ≡ false)
served_at start k zero t ts low room e = absurd (cc e)
served_at start k (suc m) t ts low room e =
    let first : t ≡ (start + k) % uint = head_is e in
    let f : ((start + k) % uint + 1) % uint ≡ (start + (k + 1)) % uint = omega arith in
    (
      ground (arith, first),
      rw (tail_is e) (rw f (not_member start (k + 1) m low (omega arith) (omega arith))),
    )

empty-length : (ts : List ℕ) → is_empty ts ≡ (length ts == 0)
empty-length [] = refl
empty-length (t ∷ ts) = ground arith

-- Of the waiting threads, the one that drew its ticket first may go in exactly while nobody is inside,
-- and no other one may.
pub served_in_order :
    {l : Lock} {t : ℕ} {ts : List ℕ}
    → Reach l
    → l.waiting ≡ t ∷ ts
    → ((t == l.start) ≡ is_empty l.inside) × (member l.start ts ≡ false)
served_in_order {l} {t} {ts} r e =
    let (n, q) = Reach-Queued r in
    let (a, b) =
      served_at l.start (length l.inside) n t ts q.low (omega (arith, q.few)) (sym e ∙ q.queue) in
    (a ∙ sym (empty-length l.inside), b)
