-- ===== src/Workq/Service/Aid/Idle.antt =====
-- src/workq.cc: `aid` of a service while its coroutines have no function left.
use mathlib.Core.Path.{subst}
use ilias_async.LlList.Memory.{Run, returns, fails, runs_on, ◌>>=◌}
use ilias_async.LlList.Iterator.{
  Ring, on, at_spot, elements, begin, forward_to, increment, take_out, member,
}
use ilias_async.Base.{
  ℕ, zero, suc, ◌+◌, ◌<◌, ◌≡◌, refl, ap, ◌∙◌, sym, Bool, true, List, [], ◌∷◌, ltb, length, arith,
}
use native.Mathlib.Decide.{ℕ_discrete}
use ilias_async.Workq.Service.Coroutines.Finished.{
  Spent, HasRoom, Same, ended, co_run-ended, ended-co_runq, ended-Spent, ended-Same, ended-HasRoom,
  Same-trans,
}
use ilias_async.Workq.Service.{Service, Aided}
use ilias_async.Workq.Service.Aid.{Client, co_loop, aid_loop, aid}

-- The coroutines of a queue have no function left.
abbrev pub AllSpent : List ℕ → Service → Type 0
AllSpent a s = (i : ℕ) → member i a ≡ true → Spent (length a) (s.coroutines i).run

-- The queue is empty, and the index has not moved.
abbrev RoundEnd : Service → ℕ → Aided → Type 0
RoundEnd s i (returns (t, j)) = (j ≡ i) × (elements t.co_runq ≡ []) × Same s t
RoundEnd s i fails = ⊥
RoundEnd s i runs_on = ⊥

RoundEnd-trans : (s t : Service) (i : ℕ) (r : Aided) → Same s t → RoundEnd t i r → RoundEnd s i r
RoundEnd-trans s t i (returns (u, j)) h (e, q, k) = (e, q, Same-trans s t u h k)
RoundEnd-trans s t i fails h k = k
RoundEnd-trans s t i runs_on h k = k

-- The iterator goes on to the next one after its element was taken out.
next_one : (x : ℕ) (a : List ℕ) → increment (take_out x (at_spot [] (on x) a)) ≡ forward_to [] a
unfolding increment take_out ℕ_discrete
next_one x a = ground arith

abbrev facing : List ℕ → Service → Service
facing a s = record s { co_runq = forward_to [] a }

from_facing : (a : List ℕ) (s t : Service) → Same (facing a s) t → Same s t
from_facing a s t h = record { runs = h.runs; locks = h.locks; called = h.called }

after_one :
    (x : ℕ) (a : List ℕ) (s : Service)
    → let t = ended x (facing (x ∷ a) s) in record t { co_runq = increment t.co_runq } ≡ facing a t
unfolding forward_to
after_one x a s =
    let u = facing (x ∷ a) s in
    ap (λ (r : Ring). record (ended x u) { co_runq = r })
      (ap increment (ended-co_runq x u) ∙ next_one x a)

module _ (c : Client) (count i : ℕ) (left : ltb i count ≡ true) where
  co_loop-spent :
      (fuel : ℕ) (a : List ℕ) (s : Service)
      → length a < fuel
      → AllSpent a s
      → HasRoom s
      → RoundEnd s i (co_loop c count fuel (facing a s) i)
  unfolding co_loop forward_to
  co_loop-spent zero a s h spent room = elim h [ ]
  co_loop-spent (suc fuel) [] s h spent room =
      (refl, refl, record { runs = refl; locks = λ w. refl; called = λ k. refl })
  co_loop-spent (suc zero) (x ∷ a) s h spent room = absurd (omega (arith, h))
  co_loop-spent (suc (suc fuel)) (x ∷ a) s h spent room =
      let u = facing (x ∷ a) s in
      let t = ended x u in
      let mine = spent x (ground arith) in
      rw (left, co_run-ended c.functions fuel (length a) x u mine room, co_loop)
        (subst (λ v. RoundEnd s i (co_loop c count (suc fuel) v i)) (sym (after_one x a s))
          (RoundEnd-trans s t i (co_loop c count (suc fuel) (facing a t) i)
            (from_facing (x ∷ a) s t (ended-Same (length a) x u mine))
            (co_loop-spent (suc fuel) a t (omega (arith, h))
              (λ k m. ended-Spent (length a) x k u mine (spent k (ground (arith, m))))
              (ended-HasRoom x u room))))

-- The call says that it has run something; it has only emptied the queue of the coroutines.
abbrev pub Pretends : Service → Run (Service × Bool) → Type 0
Pretends s (returns (t, b)) = (b ≡ true) × (elements t.co_runq ≡ []) × Same s t
Pretends s fails = ⊥
Pretends s runs_on = ⊥

then_ends :
    (c : Client) (fuel : ℕ) (s : Service) (r : Aided)
    → RoundEnd s 0 r
    → Pretends s
        ((r >>= λ (t, j). aid_loop c 1 (suc fuel) t (j + 1)) >>= λ (u, k). returns (u, ltb 0 k))
unfolding aid_loop
then_ends c fuel s (returns (t, j)) (e, q, h) = rw e (refl, q, h)
then_ends c fuel s fails h = h
then_ends c fuel s runs_on h = h

-- While coroutines are queued that have no function left, `aid` with its default argument 1 comes
-- back, with fuel for each of them: it takes them all off their queue, leaves the run locks of the
-- workqs as they were, calls no function and runs no job, also where workqs have some, and says that
-- it has run something. The counts of these coroutines are not at 0, their run locks are held, and
-- their counts and those of the workqs have room.
pub aid-Pretends :
    (c : Client) (fuel x : ℕ) (xs : List ℕ) (s : Service)
    → elements s.co_runq ≡ x ∷ xs
    → AllSpent (x ∷ xs) s
    → HasRoom s
    → length (x ∷ xs) < fuel
    → Pretends s (aid c (suc fuel) 1 s)
unfolding aid aid_loop begin forward_to
aid-Pretends c zero x xs s e spent room h = absurd (omega (arith, h))
aid-Pretends c (suc fuel) x xs s e spent room h =
    rw (e, aid_loop, aid, Pretends)
      (then_ends c fuel s
        (co_loop c 1 (suc fuel) (record s { co_runq = begin (elements s.co_runq) }) 0)
        (subst (λ ys. RoundEnd s 0 (co_loop c 1 (suc fuel) (record s { co_runq = begin ys }) 0))
          (sym e) (co_loop-spent c 1 0 refl (suc fuel) (x ∷ xs) s h spent room)))
