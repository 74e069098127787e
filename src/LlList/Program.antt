-- ===== src/LlList/Program.antt =====
-- src/ll_list.cc: a list and a deque, through any calls of their operations.
use ilias_async.Base.{ℕ, suc, ◌≢◌, refl, ap, Bool, true, false, List, [], ◌∷◌}
use ilias_async.LlList.Memory.{Memory, Run, returns, fails, runs_on, ◌>>=◌}
use ilias_async.LlList.Ops.{link_front, link_back, pop_front, pop_back, empty}
use ilias_async.LlList.Refine.{Represents, Yields}
use ilias_async.LlList.Deque.{
  insert_front, insert_back, link_front-Represents, link_back-Represents,
}
use ilias_async.LlList.Pops.{
  take_front, take_back, pop_front-Represents, pop_back-Represents, empty-Represents,
}

-- The calls of a client, and what they return: a Boolean, or an element or 0.
pub data Call : Type 0 where
  call_link_front call_link_back : ℕ → Call
  call_pop_front call_pop_back call_empty : Call

pub data Result : Type 0 where
  answer : Bool → Result
  popped : ℕ → Result

-- One call, on the list with the head `hd`.
unfoldable pub call : ℕ → ℕ → Call → Memory → Run (Memory × Result)
unfolding link_front link_back pop_front pop_back empty
call fuel hd (call_link_front x) h = link_front fuel hd x h >>= λ (k, b). returns (k, answer b)
call fuel hd (call_link_back x) h = link_back fuel hd x h >>= λ (k, b). returns (k, answer b)
call fuel hd call_pop_front h = pop_front fuel hd h >>= λ (k, e). returns (k, popped e)
call fuel hd call_pop_back h = pop_back fuel hd h >>= λ (k, e). returns (k, popped e)
call fuel hd call_empty h = empty fuel hd h >>= λ b. returns (h, answer b)

unfoldable pub calls : ℕ → ℕ → List Call → Memory → Run (Memory × List Result)
unfolding call
calls fuel hd [] h = returns (h, [])
calls fuel hd (c ∷ cs) h =
    call fuel hd c h >>= λ (k, r). calls fuel hd cs k >>= λ (m, rs). returns (m, r ∷ rs)

-- The same calls on a deque: a sequence that has no element twice.
unfoldable pub deque : Call → List ℕ → List ℕ × Result
deque (call_link_front x) xs = let (ys, b) = insert_front x xs in (ys, answer b)
deque (call_link_back x) xs = let (ys, b) = insert_back x xs in (ys, answer b)
deque call_pop_front xs = let (ys, e) = take_front xs in (ys, popped e)
deque call_pop_back xs = let (ys, e) = take_back xs in (ys, popped e)
deque call_empty xs = (xs, answer (elim xs [ [] ↦ true | (y ∷ ys) ↦ false ]))

unfoldable pub deques : List Call → List ℕ → List ℕ × List Result
unfolding deque
deques [] xs = (xs, [])
deques (c ∷ cs) xs = let (ys, r) = deque c xs in let (zs, rs) = deques cs ys in (zs, r ∷ rs)

-- Only elements are linked, and never the head.
abbrev pub IsCall : ℕ → Call → Type 0
IsCall hd (call_link_front x) = (x ≢ 0) × (x ≢ hd)
IsCall hd (call_link_back x) = (x ≢ 0) × (x ≢ hd)
IsCall hd c = Unit

abbrev pub AreCalls : ℕ → List Call → Type 0
AreCalls hd [] = Unit
AreCalls hd (c ∷ cs) = IsCall hd c × AreCalls hd cs

pub Yields-then :
    {A B : Type 0} (P : Memory → Type 0) (a : A) (m : Run (Memory × A)) (f : A → B)
    → Yields P a m
    → Yields P (f a) (m >>= λ (k, x). returns (k, f x))
unfolding Yields
Yields-then P a (returns (h, x)) f (e, p) = (ap f e, p)
Yields-then P a fails f y = y
Yields-then P a runs_on f y = y

call-refines :
    (fuel hd : ℕ) (c : Call) (h : Memory) (xs : List ℕ)
    → IsCall hd c
    → Represents hd h xs
    → Yields (λ k. Represents hd k (deque c xs).0) (deque c xs).1 (call (suc fuel) hd c h)
unfolding Yields call deque
call-refines fuel hd (call_link_front x) h xs n r =
    Yields-then (λ k. Represents hd k (insert_front x xs).0) (insert_front x xs).1
      (link_front (suc fuel) hd x h) answer (link_front-Represents hd fuel x h xs n.0 n.1 r)
call-refines fuel hd (call_link_back x) h xs n r =
    Yields-then (λ k. Represents hd k (insert_back x xs).0) (insert_back x xs).1
      (link_back (suc fuel) hd x h) answer (link_back-Represents hd fuel x h xs n.0 n.1 r)
call-refines fuel hd call_pop_front h xs n r =
    Yields-then (λ k. Represents hd k (take_front xs).0) (take_front xs).1
      (pop_front (suc fuel) hd h) popped (pop_front-Represents hd fuel h xs r)
call-refines fuel hd call_pop_back h xs n r =
    Yields-then (λ k. Represents hd k (take_back xs).0) (take_back xs).1 (pop_back (suc fuel) hd h)
      popped (pop_back-Represents hd fuel h xs r)
call-refines fuel hd call_empty h xs n r = rw (empty-Represents hd (suc fuel) h xs r) (refl, r)

then-calls :
    (fuel hd : ℕ) (cs : List Call) (r : Result) (ys : List ℕ) (m : Run (Memory × Result))
    → Yields (λ k. Represents hd k ys) r m
    → ((k : Memory)
        → Represents hd k ys
        → Yields (λ j. Represents hd j (deques cs ys).0) (deques cs ys).1 (calls fuel hd cs k))
    → Yields
        (λ j. Represents hd j (deques cs ys).0)
        (r ∷ (deques cs ys).1)
        (m >>= λ (k, s). calls fuel hd cs k >>= λ (j, rs). returns (j, s ∷ rs))
unfolding Yields
then-calls fuel hd cs r ys (returns (k, s)) (e, p) f = rw e (
    Yields-then (λ j. Represents hd j (deques cs ys).0) (deques cs ys).1 (calls fuel hd cs k)
      (λ (rs : List Result). r ∷ rs) (f k p))
then-calls fuel hd cs r ys fails y f = absurd y
then-calls fuel hd cs r ys runs_on y f = absurd y

-- Of any calls, with fuel for one turn of each loop: all return what they return on a deque, none
-- fails an assertion, and in the end the memory holds the elements of the deque.
pub run_refines :
    (fuel hd : ℕ) (cs : List Call) (h : Memory) (xs : List ℕ)
    → AreCalls hd cs
    → Represents hd h xs
    → Yields (λ k. Represents hd k (deques cs xs).0) (deques cs xs).1 (calls (suc fuel) hd cs h)
unfolding Yields calls deques
run_refines fuel hd [] h xs n r = (refl, r)
run_refines fuel hd (c ∷ cs) h xs n r =
    then-calls (suc fuel) hd cs (deque c xs).1 (deque c xs).0 (call (suc fuel) hd c h)
      (call-refines fuel hd c h xs n.0 r) (λ k q. run_refines fuel hd cs k (deque c xs).0 n.1 q)
