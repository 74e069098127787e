-- ===== src/LlList/Tests.antt =====
-- Runs of a list with the head at 1.
use ilias_async.Base.{◌≡◌, refl, true, false, ◌==◌, if◌then◌else◌, List, [], ◌∷◌, arith}
use ilias_async.LlList.Memory.{Memory, s_plain, p_plain, head, element, iterator, returns}
use ilias_async.LlList.Chain.{Chain}
use ilias_async.LlList.Position.{Position, link_around}
use ilias_async.LlList.Around.{Between, link_around-Chain}
use ilias_async.LlList.Refine.{Represents, Yields}
use ilias_async.LlList.Whole.{new_elem, new_list, new_list-Represents}
use ilias_async.LlList.Program.{
  Call, Result, calls, call_link_front, call_link_back, call_pop_front, call_pop_back, call_empty,
  answer, popped, deques, deque, AreCalls, run_refines,
}

abbrev some_calls : List Call
some_calls =
    call_link_back 3
    ∷ call_link_front 2
    ∷ call_link_back 2
    ∷ call_link_back 4
    ∷ call_pop_front
    ∷ call_pop_back
    ∷ call_empty
    ∷ call_pop_back
    ∷ call_pop_front
    ∷ call_empty
    ∷ call_link_back 4
    ∷ []

abbrev some_results : List Result
some_results =
    answer true
    ∷ answer true
    ∷ answer false
    ∷ answer true
    ∷ popped 2
    ∷ popped 4
    ∷ answer false
    ∷ popped 3
    ∷ popped 0
    ∷ answer true
    ∷ answer true
    ∷ []

deques_test : deques some_calls [] ≡ (4 ∷ [], some_results)
unfolding deques deque
deques_test = refl

some_calls-AreCalls : AreCalls 1 some_calls
some_calls-AreCalls = (
  (omega arith, omega arith),
  (
    (omega arith, omega arith),
    (
      (omega arith, omega arith),
      (
        (omega arith, omega arith),
        (tt, (tt, (tt, (tt, (tt, (tt, ((omega arith, omega arith), tt))))))),
      ),
    ),
  ),
)

run_refines_example :
    Yields (λ k. Represents 1 k (4 ∷ [])) some_results (calls 1 1 some_calls (new_list 1))
unfolding deques deque
run_refines_example =
    run_refines 0 1 some_calls (new_list 1) [] some_calls-AreCalls
      (new_list-Represents 1 (omega arith))

-- A list with the element 2, and a position of the iterators 3 and 4.
abbrev with_position : Memory
with_position e =
    if e == 1
    then record { succ = s_plain 2; pred = p_plain 2; kind = head; linking = false }
    else if e == 2
    then record { succ = s_plain 1; pred = p_plain 1; kind = element; linking = false }
    else new_elem iterator

abbrev unused : Position
unused = record { pos_first = 3; pos_second = 4; swap = true }

with_position-Between : Between with_position 2 1 2 1 3 4
with_position-Between = record {
  a_nonzero = omega arith;
  x_nonzero = omega arith;
  b_nonzero = omega arith;
  c_nonzero = omega arith;
  f_nonzero = omega arith;
  a_x = omega arith;
  x_b = omega arith;
  f_a = omega arith;
  f_x = omega arith;
  f_b = omega arith;
  k_a = omega arith;
  k_x = omega arith;
  k_b = omega arith;
  k_f = omega arith;
  before = (refl, refl, (refl, refl));
  first_pred = refl;
  f_free = record { succ_free = refl; pred_free = refl; not_linking = refl };
  k_free = record { succ_free = refl; pred_free = refl; not_linking = refl };
}

link_around-Chain_example :
    (m : Memory) × (link_around 1 2 unused with_position
      ≡ returns (m, record unused { swap = false }, true))
    × Chain m 1 (4 ∷ 2 ∷ 3 ∷ []) 1
link_around-Chain_example = link_around-Chain 0 with_position unused 2 1 2 1 with_position-Between
