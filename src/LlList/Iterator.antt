-- ===== src/LlList/Iterator.antt =====
-- include/ilias/ll_list-inl.h: `ll_smartptr_list` and its iterators, on the sequence of the elements. One
-- iterator stands in the list; what other threads do is not in it.
pub mod Visits
pub mod Removes
mod Tests
use mathlib.Core.Option.{Option, none, some}
use ilias_async.LlList.Memory.{Run, returns, fails, runs_on, ◌>>=◌}
use ilias_async.Base.{
  ℕ, zero, suc, ◌+◌, Bool, true, false, not, List, [], ◌∷◌, ◌++◌, ◌==◌, if◌then◌else◌, Checked, ok,
  assert_failed, is_empty,
}

-- Where `pos_` is: around an element, between two elements, or around the head.
pub data Spot : Type 0 where
  on : ℕ → Spot
  gap at_head : Spot

-- The elements before the iterator and after it, each from the nearest on, and its `ptr_`. An iterator
-- around the head has all elements after it.
pub record Ring : Type 0 where
  pub behind : List ℕ
  pub spot : Spot
  pub ahead : List ℕ
  pub ptr : Option ℕ

abbrev pub rewind : List ℕ → List ℕ → List ℕ
rewind [] ys = ys
rewind (x ∷ xs) ys = rewind xs (x ∷ ys)

abbrev pub spot_onto : Spot → List ℕ → List ℕ
spot_onto (on x) xs = x ∷ xs
spot_onto gap xs = xs
spot_onto at_head xs = xs

-- The list, front first.
abbrev pub elements : Ring → List ℕ
elements r = rewind r.behind (spot_onto r.spot r.ahead)

-- The element of a position, from which `operator++` takes `ptr_`.
abbrev pub spot_ptr : Spot → Option ℕ
spot_ptr (on x) = some x
spot_ptr gap = none
spot_ptr at_head = none

abbrev pub at_spot : List ℕ → Spot → List ℕ → Ring
at_spot b s a = record { behind = b; spot = s; ahead = a; ptr = spot_ptr s }

-- `begin` and `end`. In an empty list `begin` is not around the head but after it.
unfoldable pub begin : List ℕ → Ring
begin [] = at_spot [] gap []
begin (x ∷ xs) = at_spot [] (on x) xs

unfoldable pub end : List ℕ → Ring
end xs = at_spot [] at_head xs

-- `begin() const`, which converts the element without a test: `as_type_` asserts that it is not the
-- head.
unfoldable pub const_begin : List ℕ → Checked Ring
const_begin [] = assert_failed
const_begin (x ∷ xs) = ok (at_spot [] (on x) xs)

-- `cend`
unfoldable pub cend : List ℕ → Checked Ring
unfolding const_begin
cend xs = const_begin xs

-- `operator++` and `operator--`
unfoldable pub forward_to : List ℕ → List ℕ → Ring
forward_to b [] = at_spot [] at_head (rewind b [])
forward_to b (y ∷ ys) = at_spot b (on y) ys

unfoldable pub increment : Ring → Ring
unfolding forward_to
increment r = forward_to (spot_onto r.spot r.behind) r.ahead

unfoldable pub backward_to : List ℕ → List ℕ → Ring
backward_to [] a = at_spot [] at_head a
backward_to (y ∷ ys) a = at_spot ys (on y) a

unfoldable pub decrement_from : Spot → Ring → Ring
unfolding backward_to
decrement_from at_head r = backward_to (rewind r.ahead []) []
decrement_from (on x) r = backward_to r.behind (x ∷ r.ahead)
decrement_from gap r = backward_to r.behind r.ahead

unfoldable pub decrement : Ring → Ring
unfolding decrement_from
decrement r = decrement_from r.spot r

-- `operator++(int)`: the iterator afterwards, and the result.
unfoldable pub post_increment : Ring → Ring × Ring
unfolding increment
post_increment r = (r, increment r)

-- `operator*`
unfoldable pub dereference : Ring → Checked ℕ
dereference r = elim r.ptr [ some x ↦ ok x | none ↦ assert_failed ]

-- `release`
unfoldable pub release : Ring → Ring × Option ℕ
release r = (record r { ptr = none }, r.ptr)

-- `operator==` with `end()`: also between the last element and the head.
abbrev pub at_end : Spot → List ℕ → Bool
at_end at_head a = true
at_end (on x) a = false
at_end gap a = is_empty a

abbrev pub member : ℕ → List ℕ → Bool
member x [] = false
member x (y ∷ ys) = if x == y then true else member x ys

-- `link`: before the iterator, unless the element is in the list already.
unfoldable pub link_at : Spot → ℕ → Ring → Ring
link_at at_head x r = record r { ahead = r.ahead ++ (x ∷ []) }
link_at (on y) x r = record r { behind = x ∷ r.behind }
link_at gap x r = record r { behind = x ∷ r.behind }

unfoldable pub link : ℕ → Ring → Ring
unfolding link_at
link x r = if member x (elements r) then r else link_at r.spot x r

abbrev pub remove_one : ℕ → List ℕ → List ℕ
remove_one x [] = []
remove_one x (y ∷ ys) = if x == y then ys else y ∷ remove_one x ys

-- `unlink` of an element, which may not be in the list: it is taken out wherever it is, and an iterator
-- around it is then between its neighbours.
abbrev pub take_out_others : ℕ → Ring → Ring
take_out_others x r = record r { behind = remove_one x r.behind; ahead = remove_one x r.ahead }

unfoldable pub take_out_at : Spot → ℕ → Ring → Ring
take_out_at gap x r = take_out_others x r
take_out_at at_head x r = take_out_others x r
take_out_at (on y) x r = if x == y then record r { spot = gap } else take_out_others x r

unfoldable pub take_out : ℕ → Ring → Ring
unfolding take_out_at
take_out x r = take_out_at r.spot x r

-- `erase_and_dispose(i, disp)`: the iterator `i` afterwards, and the element that `disp` is given. An
-- iterator without element throws.
unfoldable pub erase : Ring → Checked (Ring × Option ℕ)
unfolding take_out
erase r = elim r.ptr [
  | none ↦ assert_failed
  | some x ↦ ok (take_out x r, if member x (elements r) then some x else none)
]

-- The iterator that it returns.
abbrev pub next_of : Checked (Ring × Option ℕ) → Checked (Ring × Option ℕ)
next_of (ok (r, x)) = ok (increment r, x)
next_of assert_failed = assert_failed

-- The loop of `remove_and_dispose_if`: the list afterwards, and the elements that `disp` was given.
unfoldable pub remove_loop : ℕ → (ℕ → Bool) → Ring → List ℕ → Run (Ring × List ℕ)
unfolding erase increment dereference
remove_loop zero pred i gone = runs_on
remove_loop (suc fuel) pred i gone = elim (at_end i.spot i.ahead) [
  | true ↦ returns (i, gone)
  | false ↦ elim (dereference i) [
    | assert_failed ↦ fails
    | ok x ↦ elim (pred x) [
      | false ↦ remove_loop fuel pred (increment i) gone
      | true ↦ elim (next_of (erase i)) [
        | assert_failed ↦ fails
        | ok (k, some y) ↦ remove_loop fuel pred k (gone ++ (y ∷ []))
        | ok (k, none) ↦ remove_loop fuel pred (increment k) gone
      ]
    ]
  ]
]

unfoldable pub remove_and_dispose_if : ℕ → (ℕ → Bool) → List ℕ → Run (Ring × List ℕ)
unfolding remove_loop begin
remove_and_dispose_if fuel pred xs = remove_loop fuel pred (begin xs) []

-- The loop of `visit`: the elements that the functor is given.
unfoldable pub visit_loop : ℕ → Ring → Run (List ℕ)
unfolding increment dereference
visit_loop zero i = runs_on
visit_loop (suc fuel) i = elim (at_end i.spot i.ahead) [
  | true ↦ returns []
  | false ↦ elim (dereference i) [
    | assert_failed ↦ fails
    | ok x ↦ visit_loop fuel (increment i) >>= λ xs. returns (x ∷ xs)
  ]
]

unfoldable pub visit : ℕ → List ℕ → Run (List ℕ)
unfolding visit_loop begin
visit fuel xs = visit_loop fuel (begin xs)
