-- ===== src/LlList/Iterator/Tests.antt =====
-- The typed list at concrete inputs.
use ilias_async.Base.{ℕ, ◌≡◌, refl, List, [], ◌∷◌, ltb, assert_failed, arith}
use ilias_async.LlList.Iterator.{
  Ring, on, at_spot, cend, increment, decrement, remove_and_dispose_if,
}
use ilias_async.LlList.Iterator.Visits
use ilias_async.LlList.Iterator.Visits.{Stands, Move, forwards, backwards, moves}
use ilias_async.LlList.Iterator.Removes

abbrev items : List ℕ
items = 3 ∷ 8 ∷ 5 ∷ []

abbrev last : Ring
last = at_spot (8 ∷ 3 ∷ []) (on 5) []

last-Stands : Stands last
last-Stands = record { is_ring = tt; has_ptr = refl; not_gap = cc }

cend_empty : cend [] ≡ assert_failed
unfolding cend
cend_empty = refl

increment-decrement_example :
    (decrement (increment last) ≡ last) × (increment (decrement last) ≡ last)
increment-decrement_example = Visits.increment-decrement last last-Stands

remove_and_dispose_if-filters_example :
    Removes.Removes (3 ∷ 5 ∷ []) (8 ∷ []) (remove_and_dispose_if 4 (ltb 6) items)
remove_and_dispose_if-filters_example =
    Removes.remove_and_dispose_if-filters 4 (ltb 6) items (omega arith)
