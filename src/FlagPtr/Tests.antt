-- ===== src/FlagPtr/Tests.antt =====
-- Runs of a word with two flags.
use ilias_async.Base.{◌+◌, ◌≡◌, refl, false, List, [], ◌∷◌, arith}
use ilias_async.FlagPtr.{
  bits, Call, load, compare_exchange, fetch_or, fetch_and, load_flags, Answer, swapped, pair, flags,
  perform_all,
}
use ilias_async.FlagPtr.Pair.{on_pair, on_pairs, IsPair, flag_ptr_refines}

abbrev some_calls : List Call
some_calls =
    load
    ∷ fetch_or 2
    ∷ compare_exchange false 4096 1 8192 0
    ∷ compare_exchange false 4096 3 8192 1
    ∷ fetch_and 2
    ∷ load_flags
    ∷ []

abbrev some_answers : List Answer
some_answers = pair 4096 1 ∷ flags 1 ∷ pair 4096 3 ∷ swapped ∷ flags 1 ∷ flags 0 ∷ []

flag_ptr_refines_example :
    (perform_all 64 2 some_calls (4096 + 1) ≡ (8192 + 0, some_answers)) × IsPair 64 2 8192 0
unfolding on_pairs on_pair bits
flag_ptr_refines_example =
    flag_ptr_refines 64 2 some_calls 4096 1 (omega arith)
      (
        tt,
        (
          refl,
          (
            (((refl, (refl, tt)), refl, refl), ((refl, (refl, tt)), refl, refl)),
            (
              (((refl, (refl, tt)), refl, refl), ((refl, (refl, tt)), refl, refl)),
              (refl, (tt, tt)),
            ),
          ),
        ),
      )
      ((refl, (refl, tt)), refl, refl)
