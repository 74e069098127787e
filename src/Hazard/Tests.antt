-- ===== src/Hazard/Tests.antt =====
-- A table of hazards.
use ilias_async.Base.{ℕ, ◌≡◌, refl, true, List, [], ◌∷◌}
use ilias_async.Hazard.{Hazard, allocate_hazard, found}
use ilias_async.Hazard.Allocation.{Finds, allocate_hazard-Finds}

abbrev of : ℕ → Hazard
of o = record { owner = o; value = 0 }

abbrev some_hazards : List Hazard
some_hazards = of 16 ∷ of 0 ∷ of 32 ∷ []

allocate_test :
    allocate_hazard 3 2 (true ∷ true ∷ []) 48 some_hazards ≡ found (of 16 ∷ of 48 ∷ of 32 ∷ [])
unfolding allocate_hazard
allocate_test = refl

allocate_hazard-Finds_example :
    Finds 48 some_hazards (allocate_hazard 3 2 (true ∷ true ∷ []) 48 some_hazards)
allocate_hazard-Finds_example = allocate_hazard-Finds 2 48 (true ∷ true ∷ []) some_hazards refl
