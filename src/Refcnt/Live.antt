-- ===== src/Refcnt/Live.antt =====
-- include/ilias/refcnt.h: `refcnt_acquire_iff_live`.
use ilias_async.Base.{ℕ, ◌+◌, ◌%◌, ◌≡◌, ◌≢◌, false, List, [], ◌∷◌, arith, ◌==◌, if◌then◌else◌}
use ilias_async.Refcnt.{Attempt, acquired, refused, acquire_loop, refcnt_acquire_iff_live, uint}

acquire_loop-live :
    (nrefs expect : ℕ) (ts : List Attempt) {before after : ℕ}
    → expect ≢ 0
    → acquire_loop nrefs expect ts ≡ acquired before after
    → (before ≢ 0) × (after ≡ (before + nrefs) % uint)
unfolding acquire_loop
acquire_loop-live nrefs expect [] n e = ground arith
acquire_loop-live nrefs expect (t ∷ ts) {before = before} {after = after} n e =
    ground (arith, acquire_loop-live nrefs t.found ts {before = before} {after = after})

-- A successful call never revives an object whose count is 0: it adds its references to a count of
-- at least 1, whatever other threads do to the count and however often the exchange fails.
pub acquire_iff_live_sound :
    (nrefs : ℕ) (ts : List Attempt) {before after : ℕ}
    → refcnt_acquire_iff_live nrefs ts ≡ acquired before after
    → (before ≢ 0) × (after ≡ (before + nrefs) % uint)
unfolding refcnt_acquire_iff_live
acquire_iff_live_sound nrefs ts e = acquire_loop-live nrefs 1 ts (omega arith) e

-- The count stays `c` for two attempts that do not fail spuriously.
abbrev pub steady : ℕ → List Attempt
steady c = record { found = c; spurious = false } ∷ record { found = c; spurious = false } ∷ []

-- Where nobody interferes, two attempts are enough: the call succeeds on any object that is alive,
-- and refuses any other.
pub acquire_iff_live_total :
    (nrefs c : ℕ)
    → refcnt_acquire_iff_live nrefs (steady c)
      ≡ (if c == 0 then refused else acquired c ((c + nrefs) % uint))
unfolding refcnt_acquire_iff_live
acquire_iff_live_total nrefs c = ground arith
