-- ===== src/Future/Promises/Counts.antt =====
-- src/future.cc and include/ilias/future-inl.h: shared states whose counts are the numbers of promises.
use mathlib.Core.Option.{none}
use native.Mathlib.Decide.{ℕ_discrete}
use ilias_async.Base.{
  ℕ, ◌+◌, ◌-◌, ◌<◌, ◌≡◌, ◌≢◌, true, false, inl, inr, Bool-cases, List, ◌==◌, if◌then◌else◌, word,
  arith,
}
use ilias_async.Refcnt.Pointer.Balance.{one, occurrences}
use ilias_async.Future.{is_ready, is_uninitialized}
use ilias_async.Future.Promises.{
  Cell, set_ready, add_promise_reference_, remove_promise_reference_, acquire, release,
}

-- A state that `n` promises hold and for which `k` futures were given out.
pub record IsSound (c : Cell) (n k : ℕ) : Type 0 where
  pub counted : c.promise_refcnt ≡ n
  pub settled : c.made ≡ true → n ≡ 0 → is_ready c.state ≡ true
  pub stored : is_ready c.state ≡ true → c.storage ≢ none
  pub plain : c.made ≡ true → is_ready c.state ≡ false → is_uninitialized c.state ≡ true
  pub unmade : c.made ≡ false → (n ≡ 0) × (k ≡ 0)
  pub retrieved : k ≡ (if c.shared then 1 else 0)

abbrev pub Counted : (ℕ → ℕ) → List ℕ → (ℕ → Cell) → Type 0
Counted refs given cells = (o : ℕ) → o ≢ 0 → IsSound (cells o) (refs o) (occurrences o given)

pub acquire-Counted :
    (refs : ℕ → ℕ) (given : List ℕ) (cells : ℕ → Cell) (p : ℕ)
    → Counted refs given cells
    → refs p + 1 < word
    → (p ≢ 0 → (cells p).made ≡ true)
    → Counted (λ o. refs o + one o p) given (acquire p cells)
unfolding acquire add_promise_reference_ ℕ_discrete
acquire-Counted refs given cells p h room made = elim (Bool-cases (p == 0)) [
  | inl e ↦ rw (e, acquire) λ o n. ground (arith, h o n)
  | inr e ↦
      let m = made (ground arith) in
      rw (e, acquire) λ o n. ground (arith, h o n, h p (ground arith), m)
]

pub release-Counted :
    (refs : ℕ → ℕ) (given : List ℕ) (cells : ℕ → Cell) (p : ℕ)
    → Counted refs given cells
    → (p ≢ 0 → 0 < refs p)
    → refs p < word
    → Counted (λ o. refs o - one o p) given (release p cells)
unfolding release remove_promise_reference_ set_ready ℕ_discrete
release-Counted refs given cells p h live room = elim (Bool-cases (p == 0)) [
  | inl e ↦ rw (e, release) λ o n. ground (arith, h o n)
  | inr e ↦ rw (e, release) λ o n. ground (arith, h o n, h p (ground arith), live (ground arith))
]

pub Counted-same :
    (f g : ℕ → ℕ) (given : List ℕ) (cells : ℕ → Cell)
    → ((o : ℕ) → o ≢ 0 → f o ≡ g o)
    → Counted f given cells
    → Counted g given cells
Counted-same f g given cells e h o n = rw (← e o n) (h o n)
