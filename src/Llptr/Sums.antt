-- ===== src/Llptr/Sums.antt =====
-- Sums over lists of which one place changes.
use ilias_async.Base.{
  ℕ, zero, suc, ◌+◌, ◌<◌, ◌≤◌, ◌≡◌, ◌≢◌, refl, List, [], ◌∷◌, arith, length, All,
}
use ilias_async.Llptr.{nth, put, remove}

abbrev pub total {ℓ} : {A : Type ℓ} → (A → ℕ) → List A → ℕ
total f [] = 0
total f (x ∷ xs) = f x + total f xs

module _ {ℓ} {A : Type ℓ} (d : A) where
  pub total-put :
      (f : A → ℕ) (xs : List A) (i : ℕ) (y : A)
      → i < length xs
      → total f (put xs i y) + f (nth d xs i) ≡ total f xs + f y
  total-put f [] i y h = absurd (omega arith)
  total-put f (x ∷ xs) zero y h = omega arith
  total-put f (x ∷ xs) (suc i) y h = omega (arith, total-put f xs i y (omega arith))

  pub total-remove :
      (f : A → ℕ) (xs : List A) (i : ℕ)
      → i < length xs
      → total f (remove xs i) + f (nth d xs i) ≡ total f xs
  total-remove f [] i h = absurd (omega arith)
  total-remove f (x ∷ xs) zero h = omega arith
  total-remove f (x ∷ xs) (suc i) h = omega (arith, total-remove f xs i (omega arith))

  pub le-total : (f : A → ℕ) (xs : List A) (i : ℕ) → i < length xs → f (nth d xs i) ≤ total f xs
  le-total f [] i h = absurd (omega arith)
  le-total f (x ∷ xs) zero h = omega arith
  le-total f (x ∷ xs) (suc i) h = omega (arith, le-total f xs i (omega arith))

  pub nth-put_same : (xs : List A) (i : ℕ) (y : A) → i < length xs → nth d (put xs i y) i ≡ y
  nth-put_same [] i y h = absurd (omega arith)
  nth-put_same (x ∷ xs) zero y h = refl
  nth-put_same (x ∷ xs) (suc i) y h = nth-put_same xs i y (omega arith)

  pub nth-put_other : (xs : List A) (i k : ℕ) (y : A) → i ≢ k → nth d (put xs i y) k ≡ nth d xs k
  nth-put_other [] i k y h = refl
  nth-put_other (x ∷ xs) zero zero y h = absurd (h refl)
  nth-put_other (x ∷ xs) zero (suc k) y h = refl
  nth-put_other (x ∷ xs) (suc i) zero y h = refl
  nth-put_other (x ∷ xs) (suc i) (suc k) y h = nth-put_other xs i k y (λ e. h (omega (arith, e)))

  pub nth-out : (xs : List A) (i : ℕ) → length xs ≤ i → nth d xs i ≡ d
  nth-out [] i h = refl
  nth-out (x ∷ xs) zero h = absurd (omega arith)
  nth-out (x ∷ xs) (suc i) h = nth-out xs i (omega arith)

  pub All-nth : (P : A → Type 0) (xs : List A) (i : ℕ) → P d → All P xs → P (nth d xs i)
  All-nth P [] i hd h = hd
  All-nth P (x ∷ xs) zero hd h = h.0
  All-nth P (x ∷ xs) (suc i) hd h = All-nth P xs i hd h.1

pub length-put {ℓ} : {A : Type ℓ} (xs : List A) (i : ℕ) (y : A) → length (put xs i y) ≡ length xs
length-put [] i y = refl
length-put (x ∷ xs) zero y = refl
length-put (x ∷ xs) (suc i) y = omega (arith, length-put xs i y)

pub All-put {ℓ} :
    {A : Type ℓ} (P : A → Type 0) (xs : List A) (i : ℕ) (y : A)
    → All P xs
    → P y
    → All P (put xs i y)
All-put P [] i y h hy = tt
All-put P (x ∷ xs) zero y h hy = (hy, h.1)
All-put P (x ∷ xs) (suc i) y h hy = (h.0, All-put P xs i y h.1 hy)

pub All-remove {ℓ} :
    {A : Type ℓ} (P : A → Type 0) (xs : List A) (i : ℕ) → All P xs → All P (remove xs i)
All-remove P [] i h = tt
All-remove P (x ∷ xs) zero h = h.1
All-remove P (x ∷ xs) (suc i) h = (h.0, All-remove P xs i h.1)
