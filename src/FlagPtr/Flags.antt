-- ===== src/FlagPtr/Flags.antt =====
-- include/ilias/llptr.h: the operators on the flags of a word, by its bits.
use ilias_async.Base.{
  ℕ, zero, suc, ◌+◌, ◌*◌, ◌/◌, ◌%◌, ◌≤◌, ◌≡◌, refl, sym, ◌∙◌, Bool, false, Bool-cases, inl, inr,
  arith,
}
use ilias_async.FlagPtr.{is_odd, bits, both, mask}
use ilias_async.FlagPtr.Words.{Aligned, Fits, half_mask, full_mask}

bits-none :
    (op : Bool → Bool → Bool)
    → ((a : Bool) → op a false ≡ a)
    → (w p : ℕ) → Fits w p
    → bits op w p 0 ≡ p
unfolding bits
bits-none op k zero p b = sym b
bits-none op k (suc w) p b =
    let rest : bits op w (p / 2) (0 / 2) ≡ p / 2 = bits-none op k w (p / 2) b in
    rw (k (is_odd p), rest) (ground arith)

half_odd : (p fl : ℕ) → p % 2 ≡ 0 → is_odd (p + fl) ≡ is_odd fl
half_odd p fl e = ground (arith, e)

-- Setting and toggling flags.
pub bits-sum :
    (op : Bool → Bool → Bool)
    → ((a : Bool) → op a false ≡ a)
    → (w f p fl g : ℕ) → f ≤ w
    → Aligned f p
    → Fits w p
    → Fits f fl
    → Fits f g
    → bits op w (p + fl) g ≡ p + bits op f fl g
unfolding bits
bits-sum op k w zero p fl g l a b c d =
    let whole : p + fl ≡ p = omega (arith, c) in
    let same : p ≡ p + 0 = omega arith in rw (whole, d) (bits-none op k w p b ∙ same)
bits-sum op k zero (suc f) p fl g l a b c d = absurd (omega (arith, l))
bits-sum op k (suc w) (suc f) p fl g l a b c d =
    let even = a.0 in
    let half : (p + fl) / 2 ≡ p / 2 + fl / 2 = omega (arith, even) in
    let rest : bits op w ((p + fl) / 2) (g / 2) ≡ p / 2 + bits op f (fl / 2) (g / 2) =
      rw half (bits-sum op k w f (p / 2) (fl / 2) (g / 2) (omega (arith, l)) a.1 b c d) in
    rw (half_odd p fl even, rest) (omega (arith, even))

pub bits-Fits : (op : Bool → Bool → Bool) (f a b : ℕ) → Fits f (bits op f a b)
unfolding bits
bits-Fits op zero a b = refl
bits-Fits op (suc f) a b =
    let rest = bits-Fits op f (a / 2) (b / 2) in
    elim (Bool-cases (op (is_odd a) (is_odd b))) [
      | inl e ↦
          let half : (1 + 2 * bits op f (a / 2) (b / 2)) / 2 ≡ bits op f (a / 2) (b / 2) =
            omega arith in
          rw (e, half) rest
      | inr e ↦
          let half : (0 + 2 * bits op f (a / 2) (b / 2)) / 2 ≡ bits op f (a / 2) (b / 2) =
            omega arith in
          rw (e, half) rest
    ]

pub mask-Aligned : (w f : ℕ) → f ≤ w → Aligned f (mask w f)
mask-Aligned w zero l = tt
mask-Aligned zero (suc f) l = absurd (omega (arith, l))
mask-Aligned (suc w) (suc f) l =
    ((half_mask w f).0, rw (half_mask w f).1 (mask-Aligned w f (omega (arith, l))))

pub mask-Fits : (w f : ℕ) → f ≤ w → Fits w (mask w f)
mask-Fits zero zero l = omega arith
mask-Fits zero (suc f) l = absurd (omega (arith, l))
mask-Fits (suc w) zero l = rw (full_mask w).1 (mask-Fits w zero (omega arith))
mask-Fits (suc w) (suc f) l = rw (half_mask w f).1 (mask-Fits w f (omega (arith, l)))

-- Clearing flags.
pub and-sum :
    (w f p fl g : ℕ)
    → f ≤ w
    → Aligned f p
    → Fits w p
    → Fits f fl
    → Fits f g
    → bits both w (p + fl) (mask w f + g) ≡ p + bits both f fl g
unfolding bits
and-sum zero zero p fl g l a b c d = omega (arith, b)
and-sum zero (suc f) p fl g l a b c d = absurd (omega (arith, l))
and-sum (suc w) zero p fl g l a b c d =
    let half : (p + fl) / 2 ≡ p / 2 + fl / 2 = omega (arith, c) in
    let half_g : (mask (suc w) 0 + g) / 2 ≡ mask w 0 + g / 2 = omega (arith, d, (full_mask w).1) in
    let rest : bits both w ((p + fl) / 2) ((mask (suc w) 0 + g) / 2) ≡ p / 2 + 0 =
      rw (half, half_g)
        (and-sum w zero (p / 2) (fl / 2) (g / 2) (omega arith) tt b (omega (arith, c))
          (omega (arith, d))) in
    let odd = (full_mask w).0 in ground (arith, rest, odd, c, d)
and-sum (suc w) (suc f) p fl g l a b c d =
    let even = a.0 in
    let clear = (half_mask w f).0 in
    let half : (p + fl) / 2 ≡ p / 2 + fl / 2 = omega (arith, even) in
    let half_g : (mask (suc w) (suc f) + g) / 2 ≡ mask w f + g / 2 =
      omega (arith, clear, (half_mask w f).1) in
    let rest : bits both w ((p + fl) / 2) ((mask (suc w) (suc f) + g) / 2)
        ≡ p / 2 + bits both f (fl / 2) (g / 2) =
      rw (half, half_g) (and-sum w f (p / 2) (fl / 2) (g / 2) (omega (arith, l)) a.1 b c d) in
    rw (half_odd p fl even, half_odd (mask (suc w) (suc f)) g clear, rest) (omega (arith, even))
