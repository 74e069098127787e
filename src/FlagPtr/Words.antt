-- ===== src/FlagPtr/Words.antt =====
-- include/ilias/llptr.h: what a word of a pointer and flags holds.
use ilias_async.Base.{ℕ, zero, suc, ◌+◌, ◌*◌, ◌/◌, ◌%◌, ◌^◌, ◌≤◌, ◌<◌, ◌≡◌, refl, sym, ◌∙◌, arith}
use ilias_async.FlagPtr.{bits, both, either, flag_bits, mask, encode, ptr, bitmask}

pub pow_suc : (n : ℕ) → 2 ^ suc n ≡ 2 * 2 ^ n
pow_suc n = omega arith

pub pow_pos : (n : ℕ) → 0 < 2 ^ n
pow_pos zero = omega arith
pow_pos (suc n) = omega (arith, pow_suc n, pow_pos n)

-- A multiple of `2 ^ f`, and a number below it, by their bits.
abbrev pub Aligned : ℕ → ℕ → Type 0
Aligned zero p = Unit
Aligned (suc f) p = (p % 2 ≡ 0) × Aligned f (p / 2)

abbrev pub Fits : ℕ → ℕ → Type 0
Fits zero n = n ≡ 0
Fits (suc f) n = Fits f (n / 2)

pub half_mask : (w f : ℕ) → (mask (suc w) (suc f) % 2 ≡ 0) × (mask (suc w) (suc f) / 2 ≡ mask w f)
half_mask w f = (
  omega (arith, pow_suc w, pow_suc f, pow_pos w, pow_pos f),
  omega (arith, pow_suc w, pow_suc f, pow_pos w, pow_pos f),
)

pub full_mask : (w : ℕ) → (mask (suc w) 0 % 2 ≡ 1) × (mask (suc w) 0 / 2 ≡ mask w 0)
full_mask w = (omega (arith, pow_suc w, pow_pos w), omega (arith, pow_suc w, pow_pos w))

half_flags : (f : ℕ) → (flag_bits (suc f) % 2 ≡ 1) × (flag_bits (suc f) / 2 ≡ flag_bits f)
half_flags f = (omega (arith, pow_suc f, pow_pos f), omega (arith, pow_suc f, pow_pos f))

bits-zero : (w v : ℕ) → bits both w v 0 ≡ 0
unfolding bits
bits-zero zero v = refl
bits-zero (suc w) v =
    let rest : bits both w (v / 2) (0 / 2) ≡ 0 = bits-zero w (v / 2) in ground (arith, rest)

-- The word is the sum of the pointer and the flags.
pub encode-sum :
    (w f p fl : ℕ) → f ≤ w → Aligned f p → Fits w p → Fits f fl → encode w p fl ≡ p + fl
unfolding encode bits
encode-sum zero zero p fl l a b c = omega (arith, b, c)
encode-sum zero (suc f) p fl l a b c = absurd (omega (arith, l))
encode-sum (suc w) zero p fl l a b c =
    let rest : bits either w (p / 2) (fl / 2) ≡ p / 2 + fl / 2 =
      encode-sum w zero (p / 2) (fl / 2) (omega arith) tt b (omega (arith, c)) in
    ground (arith, rest, c)
encode-sum (suc w) (suc f) p fl l a b c =
    let rest : bits either w (p / 2) (fl / 2) ≡ p / 2 + fl / 2 =
      encode-sum w f (p / 2) (fl / 2) (omega (arith, l)) a.1 b c in
    let even = a.0 in ground (arith, rest, even)

pub ptr-sum : (w f p fl : ℕ) → f ≤ w → Aligned f p → Fits w p → Fits f fl → ptr w f (p + fl) ≡ p
unfolding ptr bits
ptr-sum zero zero p fl l a b c = omega (arith, b)
ptr-sum zero (suc f) p fl l a b c = absurd (omega (arith, l))
ptr-sum (suc w) zero p fl l a b c =
    let half : (p + fl) / 2 ≡ p / 2 + fl / 2 = omega (arith, c) in
    let rest : bits both w ((p + fl) / 2) (mask (suc w) 0 / 2) ≡ p / 2 =
      rw (half, (full_mask w).1)
        (ptr-sum w zero (p / 2) (fl / 2) (omega arith) tt b (omega (arith, c))) in
    let odd = (full_mask w).0 in ground (arith, rest, odd, c)
ptr-sum (suc w) (suc f) p fl l a b c =
    let even = a.0 in
    let half : (p + fl) / 2 ≡ p / 2 + fl / 2 = omega (arith, even) in
    let rest : bits both w ((p + fl) / 2) (mask (suc w) (suc f) / 2) ≡ p / 2 =
      rw (half, (half_mask w f).1) (ptr-sum w f (p / 2) (fl / 2) (omega (arith, l)) a.1 b c) in
    let clear = (half_mask w f).0 in ground (arith, rest, clear, even)

pub bitmask-sum :
    (w f p fl : ℕ) → f ≤ w → Aligned f p → Fits w p → Fits f fl → bitmask w f (p + fl) ≡ fl
unfolding bitmask bits
bitmask-sum w zero p fl l a b c = bits-zero w (p + fl) ∙ sym c
bitmask-sum zero (suc f) p fl l a b c = absurd (omega (arith, l))
bitmask-sum (suc w) (suc f) p fl l a b c =
    let even = a.0 in
    let half : (p + fl) / 2 ≡ p / 2 + fl / 2 = omega (arith, even) in
    let rest : bits both w ((p + fl) / 2) (flag_bits (suc f) / 2) ≡ fl / 2 =
      rw (half, (half_flags f).1) (bitmask-sum w f (p / 2) (fl / 2) (omega (arith, l)) a.1 b c) in
    let odd = (half_flags f).0 in ground (arith, rest, odd, even)
