-- ===== src/FlagPtr/Pair.antt =====
-- include/ilias/llptr.h: the calls of `atomic_flag_ptr`, and the same calls on a pair.
use ilias_async.Base.{
  ℕ, zero, suc, ◌+◌, ◌≤◌, ◌≡◌, refl, sym, ap, ◌∙◌, Bool, true, false, Bool-cases, inl, inr, ◌&&◌,
  ◌==◌, if◌then◌else◌, arith, List, [], ◌∷◌,
}
use ilias_async.FlagPtr.{
  bits, both, either, differ, mask, encode, ptr, bitmask, decode, Call, load, store, exchange,
  compare_exchange, reset, fetch_or, fetch_xor, fetch_and, load_flags, Answer, nothing, swapped,
  pair, flags, perform, perform_all,
}
use ilias_async.FlagPtr.Words.{Aligned, Fits, encode-sum, ptr-sum, bitmask-sum}
use ilias_async.FlagPtr.Flags.{bits-sum, bits-Fits, mask-Aligned, mask-Fits, and-sum}

-- The same call on a pair.
unfoldable pub on_pair : ℕ → Call → ℕ → ℕ → (ℕ × ℕ) × Answer
on_pair f load p fl = ((p, fl), pair p fl)
on_pair f (store q gl) p fl = ((q, gl), nothing)
on_pair f (exchange q gl) p fl = ((q, gl), pair p fl)
on_pair f (compare_exchange true e el q gl) p fl = ((p, fl), pair p fl)
on_pair f (compare_exchange false e el q gl) p fl =
    if (p == e) && (fl == el) then ((q, gl), swapped) else ((p, fl), pair p fl)
on_pair f reset p fl = ((0, 0), nothing)
on_pair f (fetch_or g) p fl = ((p, bits either f fl g), flags fl)
on_pair f (fetch_xor g) p fl = ((p, bits differ f fl g), flags fl)
on_pair f (fetch_and g) p fl = ((p, bits both f fl g), flags fl)
on_pair f load_flags p fl = ((p, fl), flags fl)

unfoldable pub on_pairs : ℕ → List Call → ℕ → ℕ → (ℕ × ℕ) × List Answer
unfolding on_pair
on_pairs f [] p fl = ((p, fl), [])
on_pairs f (c ∷ cs) p fl =
    let ((q, gl), a) = on_pair f c p fl in let (end, rest) = on_pairs f cs q gl in (end, a ∷ rest)

-- A pointer of `w` bits that leaves room for `f` flags, and such flags.
abbrev pub IsPair : ℕ → ℕ → ℕ → ℕ → Type 0
IsPair w f p fl = Aligned f p × Fits w p × Fits f fl

abbrev pub IsCall : ℕ → ℕ → Call → Type 0
IsCall w f (store p fl) = IsPair w f p fl
IsCall w f (exchange p fl) = IsPair w f p fl
IsCall w f (compare_exchange s p fl q gl) = IsPair w f p fl × IsPair w f q gl
IsCall w f (fetch_or g) = Fits f g
IsCall w f (fetch_xor g) = Fits f g
IsCall w f (fetch_and g) = Fits f g
IsCall w f c = Unit

abbrev pub AreCalls : ℕ → ℕ → List Call → Type 0
AreCalls w f [] = Unit
AreCalls w f (c ∷ cs) = IsCall w f c × AreCalls w f cs

zero-Aligned : (f : ℕ) → Aligned f 0
zero-Aligned zero = tt
zero-Aligned (suc f) = (omega arith, zero-Aligned f)

zero-Fits : (f : ℕ) → Fits f 0
zero-Fits zero = refl
zero-Fits (suc f) = zero-Fits f

either-false : (a : Bool) → either a false ≡ a
either-false true = refl
either-false false = refl

differ-false : (a : Bool) → differ a false ≡ a
differ-false true = refl
differ-false false = refl

module _ (w f : ℕ) (l : f ≤ w) where
  encode-pair : (p fl : ℕ) → IsPair w f p fl → encode w p fl ≡ p + fl
  encode-pair p fl (a, b, c) = encode-sum w f p fl l a b c

  ptr-pair : (p fl : ℕ) → IsPair w f p fl → ptr w f (p + fl) ≡ p
  ptr-pair p fl (a, b, c) = ptr-sum w f p fl l a b c

  bitmask-pair : (p fl : ℕ) → IsPair w f p fl → bitmask w f (p + fl) ≡ fl
  bitmask-pair p fl (a, b, c) = bitmask-sum w f p fl l a b c

  decode-pair : (p fl : ℕ) → IsPair w f p fl → decode w f (p + fl) ≡ pair p fl
  unfolding decode
  decode-pair p fl i = rw (ptr-pair p fl i, bitmask-pair p fl i) refl

  same_word :
      (p fl q gl : ℕ)
      → IsPair w f p fl
      → IsPair w f q gl
      → ((p + fl) == (q + gl)) ≡ ((p == q) && (fl == gl))
  same_word p fl q gl i j = elim (Bool-cases ((p + fl) == (q + gl))) [
    | inl e ↦
        let s : p + fl ≡ q + gl = ground (arith, e) in
        let hp : p ≡ q = sym (ptr-pair p fl i) ∙ ap (ptr w f) s ∙ ptr-pair q gl j in
        let hf : fl ≡ gl = sym (bitmask-pair p fl i) ∙ ap (bitmask w f) s ∙ bitmask-pair q gl j in
        ground (arith, e, hp, hf)
    | inr e ↦ ground (arith, e)
  ]

  -- A call on the word of a pair: its word is that of the new pair, and the answer is the same.
  perform-IsPair :
      (c : Call) (p fl : ℕ)
      → IsCall w f c
      → IsPair w f p fl
      → (perform w f c (p + fl)
          ≡ ((on_pair f c p fl).0.0 + (on_pair f c p fl).0.1, (on_pair f c p fl).1))
        × IsPair w f (on_pair f c p fl).0.0 (on_pair f c p fl).0.1
  unfolding perform on_pair
  perform-IsPair load p fl k i = (ap (λ a. (p + fl, a)) (decode-pair p fl i), i)
  perform-IsPair (store q gl) p fl k i = (ap (λ v. (v, nothing)) (encode-pair q gl k), k)
  perform-IsPair (exchange q gl) p fl k i = (rw (encode-pair q gl k, decode-pair p fl i) refl, k)
  perform-IsPair (compare_exchange true e el q gl) p fl k i =
      (ap (λ a. (p + fl, a)) (decode-pair p fl i), i)
  perform-IsPair (compare_exchange false e el q gl) p fl k i =
      elim (Bool-cases ((p == e) && (fl == el))) [
        | inl y ↦ (
          rw (encode-pair e el k.0, same_word p fl e el i k.0, y, encode-pair q gl k.1) refl,
          rw y k.1,
        )
        | inr y ↦ (
          rw (encode-pair e el k.0, same_word p fl e el i k.0, y, decode-pair p fl i) refl,
          rw y i,
        )
      ]
  perform-IsPair reset p fl k i = (refl, (zero-Aligned f, zero-Fits w, zero-Fits f))
  perform-IsPair (fetch_or g) p fl k i = (
    rw (bitmask-pair p fl i, bits-sum either either-false w f p fl g l i.0 i.1 i.2 k) refl,
    (i.0, i.1, bits-Fits either f fl g),
  )
  perform-IsPair (fetch_xor g) p fl k i = (
    rw (bitmask-pair p fl i, bits-sum differ differ-false w f p fl g l i.0 i.1 i.2 k) refl,
    (i.0, i.1, bits-Fits differ f fl g),
  )
  perform-IsPair (fetch_and g) p fl k i = (
    rw
        (
          bitmask-pair p fl i,
          encode-pair (mask w f) g (mask-Aligned w f l, mask-Fits w f l, k),
          and-sum w f p fl g l i.0 i.1 i.2 k,
        )
        refl,
    (i.0, i.1, bits-Fits both f fl g),
  )
  perform-IsPair load_flags p fl k i = (ap (λ a. (p + fl, flags a)) (bitmask-pair p fl i), i)

-- Any calls on a word that holds a pointer and flags return what they return on the pair of them, and
-- leave a word that holds the new pair: the pointers are multiples of 2 ^ f, and the flags below it.
pub flag_ptr_refines :
    (w f : ℕ) (cs : List Call) (p fl : ℕ)
    → f ≤ w
    → AreCalls w f cs
    → IsPair w f p fl
    → (perform_all w f cs (p + fl)
        ≡ ((on_pairs f cs p fl).0.0 + (on_pairs f cs p fl).0.1, (on_pairs f cs p fl).1))
      × IsPair w f (on_pairs f cs p fl).0.0 (on_pairs f cs p fl).0.1
unfolding perform_all on_pairs
flag_ptr_refines w f [] p fl l k i = (refl, i)
flag_ptr_refines w f (c ∷ cs) p fl l k i =
    let (same, j) = perform-IsPair w f l c p fl k.0 i in
    let (rest, e) = flag_ptr_refines w f cs (on_pair f c p fl).0.0 (on_pair f c p fl).0.1 l k.1 j in
    (rw (same, rest) refl, e)
