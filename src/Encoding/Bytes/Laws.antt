-- ===== src/Encoding/Bytes/Laws.antt =====
-- Round trips and bounds of the byte encodings of encoding/.
use mathlib.Core.List.{reverse, reverse-append, reverse-reverse}
use perun_ckb_backend.Prelude.{
  ℕ, zero, suc, ◌-◌, ◌*◌, ◌/◌, ◌≤◌, ◌<◌, ◌≡◌, refl, ap, ◌∙◌, inl, inr, List, [], ◌∷◌, ◌++◌, arith,
  length, length-append, replicate, length-replicate, length-reverse, reverse-replicate, All, pos,
  ok, err, some, Bool-cases, ◌==◌, ltb, le→ltb, lt→ltb, subst,
}
use native.Mathlib.Decide.{dec_le}
use perun_ckb_backend.Prelude.Words.{u128_mod}
use perun_ckb_backend.Encoding.Bytes.{
  EncodeError, le_digits, be_bytes, le_value, be_value, to_u128_le, pack_nonce, unpack_nonce,
  first_bytes,
}

-- 256 to the power of k.
abbrev pub pow256 : ℕ → ℕ
pow256 zero = 1
pow256 (suc k) = 256 * pow256 k

le_value-le_digits : (f n : ℕ) → n ≤ f → le_value (le_digits f n) ≡ n
unfolding le_value le_digits
le_value-le_digits zero n h = omega arith
le_value-le_digits (suc f) n h = elim (Bool-cases (n == 0)) [
  | inl e ↦ rw e (ground arith)
  | inr e ↦ rw e (ground (arith, le_value-le_digits f (n / 256)))
]

-- Every digit is a byte.
le_digits-All : (f n : ℕ) → All (λ b. b < 256) (le_digits f n)
unfolding le_digits
le_digits-All zero n = tt
le_digits-All (suc f) n = elim (Bool-cases (n == 0)) [
  | inl e ↦ rw e tt
  | inr e ↦ rw e (omega arith, le_digits-All f (n / 256))
]

length-le_digits : (f n k : ℕ) → n < pow256 k → length (le_digits f n) ≤ k
unfolding le_digits
length-le_digits zero n k h = omega arith
length-le_digits (suc f) n zero h = ground arith
length-le_digits (suc f) n (suc k) h = elim (Bool-cases (n == 0)) [
  | inl e ↦ rw e (omega arith)
  | inr e ↦ rw e (omega (arith, length-le_digits f (n / 256) k (omega arith)))
]

le_value-lt : (bs : List ℕ) → All (λ b. b < 256) bs → le_value bs < pow256 (length bs)
unfolding le_value
le_value-lt [] h = omega arith
le_value-lt (b ∷ bs) h = omega (arith, le_value-lt bs h.1)

pow256_mono : (j k : ℕ) → j ≤ k → pow256 j ≤ pow256 k
pow256_mono zero zero h = omega arith
pow256_mono zero (suc k) h = omega (arith, pow256_mono zero k (omega arith))
pow256_mono (suc j) zero h = elim h [ ]
pow256_mono (suc j) (suc k) h = omega (arith, pow256_mono j k (omega arith))

le_value-append_zeros : (bs : List ℕ) (k : ℕ) → le_value (bs ++ replicate k 0) ≡ le_value bs
unfolding le_value
le_value-append_zeros [] zero = refl
le_value-append_zeros [] (suc k) = omega (arith, le_value-append_zeros [] k)
le_value-append_zeros (b ∷ bs) k = omega (arith, le_value-append_zeros bs k)

abbrev zeros : ℕ → List ℕ
zeros k = replicate k 0

reverse-be_bytes : (n : ℕ) → reverse (be_bytes n) ≡ le_digits n n
unfolding be_bytes
reverse-be_bytes n = reverse-reverse (le_digits n n)

length-be_bytes : (n : ℕ) → length (be_bytes n) ≡ length (le_digits n n)
unfolding be_bytes
length-be_bytes n = length-reverse (le_digits n n)

-- A number has at most k bytes exactly when it is below 256 ^ k.
length-be_bytes-le : (n k : ℕ) → n < pow256 k → length (be_bytes n) ≤ k
length-be_bytes-le n k h = omega (arith, length-be_bytes n, length-le_digits n n k h)

lt-length-be_bytes : (n k : ℕ) → pow256 k ≤ n → k < length (be_bytes n)
lt-length-be_bytes n k h = elim (dec_le (length (le_digits n n)) k) [
  | yes short ↦ absurd (
      omega (
        arith,
        le_value-lt (le_digits n n) (le_digits-All n n),
        le_value-le_digits n n (omega arith),
        pow256_mono (length (le_digits n n)) k short,
      ))
  | no long ↦ omega (arith, length-be_bytes n)
]

-- A number below 2 ^ 128 is encoded in sixteen bytes, whose little-endian value it is.
pub to_u128_le-fits :
    (n : ℕ)
    → n < u128_mod
    → (bs : List ℕ) × (to_u128_le (pos n) ≡ ok bs) × (length bs ≡ 16) × (le_value bs ≡ n)
unfolding to_u128_le
to_u128_le-fits n h = (
  reverse (be_bytes n) ++ zeros (16 - length (be_bytes n)),
  rw (le→ltb 16 (length (be_bytes n)) short) refl,
  omega (
    arith,
    short,
    length-append (reverse (be_bytes n)) (zeros (16 - length (be_bytes n))),
    length-reverse (be_bytes n),
    length-replicate {0} {A = ℕ} (16 - length (be_bytes n)) 0,
  ),
  le_value-append_zeros _ _
      ∙ ap le_value (reverse-be_bytes n)
      ∙ le_value-le_digits n n (omega arith),
)
  where
    short : length (be_bytes n) ≤ 16
    short = length-be_bytes-le n 16 h

-- From 2 ^ 128 on `toU128LE` reports an overflow.
pub to_u128_le-overflow : (n : ℕ) → u128_mod ≤ n → to_u128_le (pos n) ≡ err EncodeError.overflow
unfolding to_u128_le
to_u128_le-overflow n h = rw (lt→ltb 16 (length (be_bytes n)) (lt-length-be_bytes n 16 h)) refl

first_bytes-length : (bs : List ℕ) → first_bytes (length bs) bs ≡ some bs
unfolding first_bytes
first_bytes-length [] = refl
first_bytes-length (b ∷ bs) = rw (first_bytes-length bs) refl

be_value-padded : (n k : ℕ) → be_value (zeros k ++ be_bytes n) ≡ n
unfolding be_value
be_value-padded n k =
    ap le_value (reverse-append (zeros k) (be_bytes n))
    ∙ ap (λ bs. le_value (reverse (be_bytes n) ++ bs)) (reverse-replicate k 0)
    ∙ le_value-append_zeros (reverse (be_bytes n)) k
    ∙ ap le_value (reverse-be_bytes n)
    ∙ le_value-le_digits n n (omega arith)

-- A nonce of at most 32 bytes is packed into 32 bytes, and comes back when they are unpacked, if
-- go-perun reads a nonce as a big-endian number.
pub unpack_nonce-pack_nonce :
    (nonce_from_bytes : List ℕ → ℕ) (nonce : ℕ)
    → ((bs : List ℕ) → nonce_from_bytes bs ≡ be_value bs)
    → nonce < pow256 32
    → (bs : List ℕ) × (pack_nonce nonce ≡ ok bs)
      × (length bs ≡ 32)
      × (unpack_nonce nonce_from_bytes bs ≡ some nonce)
unfolding pack_nonce unpack_nonce
unpack_nonce-pack_nonce nonce_from_bytes nonce reads h = (
  bytes,
  rw (le→ltb 32 (length (be_bytes nonce)) short) refl,
  size,
  rw (unpacked, unpack_nonce)
      (ap some (reads bytes ∙ be_value-padded nonce (32 - length (be_bytes nonce)))),
)
  where
    bytes : List ℕ
    bytes = zeros (32 - length (be_bytes nonce)) ++ be_bytes nonce

    short : length (be_bytes nonce) ≤ 32
    short = length-be_bytes-le nonce 32 h

    size : length bytes ≡ 32
    size = omega (
      arith,
      short,
      length-append (zeros (32 - length (be_bytes nonce))) (be_bytes nonce),
      length-replicate {0} {A = ℕ} (32 - length (be_bytes nonce)) 0,
    )

    unpacked : first_bytes 32 bytes ≡ some bytes
    unpacked = subst (λ k. first_bytes k bytes ≡ some bytes) size (first_bytes-length bytes)

-- A nonce of more than 32 bytes is refused.
pub pack_nonce-too_long :
    (nonce : ℕ) → pow256 32 ≤ nonce → pack_nonce nonce ≡ err EncodeError.nonce_too_long
unfolding pack_nonce
pack_nonce-too_long nonce h =
    rw (lt→ltb 32 (length (be_bytes nonce)) (lt-length-be_bytes nonce 32 h)) refl

-- The bytes of a nonce determine it.
pub pack_nonce-value : (n : ℕ) (bs : List ℕ) → pack_nonce n ≡ ok bs → be_value bs ≡ n
unfolding pack_nonce
pack_nonce-value n bs h = elim (Bool-cases (ltb 32 (length (be_bytes n)))) [
  | inl e ↦ absurd (ground arith)
  | inr e ↦
      subst (λ xs. be_value xs ≡ n) {x = zeros (32 - length (be_bytes n)) ++ be_bytes n} {y = bs}
        (ground arith) (be_value-padded n (32 - length (be_bytes n)))
]
