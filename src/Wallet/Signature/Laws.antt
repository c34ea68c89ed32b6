-- ===== src/Wallet/Signature/Laws.antt =====
-- Padding and its removal are inverse to each other.
use perun_ckb_backend.Prelude.{
  ℕ, zero, suc, ◌+◌, ◌-◌, ◌<◌, ◌==◌, ◌≡◌, true, false, refl, ◌∙◌, ap, sym, List, [], ◌∷◌, ◌++◌,
  length, replicate, ok, arith, length-append, length-replicate, reverse-replicate, leb, Bool-cases,
  inl, inr, ==_iff, ◌>>=◌,
}
use mathlib.Core.List.{append_assoc, reverse, reverse-append, reverse-reverse}
use perun_ckb_backend.Wallet.Signature.{
  pad_der_encoded_signature, strip_padding, remove_padding, marker_byte, zero_byte,
  padded_signature_length,
}

strip_padding-zeros :
    (k : ℕ) (bs : List ℕ) → strip_padding (replicate k zero_byte ++ bs) ≡ strip_padding bs
unfolding strip_padding
strip_padding-zeros zero bs = refl
strip_padding-zeros (suc k) bs = ground (arith, strip_padding-zeros k bs)

abbrev Padded : List ℕ → List ℕ → Type 0
Padded bs s = (k : ℕ) × (bs ≡ replicate k zero_byte ++ marker_byte ∷ reverse s)

add_zero : (b : ℕ) (bs s : List ℕ) → Padded bs s → (b == zero_byte) ≡ true → Padded (b ∷ bs) s
add_zero b bs s (k, q) z = (suc k, cc (q, (==_iff b zero_byte).0 z))

add_marker :
    (b : ℕ) (bs s : List ℕ) → reverse bs ≡ s → (b == marker_byte) ≡ true → Padded (b ∷ bs) s
add_marker b bs s q z = (0, cc (ap reverse q, reverse-reverse bs, (==_iff b marker_byte).0 z))

-- Bytes from which the padding is stripped are zeros, the marker and the rest.
strip_padding-ok : (bs s : List ℕ) → strip_padding bs ≡ ok s → Padded bs s
unfolding strip_padding
strip_padding-ok [] s h = absurd (ground arith)
strip_padding-ok (b ∷ bs) s h = elim (Bool-cases (b == marker_byte)) [
  | inl e ↦ add_marker b bs s (ground arith) e
  | inr e ↦ elim (Bool-cases (b == zero_byte)) [
    | inl z ↦ add_zero b bs s (strip_padding-ok bs s (ground arith)) z
    | inr z ↦ absurd (ground arith)
  ]
]

reverse-padded :
    (s : List ℕ) (k : ℕ)
    → reverse (s ++ marker_byte ∷ replicate k zero_byte)
      ≡ replicate k zero_byte ++ marker_byte ∷ reverse s
reverse-padded s k =
    reverse-append s (marker_byte ∷ replicate k zero_byte)
    ∙ ap (λ bs. bs ++ reverse s) (reverse-append (marker_byte ∷ []) (replicate k zero_byte))
    ∙ ap (λ bs. (bs ++ marker_byte ∷ []) ++ reverse s) (reverse-replicate k zero_byte)
    ∙ append_assoc (replicate k zero_byte) (marker_byte ∷ []) (reverse s)

le→leb : (n : ℕ) → n < padded_signature_length → leb padded_signature_length n ≡ false
le→leb n h = ground arith

abbrev padded : List ℕ → List ℕ
padded s = s ++ marker_byte ∷ replicate (padded_signature_length - suc (length s)) zero_byte

length-padded :
    (s : List ℕ) → length s < padded_signature_length → length (padded s) ≡ padded_signature_length
length-padded s h = omega (
  arith,
  length-append s (marker_byte ∷ replicate (padded_signature_length - suc (length s)) zero_byte),
  length-replicate (padded_signature_length - suc (length s)) zero_byte,
)

-- A signature of at most 72 bytes is padded, and removing the padding gives it back.
pub remove_padding-pad :
    (s : List ℕ)
    → length s < padded_signature_length
    → (pad_der_encoded_signature s >>= remove_padding) ≡ ok s
unfolding pad_der_encoded_signature remove_padding strip_padding
remove_padding-pad s h =
    let n = padded_signature_length - suc (length s) in
    let e = length-padded s h in
    let stripped : strip_padding (reverse (padded s)) ≡ ok s =
      ap strip_padding (reverse-padded s n)
      ∙ strip_padding-zeros n (marker_byte ∷ reverse s)
      ∙ ap ok (reverse-reverse s) in
    ground (arith, e, stripped)

padded-pad :
    (p s : List ℕ) (k : ℕ)
    → p ≡ s ++ marker_byte ∷ replicate k zero_byte
    → length p ≡ padded_signature_length
    → pad_der_encoded_signature s ≡ ok p
unfolding pad_der_encoded_signature
padded-pad p s k q e =
    let n : length p ≡ length s + suc k =
      ap length q
      ∙ length-append s (marker_byte ∷ replicate k zero_byte)
      ∙ ap (λ n. length s + suc n) (length-replicate k zero_byte) in
    let m : padded_signature_length - suc (length s) ≡ k = omega (arith, n, e) in
    rw (le→leb (length s) (omega (arith, n, e)), m, q) refl

-- Bytes from which the padding can be removed are the padding of what is left: there is no other
-- padding of a signature.
pub pad-remove_padding :
    (p s : List ℕ) → remove_padding p ≡ ok s → pad_der_encoded_signature s ≡ ok p
unfolding pad_der_encoded_signature remove_padding
pad-remove_padding p s h = elim (Bool-cases (length p == padded_signature_length)) [
  | inl e ↦
      let (k, q) = strip_padding-ok (reverse p) s (ground arith) in
      padded-pad p s k
        (cc (
          ap reverse (q ∙ sym (reverse-padded s k)),
          reverse-reverse p,
          reverse-reverse (s ++ marker_byte ∷ replicate k zero_byte),
        ))
        ((==_iff (length p) padded_signature_length).0 e)
  | inr e ↦ absurd (ground arith)
]
