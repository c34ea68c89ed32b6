-- ===== src/Encoding/Signature/Laws.antt =====
-- The signatures of encoding/signature.go are canonical, and independent of the recovery byte.
use perun_ckb_backend.Prelude.{
  ℕ, ◌+◌, ◌*◌, ◌-◌, ◌/◌, ◌<◌, ◌≤◌, ◌==◌, ◌≡◌, ◌⊎◌, inl, inr, refl, subst, true, false, ◌||◌, List,
  [], ◌∷◌, ◌++◌, length, pos, ok, arith, length-append, Bool-cases, ap, ltb,
}
use perun_ckb_backend.Encoding.Bytes.{be_value}
use perun_ckb_backend.Encoding.Signature.{
  Curve, to_low_s, raw_signature, new_molecule_signature, take, drop, sub_int, sequence_tag,
}

take-append : (xs ys : List ℕ) → take (length xs) (xs ++ ys) ≡ xs
unfolding take
take-append [] ys = refl
take-append (x ∷ xs) ys = ap (◌∷◌ x) (take-append xs ys)

drop-append : (xs ys : List ℕ) → drop (length xs) (xs ++ ys) ≡ ys
unfolding drop
drop-append [] ys = refl
drop-append (x ∷ xs) ys = drop-append xs ys

module _ (curve : Curve) where
  -- An s below the order of the group becomes an s of the lower half: s itself, or its negative.
  pub to_low_s-low :
      (s : ℕ)
      → s < curve.order
      → (t : ℕ) × (to_low_s curve s ≡ pos t)
        × (2 * t ≤ curve.order)
        × ((t ≡ s) ⊎ (t + s ≡ curve.order))
  unfolding to_low_s sub_int
  to_low_s-low s h = elim (Bool-cases (ltb (curve.order / 2) s)) [
    | inl e ↦ (curve.order - s, ground arith, ground arith, inr (omega arith))
    | inr e ↦ (s, ground arith, ground arith, inl refl)
  ]

  no_tag : (b : ℕ) → ¬ (b ≡ sequence_tag) → (b == sequence_tag) ≡ false
  no_tag b h = ground arith

  is_raw : (n m : ℕ) → m ≤ 1 → n ≡ 64 + m → (n == 65 || n == 64) ≡ true
  is_raw n m h e = ground arith

  raw_signature-append :
      (r s v : List ℕ)
      → length r ≡ 32
      → length s ≡ 32
      → length v ≤ 1
      → raw_signature curve (r ++ (s ++ v))
        ≡ ok (curve.marshal (be_value r) (to_low_s curve (be_value s)))
  unfolding raw_signature
  raw_signature-append r s v hr hs hv =
      let n : length (r ++ (s ++ v)) ≡ 64 + length v =
        omega (arith, length-append r (s ++ v), length-append s v) in
      let first : take 32 (r ++ (s ++ v)) ≡ r =
        subst (λ k. take k (r ++ (s ++ v)) ≡ r) hr (take-append r (s ++ v)) in
      let rest : drop 32 (r ++ (s ++ v)) ≡ s ++ v =
        subst (λ k. drop k (r ++ (s ++ v)) ≡ s ++ v) hr (drop-append r (s ++ v)) in
      let second : take 32 (s ++ v) ≡ s = subst (λ k. take k (s ++ v) ≡ s) hs (take-append s v) in
      rw (is_raw (length (r ++ (s ++ v))) (length v) hv n, first, rest, second) refl

  -- A signature of 64 or 65 bytes that does not begin with the tag of a sequence is the DER of its
  -- two halves, the second in canonical form; a 65th byte is ignored.
  pub new_molecule_signature-raw :
      (b : ℕ) (r s v : List ℕ)
      → length (b ∷ r) ≡ 32
      → length s ≡ 32
      → length v ≤ 1
      → ¬ (b ≡ sequence_tag)
      → new_molecule_signature curve ((b ∷ r) ++ (s ++ v))
        ≡ ok (curve.marshal (be_value (b ∷ r)) (to_low_s curve (be_value s)))
  unfolding new_molecule_signature
  new_molecule_signature-raw b r s v hr hs hv hb =
      rw (no_tag b hb, new_molecule_signature) (raw_signature-append (b ∷ r) s v hr hs hv)
