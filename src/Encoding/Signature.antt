-- ===== src/Encoding/Signature.antt =====
-- encoding/signature.go: signatures as the contract reads them.
pub mod Laws
use perun_ckb_backend.Prelude.{
  ℕ, zero, suc, ◌-◌, ◌/◌, ◌==◌, leb, ltb, if◌then◌else◌, ◌||◌, List, [], ◌∷◌, length, ℤ, pos,
  negsuc, Result, ok, err,
}
use perun_ckb_backend.Encoding.Bytes.{EncodeError, be_value}

unfoldable pub take : ℕ → List ℕ → List ℕ
take zero xs = []
take (suc n) [] = []
take (suc n) (x ∷ xs) = x ∷ take n xs

unfoldable pub drop : ℕ → List ℕ → List ℕ
drop zero xs = xs
drop (suc n) [] = []
drop (suc n) (x ∷ xs) = drop n xs

-- `new(big.Int).Sub(a, b)` of two numbers that are not negative.
unfoldable pub sub_int : ℕ → ℕ → ℤ
sub_int a b = if leb b a then pos (a - b) else negsuc (b - a - 1)

-- The order of secp256k1's group, and `asn1.Marshal` of the pair (r, s).
pub record Curve : Type 0 where
  pub order : ℕ
  pub marshal : ℕ → ℤ → List ℕ

-- The tag of an ASN.1 sequence.
abbrev pub sequence_tag : ℕ
sequence_tag = 48

module _ (curve : Curve) where
  -- `toLowS`
  unfoldable pub to_low_s : ℕ → ℤ
  unfolding sub_int
  to_low_s s = if ltb (curve.order / 2) s then sub_int curve.order s else pos s

  -- The signature R||S of 64 bytes, or R||S||V of 65, as DER.
  unfoldable pub raw_signature : List ℕ → Result EncodeError (List ℕ)
  unfolding to_low_s take drop
  raw_signature sig =
      if length sig == 65 || length sig == 64
      then ok (curve.marshal (be_value (take 32 sig)) (to_low_s (be_value (take 32 (drop 32 sig)))))
      else err EncodeError.signature_length

  -- `NewMoleculeSignature`
  unfoldable pub new_molecule_signature : List ℕ → Result EncodeError (List ℕ)
  unfolding raw_signature
  new_molecule_signature [] = raw_signature []
  new_molecule_signature (b ∷ bs) =
      if b == sequence_tag then ok (b ∷ bs) else raw_signature (b ∷ bs)
