-- ===== src/Wallet/Signature.antt =====
-- wallet/signature.go: DER signatures padded to the fixed length that go-perun wants.
pub mod Laws
use perun_ckb_backend.Prelude.{
  ℕ, suc, ◌-◌, ◌==◌, leb, if◌then◌else◌, List, [], ◌∷◌, ◌++◌, length, replicate, Result, ok, err,
}
use mathlib.Core.List.{reverse}

pub data SignatureError : Type 0 where
  too_long wrong_length invalid_padding missing_marker : SignatureError

abbrev pub padded_signature_length : ℕ
padded_signature_length = 73

abbrev pub marker_byte : ℕ
marker_byte = 255

abbrev pub zero_byte : ℕ
zero_byte = 0

-- `PadDEREncodedSignature`
unfoldable pub pad_der_encoded_signature : List ℕ → Result SignatureError (List ℕ)
pad_der_encoded_signature sig =
    if leb padded_signature_length (length sig)
    then err SignatureError.too_long
    else ok (sig ++ marker_byte ∷ replicate (padded_signature_length - suc (length sig)) zero_byte)

-- The loop of `RemovePadding` from the last byte down: the bytes come in reverse order.
unfoldable pub strip_padding : List ℕ → Result SignatureError (List ℕ)
strip_padding [] = err SignatureError.missing_marker
strip_padding (b ∷ bs) =
    let rest = strip_padding bs in
    if b == marker_byte
    then ok (reverse bs)
    else (if b == zero_byte then rest else err SignatureError.invalid_padding)

-- `RemovePadding`
unfoldable pub remove_padding : List ℕ → Result SignatureError (List ℕ)
unfolding strip_padding
remove_padding sig =
    if length sig == padded_signature_length
    then strip_padding (reverse sig)
    else err SignatureError.wrong_length
