-- ===== src/Encoding/Bytes.antt =====
-- The byte encodings of numbers: `toU128LE` of encoding/channel_state.go, `PackNonce` and
-- `UnpackNonce` of encoding/channel_parameters.go, and encoding/molecule/molecule.go.
-- `be_bytes` and `be_value` are Go's `big.Int.Bytes` and `big.Int.SetBytes`.
pub mod Laws
use perun_ckb_backend.Prelude.{
  ℕ, zero, suc, ◌+◌, ◌-◌, ◌*◌, ◌/◌, ◌%◌, ◌^◌, Bool, List, [], ◌∷◌, ◌++◌, length, replicate, ltb,
  ◌==◌, if◌then◌else◌, ℤ, pos, negsuc, Result, ok, err, Option, none, some,
}
use perun_ckb_backend.Prelude.Words.{u128_mod}
use mathlib.Core.List.{reverse}
use perun_ckb_backend.Ckb.{Sdk}

pub data EncodeError : Type 0 where
  negative overflow underflow nonce_too_long not_uint64 invalid_asset not_sudt sudt_is_nil :
      EncodeError
  eth_locked rows_mismatch not_two_parties app_channel not_participant key_is_nil : EncodeError
  not_multi_asset chain_id address_length signature_length : EncodeError

-- The digits of a number to the base 256, the lowest first. The fuel bounds their count.
unfoldable pub le_digits : ℕ → ℕ → List ℕ
le_digits zero n = []
le_digits (suc f) n = let rest = le_digits f (n / 256) in if n == 0 then [] else n % 256 ∷ rest

-- `x.Bytes()`: big-endian, with no leading zero.
unfoldable pub be_bytes : ℕ → List ℕ
unfolding le_digits
be_bytes n = reverse (le_digits n n)

unfoldable pub le_value : List ℕ → ℕ
le_value [] = 0
le_value (b ∷ bs) = b + 256 * le_value bs

-- `new(big.Int).SetBytes(bs)`
unfoldable pub be_value : List ℕ → ℕ
unfolding le_value
be_value bs = le_value (reverse bs)

-- `binary.LittleEndian.Uint64`: the first eight bytes; it panics on a shorter slice.
unfoldable pub le_uint64 : List ℕ → Option ℕ
unfolding le_value
le_uint64 (a ∷ b ∷ c ∷ d ∷ e ∷ f ∷ g ∷ h ∷ rest) =
    some (le_value (a ∷ b ∷ c ∷ d ∷ e ∷ f ∷ g ∷ h ∷ []))
le_uint64 short = none

-- `out[i] = b[len(b)-1-i]` for each `i`, over sixteen zeros.
unfoldable pub to_u128_le : ℤ → Result EncodeError (List ℕ)
unfolding be_bytes
to_u128_le (negsuc n) = err EncodeError.negative
to_u128_le (pos n) =
    let b = be_bytes n in
    if ltb 16 (length b)
    then err EncodeError.overflow
    else ok (reverse b ++ replicate (16 - length b) 0)

-- `copy(res[32-len(bytes):], bytes)` over 32 zeros.
unfoldable pub pack_nonce : ℕ → Result EncodeError (List ℕ)
unfolding be_bytes
pack_nonce nonce =
    let b = be_bytes nonce in
    if ltb 32 (length b)
    then err EncodeError.nonce_too_long
    else ok (replicate (32 - length b) 0 ++ b)

-- `UnpackByte32`: the first 32 bytes of the slice; it panics on a shorter one.
unfoldable pub first_bytes : ℕ → List ℕ → Option (List ℕ)
first_bytes zero bs = some []
first_bytes (suc n) [] = none
first_bytes (suc n) (b ∷ bs) = elim (first_bytes n bs) [ none ↦ none | some r ↦ some (b ∷ r) ]

unfoldable pub unpack_byte32 : List ℕ → Option (List ℕ)
unfolding first_bytes
unpack_byte32 source = first_bytes 32 source

-- `UnpackNonce`, where `nonce_from_bytes` is go-perun's `channel.NonceFromBytes`.
unfoldable pub unpack_nonce : (List ℕ → ℕ) → List ℕ → Option ℕ
unfolding unpack_byte32
unpack_nonce nonce_from_bytes nonce = elim (unpack_byte32 nonce) [
  | none ↦ none
  | some bs ↦ some (nonce_from_bytes bs)
]

-- `ToUint128`
unfoldable pub to_uint128 : ℤ → Result EncodeError ℕ
to_uint128 (negsuc n) = err EncodeError.underflow
to_uint128 (pos n) = if ltb (u128_mod - 1) n then err EncodeError.overflow else ok n

module _ (sdk : Sdk) where
  -- `PackUint128`
  unfoldable pub pack_uint128 : ℤ → Result EncodeError (List ℕ)
  pack_uint128 x = elim (to_uint128 x) [ ok n ↦ ok (sdk.store_little_endian n) | err e ↦ err e ]
