-- ===== src/Tests/Encodings.antt =====
-- The encodings at small values.
use perun_ckb_backend.Prelude.{
  ℕ, ◌+◌, ◌*◌, ◌^◌, ◌≤◌, ◌≡◌, ◌⊎◌, ◌↔◌, refl, Option, none, some, List, [], ◌∷◌, ◌++◌, Result, ok,
  err, ◌>>=◌, length, pos, true, false, All, arith, inl, inr, replicate, sym, ap, ◌∙◌, subst,
  Option-cases, bytes_equal, bytes_equal_sound, bytes_equal_refl,
}
use perun_ckb_backend.Asset.{
  is_compatible_asset, is_sudt_asset, Sudt, SudtCodec, marshal_binary, unmarshal_binary, is_invalid,
  asset_equal,
}
use perun_ckb_backend.Asset.Laws.{
  EqualsTests, Decodes, asset_equal_iff, meaning, canonical, unmarshal_binary-marshal_binary,
}
use perun_ckb_backend.Perun.{State}
use perun_ckb_backend.Encoding.Bytes.{
  pack_uint128, to_uint128, EncodeError, to_u128_le, le_value, be_value, pack_nonce, unpack_nonce,
}
use perun_ckb_backend.Encoding.Bytes.Laws.{
  to_u128_le-fits, to_u128_le-overflow, unpack_nonce-pack_nonce, pack_nonce-too_long,
}
use perun_ckb_backend.Encoding.State.{pack_ckbyte_distribution, PackedState, pack_channel_state}
use perun_ckb_backend.Encoding.State.Commitment.{
  StoresUint128, SameBalances, pack_channel_state-injective,
}
use perun_ckb_backend.Encoding.Params.{PackedParams, pack_channel_parameters}
use perun_ckb_backend.Encoding.Params.Laws.{Describes, pack_channel_parameters-Describes}
use perun_ckb_backend.Encoding.Signature.{to_low_s, new_molecule_signature}
use perun_ckb_backend.Encoding.Signature.Laws.{to_low_s-low, new_molecule_signature-raw}
use perun_ckb_backend.Wallet.Address.{
  Participant, ScriptForm, pack_on_chain, unpack_on_chain, pack_off_chain, unpack_off_chain,
  new_default_participant,
}
use perun_ckb_backend.Wallet.Address.Laws.{
  HasKey, HasArgs, IsRestored, ReadsBack, with_args, unpack_off_chain-pack_off_chain,
  unpack_on_chain-pack_on_chain,
}
use perun_ckb_backend.Wallet.Signature.{pad_der_encoded_signature, remove_padding}
use perun_ckb_backend.Wallet.Signature.Laws.{remove_padding-pad, pad-remove_padding}
use perun_ckb_backend.Tests.{same_args, sdk, sudt_asset, perun, state, params, curve, keys, alice}

to_u128_le-fits_example :
    (bs : List ℕ) × (to_u128_le (pos 300) ≡ ok bs) × (length bs ≡ 16) × (le_value bs ≡ 300)
to_u128_le-fits_example = to_u128_le-fits 300 (omega arith)

to_u128_le-overflow_example : to_u128_le (pos (2 ^ 128)) ≡ err EncodeError.overflow
to_u128_le-overflow_example = to_u128_le-overflow (2 ^ 128) (omega arith)

unpack_nonce-pack_nonce_example :
    (bs : List ℕ) × (pack_nonce 300 ≡ ok bs)
    × (length bs ≡ 32)
    × (unpack_nonce be_value bs ≡ some 300)
unpack_nonce-pack_nonce_example = unpack_nonce-pack_nonce be_value 300 (λ bs. refl) (omega arith)

pack_nonce-too_long_example : pack_nonce (2 ^ 256) ≡ err EncodeError.nonce_too_long
pack_nonce-too_long_example = pack_nonce-too_long (2 ^ 256) (omega arith)

remove_padding-pad_example :
    (pad_der_encoded_signature (48 ∷ 255 ∷ 0 ∷ []) >>= remove_padding) ≡ ok (48 ∷ 255 ∷ 0 ∷ [])
remove_padding-pad_example = remove_padding-pad (48 ∷ 255 ∷ 0 ∷ []) (omega arith)

abbrev padded : List ℕ
padded = 48 ∷ 6 ∷ 255 ∷ replicate 70 0

pad-remove_padding_example : pad_der_encoded_signature (48 ∷ 6 ∷ []) ≡ ok padded
unfolding remove_padding
pad-remove_padding_example = pad-remove_padding padded (48 ∷ 6 ∷ []) padded-stripped
  where
    padded-stripped : remove_padding padded ≡ ok (48 ∷ 6 ∷ [])
    padded-stripped = refl

-- A script as its fields, with the bytes of its args.
abbrev fields : ScriptForm (ℕ × ℕ × List ℕ)
fields = record {
  pack = λ s. (s.code_hash, s.hash_type, elim s.args [ none ↦ [] | some args ↦ args ]);
  unpack = λ t. record { code_hash = t.0; hash_type = t.1; args = some t.2 };
}

fields-ReadsBack : ReadsBack fields
fields-ReadsBack s = elim (Option-cases s.args) [
  | inl e ↦ ground arith
  | inr (args, e) ↦ ground arith
]

-- The args of the first party's scripts are nil, and come back as empty slices.
abbrev restored : Participant
restored = record alice {
  payment_script = with_args alice.payment_script;
  unlock_script = with_args alice.unlock_script;
}

unpack_off_chain-pack_off_chain_example :
    (((pack_off_chain fields alice >>= unpack_off_chain keys fields) ≡ ok restored)
      ↔ IsRestored keys alice restored)
    × (((pack_off_chain fields alice >>= unpack_off_chain keys fields) ≡ ok alice)
        ↔ (HasKey keys alice × HasArgs alice.payment_script × HasArgs alice.unlock_script))
unpack_off_chain-pack_off_chain_example =
    unpack_off_chain-pack_off_chain keys fields alice restored fields-ReadsBack

restores : (pack_off_chain fields alice >>= unpack_off_chain keys fields) ≡ ok restored
unfolding pack_off_chain unpack_off_chain keys
restores = refl

unpack_on_chain-pack_on_chain_example :
    (pack_on_chain sdk alice >>= unpack_on_chain keys) ≡ new_default_participant keys (some 2)
unpack_on_chain-pack_on_chain_example = unpack_on_chain-pack_on_chain keys sdk alice (2, refl, refl)

to_low_s-low_example :
    (t : ℕ) × (to_low_s curve 900 ≡ pos t) × (2 * t ≤ 1001) × ((t ≡ 900) ⊎ (t + 900 ≡ 1001))
to_low_s-low_example = to_low_s-low curve 900 (omega arith)

new_molecule_signature-raw_example :
    new_molecule_signature curve ((1 ∷ replicate 31 0) ++ (replicate 32 2 ++ 27 ∷ []))
    ≡ ok
        (curve.marshal (be_value (1 ∷ replicate 31 0)) (to_low_s curve (be_value (replicate 32 2))))
new_molecule_signature-raw_example =
    new_molecule_signature-raw curve 1 (replicate 31 0) (replicate 32 2) (27 ∷ []) refl refl
      (omega arith) (λ e. omega (arith, e))

abbrev packed_params : PackedParams
packed_params = record {
  is_ledger_channel = true;
  is_virtual_channel = false;
  party_a = record { pub_key = 2; payment_script_hash = 11; unlock_script_hash = 12 };
  party_b = record { pub_key = 3; payment_script_hash = 21; unlock_script_hash = 22 };
  nonce = replicate 30 0 ++ 1 ∷ 44 ∷ [];
  challenge_duration = 60;
}

params-packed : pack_channel_parameters sdk params ≡ ok packed_params
unfolding pack_channel_parameters pack_on_chain pack_nonce sdk
params-packed = refl

pack_channel_parameters-Describes_example : Describes sdk params packed_params
pack_channel_parameters-Describes_example =
    pack_channel_parameters-Describes sdk params packed_params params-packed

sdk-StoresUint128 : StoresUint128 sdk
unfolding sdk
sdk-StoresUint128 m n hm hn e =
    let (bs, f, _, v) = to_u128_le-fits m hm in
    let (cs, g, _, w) = to_u128_le-fits n hn in
    let same : bs ≡ cs = ground (arith, e, f, g) in sym v ∙ ap le_value same ∙ w

abbrev other : State
other = record state { backends = [] }

abbrev packed_of : Result EncodeError PackedState → PackedState
packed_of (ok s) = s
packed_of (err e) = record {
  channel_id = 0;
  version = 0;
  is_final = false;
  allocation = [];
  locked = [];
}

state-packed :
    pack_channel_state sdk perun state ≡ ok (packed_of (pack_channel_state sdk perun state))
unfolding pack_channel_state is_compatible_asset is_invalid pack_ckbyte_distribution is_sudt_asset
    pack_uint128 to_uint128
state-packed = refl

other-packed :
    pack_channel_state sdk perun other ≡ ok (packed_of (pack_channel_state sdk perun state))
unfolding pack_channel_state is_compatible_asset is_invalid pack_ckbyte_distribution is_sudt_asset
    pack_uint128 to_uint128
other-packed = refl

pack_channel_state-injective_example :
    (state.id ≡ other.id)
    × (state.version ≡ other.version)
    × (state.is_final ≡ other.is_final)
    × All (SameBalances sdk sdk-StoresUint128 perun state other) state.assets
pack_channel_state-injective_example =
    pack_channel_state-injective sdk sdk-StoresUint128 perun state other
      (packed_of (pack_channel_state sdk perun state)) refl state-packed other-packed

-- A codec that writes the fields one after the other.
abbrev decode_fields : List ℕ → Option Sudt
decode_fields (hash ∷ kind ∷ cap ∷ args) = some (record {
  type_script = record { code_hash = hash; hash_type = kind; args = some args };
  max_capacity = cap;
})
decode_fields bytes = none

abbrev arg_bytes : Option (List ℕ) → List ℕ
arg_bytes none = []
arg_bytes (some args) = args

abbrev codec : SudtCodec
codec = record {
  encode = λ s.
      s.type_script.code_hash
      ∷ s.type_script.hash_type
      ∷ s.max_capacity
      ∷ arg_bytes s.type_script.args;
  decode = decode_fields;
}

codec-Decodes : Decodes codec
codec-Decodes s = elim (Option-cases s.type_script.args) [
  | inl e ↦ (_, refl, ground arith)
  | inr (args, e) ↦ (_, refl, ground arith)
]

unmarshal_binary-marshal_binary_example :
    (marshal_binary codec sudt_asset >>= unmarshal_binary codec) ≡ ok (canonical sudt_asset)
unfolding is_invalid
unmarshal_binary-marshal_binary_example =
    unmarshal_binary-marshal_binary codec sudt_asset codec-Decodes sudt_asset-valid
  where
    sudt_asset-valid : is_invalid sudt_asset ≡ false
    sudt_asset-valid = refl

same_args_iff : (x y : Option (List ℕ)) → (same_args x y ≡ true) ↔ (x ≡ y)
same_args_iff none none = (λ h. refl, λ e. refl)
same_args_iff none (some ys) = (λ h. absurd (ground arith), λ e. absurd (ground arith))
same_args_iff (some xs) none = (λ h. absurd (ground arith), λ e. absurd (ground arith))
same_args_iff (some xs) (some ys) = (
  λ h. ap some (bytes_equal_sound xs ys h),
  λ e. subst (λ zs. bytes_equal xs zs ≡ true) (some_injective xs ys e) (bytes_equal_refl xs),
)
  where
    some_injective : (xs ys : List ℕ) → some xs ≡ some ys → xs ≡ ys
    some_injective xs ys e = ground arith

sdk-EqualsTests : EqualsTests sdk
unfolding sdk
sdk-EqualsTests s t =
    let same = same_args_iff s.args t.args in
    (λ h. ground (arith, same.0), λ e. ground (arith, same.1))

asset_equal_iff_example :
    (asset_equal sdk sudt_asset sudt_asset ≡ true)
    ↔ ((meaning sudt_asset ≡ meaning sudt_asset) × (is_invalid sudt_asset ≡ false))
asset_equal_iff_example = asset_equal_iff sdk sudt_asset sudt_asset sdk-EqualsTests
