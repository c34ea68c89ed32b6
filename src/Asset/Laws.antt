-- ===== src/Asset/Laws.antt =====
-- Equality and the binary form of the assets of channel/asset/asset.go.
use perun_ckb_backend.Prelude.{
  ◌≡◌, ap, ◌↔◌, true, false, Option, none, some, [], ◌∷◌, ok, inl, inr, ◌>>=◌, arith, Bool-cases,
  Option-cases,
}
use mathlib.Core.Option
use perun_ckb_backend.Ckb.{Script, Sdk}
use perun_ckb_backend.Asset.{
  Sudt, Asset, is_invalid, asset_equal, sudt_equal, SudtCodec, marshal_binary, unmarshal_binary,
  unmarshal_sudt, new_ckbytes_asset,
}

-- `Script.Equals` of the SDK tests whether two scripts are the same.
abbrev pub EqualsTests : Sdk → Type 0
EqualsTests sdk = (s t : Script) → (sdk.script_equals s t ≡ true) ↔ (s ≡ t)

-- What an asset says: CKBytes whatever its SUDT, an SUDT, or nothing.
abbrev pub meaning : Asset → Option (Option Sudt)
meaning a = elim a.is_ckbytes [
  | true ↦ some none
  | false ↦ elim a.sudt [ none ↦ none | some s ↦ some (some s) ]
]

sudt_equal_iff : (sdk : Sdk) (s t : Sudt) → EqualsTests sdk → (sudt_equal sdk s t ≡ true) ↔ (s ≡ t)
unfolding sudt_equal
sudt_equal_iff sdk s t tests =
    let same = tests s.type_script t.type_script in
    (λ h. ground (arith, same.0), λ e. ground (arith, same.1))

-- Two assets are equal exactly when both are valid and mean the same, if the SDK's `Equals`
-- decides whether two scripts are the same.
pub asset_equal_iff :
    (sdk : Sdk) (a b : Asset)
    → EqualsTests sdk
    → (asset_equal sdk a b ≡ true) ↔ ((meaning a ≡ meaning b) × (is_invalid a ≡ false))
unfolding asset_equal is_invalid
asset_equal_iff sdk a b tests = elim (Option-cases a.sudt) [
  | inl e ↦ (λ h. ground arith, λ h. ground arith)
  | inr (s, e) ↦ elim (Option-cases b.sudt) [
    | inl f ↦ (λ h. ground arith, λ h. ground arith)
    | inr (t, f) ↦
        let same = sudt_equal_iff sdk s t tests in
        (λ h. ground (arith, same.0), λ h. ground (arith, same.1))
  ]
]

-- An asset in the form that `UnmarshalBinary` leaves: CKBytes without an SUDT, and no argument
-- slice that is empty and not nil.
abbrev pub canonical_script : Script → Script
canonical_script s = elim s.args [
  | none ↦ s
  | some args ↦ elim args [ [] ↦ record s { args = none } | _ ∷ _ ↦ s ]
]

abbrev pub canonical_sudt : Sudt → Sudt
canonical_sudt s = record s { type_script = canonical_script s.type_script }

abbrev pub canonical : Asset → Asset
canonical a = elim a.is_ckbytes [
  | true ↦ new_ckbytes_asset
  | false ↦ record { is_ckbytes = false; sudt = Option.map canonical_sudt a.sudt }
]

-- The molecule encoding of an SUDT can be decoded, up to nil and empty arguments.
abbrev pub Decodes : SudtCodec → Type 0
Decodes codec =
    (s : Sudt)
    → (t : Sudt) × (codec.decode (codec.encode s) ≡ some t) × (canonical_sudt t ≡ canonical_sudt s)

marshal_sudt :
    (codec : SudtCodec) (a : Asset) (s : Sudt)
    → Decodes codec
    → a.is_ckbytes ≡ false
    → a.sudt ≡ some s
    → (marshal_binary codec a >>= unmarshal_binary codec) ≡ ok (canonical a)
unfolding marshal_binary unmarshal_binary
marshal_sudt codec a s decodes c e =
    let (t, decoded, same) = decodes s in
    rw (c, e, unmarshal_sudt, decoded)
      (ap (λ u. ok (record { is_ckbytes = false; sudt = some u })) same)

-- A valid asset comes back from its binary form in its canonical form, if the molecule encoding of
-- an SUDT can be decoded.
pub unmarshal_binary-marshal_binary :
    (codec : SudtCodec) (a : Asset)
    → Decodes codec
    → is_invalid a ≡ false
    → (marshal_binary codec a >>= unmarshal_binary codec) ≡ ok (canonical a)
unfolding marshal_binary unmarshal_binary is_invalid
unmarshal_binary-marshal_binary codec a decodes h = elim (Bool-cases a.is_ckbytes) [
  | inl c ↦ ground arith
  | inr c ↦ elim (Option-cases a.sudt) [
    | inl e ↦ ground arith
    | inr (s, e) ↦ marshal_sudt codec a s decodes c e
  ]
]
