-- ===== src/Asset.antt =====
-- channel/asset/asset.go: the assets of a channel. A `pchannel.Asset` is one of the dynamic types
-- that the type switches tell apart; `foreign` stands for every type of another package.
pub mod Laws
use perun_ckb_backend.Prelude.{
  ℕ, ◌==◌, ◌&&◌, ◌||◌, not, if◌then◌else◌, Bool, true, false, Option, none, some, List, [], ◌∷◌,
  Result, ok, err, ◌>>=◌, ◌>>◌, check,
}
use perun_ckb_backend.Ckb.{Script, Sdk}

pub data AssetError : Type 0 where
  empty_data invalid_ckbyte unknown_type undecodable_sudt nil_sudt not_sudt : AssetError

pub record Sudt : Type 0 where
  pub type_script : Script
  pub max_capacity : ℕ

pub record Asset : Type 0 where
  pub is_ckbytes : Bool
  pub sudt : Option Sudt

-- The identifier `CCID`, with the contract's identifier as text bytes.
pub record Ccid : Type 0 where
  pub backend_id : ℕ
  pub ledger_id : List ℕ

pub record NervosAsset : Type 0 where
  pub asset : Asset
  pub id : Ccid

-- An asset of another backend: its address, and the key of its ledger if it is a `multi.Asset`.
pub record ForeignAsset : Type 0 where
  pub address : List ℕ
  pub ledger_key : Option (List ℕ)

pub data PAsset : Type 0 where
  nervos : NervosAsset → PAsset
  plain : Asset → PAsset
  foreign : ForeignAsset → PAsset

abbrev pub ckbyte_magic : ℕ
ckbyte_magic = 0

abbrev pub sudt_magic : ℕ
sudt_magic = 1

abbrev pub ckb_backend_id : ℕ
ckb_backend_id = 3

-- `MakeCCID(ContractLID{"03"})`
abbrev pub default_ccid : Ccid
default_ccid = record { backend_id = ckb_backend_id; ledger_id = b'0' ∷ b'3' ∷ [] }

-- `IsCompatibleAsset`
unfoldable pub is_compatible_asset : PAsset → Option Asset
is_compatible_asset (nervos a) = some a.asset
is_compatible_asset (plain a) = some a
is_compatible_asset (foreign a) = none

-- `Asset.IsInvalid`
unfoldable pub is_invalid : Asset → Bool
is_invalid a = not a.is_ckbytes && elim a.sudt [ none ↦ true | some _ ↦ false ]

-- `IsSUDTAsset`
unfoldable pub is_sudt_asset : PAsset → Result AssetError Sudt
unfolding is_compatible_asset
is_sudt_asset p = elim (is_compatible_asset p) [
  | none ↦ err AssetError.not_sudt
  | some a ↦
      if a.is_ckbytes
      then err AssetError.not_sudt
      else elim a.sudt [ none ↦ err AssetError.nil_sudt | some s ↦ ok s ]
]

-- `NewCKBytesAsset` and `NewCKBytesNervosAsset`
abbrev pub new_ckbytes_asset : Asset
new_ckbytes_asset = record { is_ckbytes = true; sudt = none }

abbrev pub new_ckbytes_nervos_asset : PAsset
new_ckbytes_nervos_asset = nervos (record { asset = new_ckbytes_asset; id = default_ccid })

module _ (sdk : Sdk) where
  -- `SUDT.Equal`
  unfoldable pub sudt_equal : Sudt → Sudt → Bool
  sudt_equal s t = sdk.script_equals s.type_script t.type_script && s.max_capacity == t.max_capacity

  -- The tests of `Asset.Equal` after its type switch.
  unfoldable pub asset_equal : Asset → Asset → Bool
  asset_equal a o =
      if a.is_ckbytes && o.is_ckbytes
      then true
      else (if a.is_ckbytes || o.is_ckbytes then false else elim a.sudt [
        | none ↦ false
        | some s ↦ elim o.sudt [ none ↦ false | some t ↦ sudt_equal s t ]
      ])

  -- `Asset.Equal`, and `NervosAsset.Equal` on the inner asset.
  unfoldable pub equal : Asset → PAsset → Bool
  unfolding is_compatible_asset asset_equal
  equal a p = elim (is_compatible_asset p) [ none ↦ false | some o ↦ asset_equal a o ]

-- The molecule encoding of an SUDT, in ckb-sdk-go: `SUDT.Encode` and `SUDT.Decode`.
pub record SudtCodec : Type 0 where
  pub encode : Sudt → List ℕ
  pub decode : List ℕ → Option Sudt

-- The reset of `Args` after decoding: an empty slice that is not nil becomes nil.
unfoldable pub clear_empty_args : Script → Script
clear_empty_args s = elim s.args [
  | none ↦ s
  | some args ↦ elim args [ [] ↦ record s { args = none } | _ ∷ _ ↦ s ]
]

module _ (codec : SudtCodec) where
  -- `Asset.Address`; `none` is the panic on a nil SUDT.
  unfoldable pub address : Asset → Option (List ℕ)
  address a =
      if a.is_ckbytes then some [] else elim a.sudt [ none ↦ none | some s ↦ some (codec.encode s) ]

  -- `Asset.MarshalBinary`; a nil SUDT is the panic of `a.SUDT.Encode()`.
  unfoldable pub marshal_binary : Asset → Result AssetError (List ℕ)
  marshal_binary a = if a.is_ckbytes then ok (ckbyte_magic ∷ []) else elim a.sudt [
    | none ↦ err AssetError.nil_sudt
    | some s ↦ ok (sudt_magic ∷ codec.encode s)
  ]

  -- The `SUDTMagic` case of `Asset.UnmarshalBinary`.
  unfoldable pub unmarshal_sudt : List ℕ → Result AssetError Asset
  unfolding clear_empty_args
  unmarshal_sudt bytes = elim (codec.decode bytes) [
    | none ↦ err AssetError.undecodable_sudt
    | some s ↦ ok (record {
      is_ckbytes = false;
      sudt = some (record s { type_script = clear_empty_args s.type_script });
    })
  ]

  -- `Asset.UnmarshalBinary`
  unfoldable pub unmarshal_binary : List ℕ → Result AssetError Asset
  unfolding unmarshal_sudt
  unmarshal_binary [] = err AssetError.empty_data
  unmarshal_binary (magic ∷ rest) =
      if magic == ckbyte_magic
      then elim rest [ [] ↦ ok new_ckbytes_asset | _ ∷ _ ↦ err AssetError.invalid_ckbyte ]
      else (if magic == sudt_magic then unmarshal_sudt rest else err AssetError.unknown_type)

  -- `NervosAsset.UnmarshalBinary`
  unfoldable pub unmarshal_nervos : List ℕ → Result AssetError NervosAsset
  unfolding unmarshal_binary
  unmarshal_nervos bytes = elim (unmarshal_binary bytes) [
    | ok a ↦ ok (record { asset = a; id = default_ccid })
    | err e ↦ err e
  ]
