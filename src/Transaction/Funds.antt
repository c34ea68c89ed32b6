-- ===== src/Transaction/Funds.antt =====
-- `AssetInformation` of transaction/transaction.go: amounts by the hash of their type script, where
-- the zero hash stands for CKBytes.
use perun_ckb_backend.Prelude.{
  ℕ, ◌==◌, if◌then◌else◌, Bool, true, false, ◌&&◌, Option, none, some, List, [], ◌∷◌, length,
  Result, ok, err,
}
use perun_ckb_backend.Prelude.GoMap
use perun_ckb_backend.Prelude.GoMap.{GoMap}
use perun_ckb_backend.Prelude.Words.{add64}
use perun_ckb_backend.Ckb.{Script, CellOutput, Sdk}
use perun_ckb_backend.Encoding.Bytes.{le_uint64}

pub data TxError : Type 0 where
  panic out_of_fuel no_iterator empty_iterator no_script_group not_enough_funds : TxError
  unknown_udt encoding live_cell no_change below_minimum not_uint64 index_range : TxError
  set_witness : TxError

abbrev pub zero_hash : ℕ
zero_hash = 0

pub record AssetInformation : Type 0 where
  pub asset_amounts : GoMap ℕ
  pub known_udts : GoMap Script

-- `NewAssetInformation`
unfoldable pub new_asset_information : GoMap Script → AssetInformation
new_asset_information known = record { asset_amounts = []; known_udts = known }

-- `AssetAmount`; `CKBAmount` is the amount under the zero hash.
unfoldable pub asset_amount : ℕ → AssetInformation → ℕ
asset_amount hash ai = GoMap.get_or 0 hash ai.asset_amounts

-- `AddAssetAmount`
unfoldable pub add_asset_amount : ℕ → ℕ → AssetInformation → AssetInformation
add_asset_amount hash amount ai = record ai {
  asset_amounts =
      GoMap.insert hash (add64 (GoMap.get_or 0 hash ai.asset_amounts) amount) ai.asset_amounts;
}

-- The loop of `MergeWithAssetInformation` over the other's amounts.
unfoldable pub merge_amounts : GoMap ℕ → AssetInformation → AssetInformation
unfolding add_asset_amount
merge_amounts [] ai = ai
merge_amounts ((hash, amount) ∷ m) ai = merge_amounts m (add_asset_amount hash amount ai)

-- `MergeWithAssetInformation`
unfoldable pub merge_with : AssetInformation → AssetInformation → AssetInformation
unfolding merge_amounts
merge_with ai other = merge_amounts other.asset_amounts ai

-- The loop of `EqualAssets`.
unfoldable pub equal_amounts : GoMap ℕ → AssetInformation → Bool
unfolding asset_amount
equal_amounts [] other = true
equal_amounts ((hash, amount) ∷ m) other =
    asset_amount hash other == amount && equal_amounts m other

-- `EqualAssets`
unfoldable pub equal_assets : AssetInformation → AssetInformation → Bool
unfolding equal_amounts
equal_assets ai other =
    length ai.asset_amounts == length other.asset_amounts && equal_amounts ai.asset_amounts other

module _ (sdk : Sdk) where
  -- `isUDT`
  unfoldable pub is_udt : Option Script → AssetInformation → Bool
  is_udt none ai = false
  is_udt (some type_script) ai = elim (GoMap.lookup (sdk.script_hash type_script) ai.known_udts) [
    | none ↦ false
    | some _ ↦ true
  ]

  -- The UDT's part of `AddValuesFromOutput`; the read of a shorter slice panics.
  unfoldable pub add_udt :
      Option Script → List ℕ → AssetInformation → Result TxError AssetInformation
  unfolding add_asset_amount
  add_udt none bytes ai = ok ai
  add_udt (some type_script) bytes ai = elim (le_uint64 bytes) [
    | none ↦ err TxError.panic
    | some amount ↦ ok (add_asset_amount (sdk.script_hash type_script) amount ai)
  ]

  -- `AddValuesFromOutput`
  unfoldable pub add_values_from_output :
      CellOutput → List ℕ → AssetInformation → Result TxError AssetInformation
  unfolding is_udt add_udt
  add_values_from_output output bytes ai =
      let with_ckb = add_asset_amount zero_hash output.capacity ai in
      if is_udt output.type_script ai
      then add_udt output.type_script bytes with_ckb
      else ok with_ckb
