-- ===== src/Client/Versions.antt =====
-- `checkVersion` and `updateState` of client/ckbclient.go: is a state newer than the one on the chain,
-- and a state with the balances of the one on the chain.
pub mod Update
pub mod Stored
pub mod Packed
use perun_ckb_backend.Prelude.{
  ℕ, suc, ◌+◌, ◌-◌, ◌^◌, ◌==◌, ◌≤◌, ◌<◌, ◌≡◌, ◌↔◌, ◌⊎◌, inl, inr, ltb, ◌&&◌, Bool, true, false,
  Option, none, some, List, [], ◌∷◌, length, get_elem?, set, ℤ, pos, negsuc, Result, ok, err, ◌>>=◌,
  ◌>>◌, if◌then◌else◌, arith, check,
}
use perun_ckb_backend.Prelude.Words.{u64_mod}
use perun_ckb_backend.Asset.{
  Asset, PAsset, plain, new_ckbytes_asset, is_compatible_asset, is_invalid, is_sudt_asset,
}
use perun_ckb_backend.Perun.{State, GoPerun}
use perun_ckb_backend.Encoding.State.{AnyBalances, SudtBalances, PackedState}
use perun_ckb_backend.Transaction.Handler.{ChannelStatus, VirtualChannelStatus}
use perun_ckb_backend.Client.{ClientError}

-- The part of `checkVersion` for a virtual channel.
unfoldable pub check_vc_version : ℕ → ℕ → ℕ → ℕ → Bool
check_vc_version old new old_vc new_vc =
    if ltb new_vc old_vc then false else (if new == old && new_vc == old_vc then false else true)

-- `checkVersion`; `none` is the panic if one of the arguments for a virtual channel is nil.
unfoldable pub check_version :
    State → ChannelStatus → Option State → Option VirtualChannelStatus → Option Bool
unfolding check_vc_version
check_version parent status vc vc_status =
    if ltb parent.version status.state.version then some false else elim vc [
      | none ↦ elim vc_status [
        | none ↦ some (if parent.version == status.state.version then false else true)
        | some _ ↦ none
      ]
      | some v ↦ elim vc_status [
        | none ↦ none
        | some s ↦
            some (check_vc_version status.state.version parent.version s.vc_state.version v.version)
      ]
    ]

-- A ledger channel's state passes exactly if its version is higher than the one on the chain. With a
-- virtual channel, both states pass exactly if neither version is lower and one is higher.
pub check_version-newer :
    (s v : State) (status : ChannelStatus) (vc_status : VirtualChannelStatus)
    → ((check_version s status none none ≡ some true) ↔ (status.state.version < s.version))
      × ((check_version s status (some v) (some vc_status) ≡ some true) ↔ (
          (status.state.version ≤ s.version)
          × (vc_status.vc_state.version ≤ v.version)
          × ((status.state.version < s.version) ⊎ (vc_status.vc_state.version < v.version))))
unfolding check_version
check_version-newer s v status vc_status =
    (((λ h. ground arith), λ h. ground arith), ((λ h. ground arith), λ h. ground arith))

-- `int64(x)` of a uint64
unfoldable pub to_int64 : ℕ → ℤ
to_int64 n = if ltb n (2 ^ 63) then pos n else negsuc (u64_mod - n - 1)

-- `state.Balances[i] = row`
unfoldable pub set_row : ℕ → List ℤ → List (List ℤ) → Result ClientError (List (List ℤ))
set_row i row rows = if ltb i (length rows) then ok (set rows i row) else err ClientError.panic

-- `Assets().Get(i).ToUnion().IntoCKByteDistribution()`; another item of the union panics.
unfoldable pub ckbytes_at : List AnyBalances → ℕ → Result ClientError (ℕ × ℕ)
ckbytes_at rows i = elim (get_elem? rows i) [
  | none ↦ err ClientError.panic
  | some row ↦ elim row [
    | AnyBalances.ckbyte_distribution a b ↦ ok (a, b)
    | _ ↦ err ClientError.panic
  ]
]

-- `Assets().Get(i).ToUnion().IntoSUDTBalances()`
unfoldable pub sudts_at : List AnyBalances → ℕ → Result ClientError SudtBalances
sudts_at rows i = elim (get_elem? rows i) [
  | none ↦ err ClientError.panic
  | some row ↦ elim row [ AnyBalances.sudt_balances x ↦ ok x | _ ↦ err ClientError.panic ]
]

-- The calls of `uint128.LoadLittleEndian` are the parameter `load`.
module _ (load : List ℕ → ℕ) (packed : PackedState) where
  -- The row of an SUDT in the loop of `updateState`.
  unfoldable pub update_sudt : ℕ → Asset → List (List ℤ) → Result ClientError (List (List ℤ))
  unfolding set_row sudts_at
  update_sudt i a rows = elim (is_sudt_asset (plain a)) [
    | err e ↦ err ClientError.invalid_asset
    | ok s ↦ do
      x ← sudts_at packed.allocation i
      set_row i (pos (load x.nth0) ∷ pos (load x.nth1) ∷ []) rows
  ]

  -- One round of the loop.
  unfoldable pub update_asset : ℕ → PAsset → List (List ℤ) → Result ClientError (List (List ℤ))
  unfolding update_sudt
  update_asset i p rows = elim (is_compatible_asset p) [
    | none ↦ ok rows
    | some a ↦
        if is_invalid a
        then err ClientError.invalid_asset
        else (if a.is_ckbytes then ok rows else update_sudt i a rows)
  ]

  -- The loop, from the index of the first asset given.
  unfoldable pub update_assets :
      ℕ → List PAsset → List (List ℤ) → Result ClientError (List (List ℤ))
  unfolding update_asset
  update_assets i [] rows = ok rows
  update_assets i (p ∷ ps) rows = update_asset i p rows >>= update_assets (i + 1) ps

  -- `updateState`, which changes the state that it is given.
  unfoldable pub update_state : GoPerun → State → Result ClientError State
  unfolding ckbytes_at set_row to_int64 update_assets
  update_state perun s =
      let s : State = record s {
        version = if ltb s.version packed.version then packed.version else s.version;
        is_final = packed.is_final;
      } in
      elim (perun.asset_index s (plain new_ckbytes_asset)) [
        | none ↦ err ClientError.asset_not_found
        | some i ↦ do
          d ← ckbytes_at packed.allocation i
          rows ← set_row i (to_int64 d.0 ∷ to_int64 d.1 ∷ []) s.balances
          rows ← update_assets 0 s.assets rows
          ok (record s { balances = rows })
      ]
