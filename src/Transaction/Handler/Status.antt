-- ===== src/Transaction/Handler/Status.antt =====
-- The statuses of a channel's cells: transaction/openinfo.go, disputeinfo.go, vcdisputeinfo.go and
-- forceclosewithvc.go, and `ToFundedChannelStatus` of encoding/channel_status.go.
use perun_ckb_backend.Prelude.{
  ℕ, ◌==◌, ◌&&◌, Bool, true, false, Option, none, some, List, [], ◌∷◌, ℤ, pos, negsuc, Result, ok,
  err, ◌>>=◌,
}
use perun_ckb_backend.Ckb.{Script, OutPoint, Sdk}
use perun_ckb_backend.Asset.{PAsset, nervos, plain, new_ckbytes_asset, asset_equal}
use perun_ckb_backend.Perun.{State, Params, GoPerun}
use perun_ckb_backend.Wallet.Address.{Participant, pack_on_chain}
use perun_ckb_backend.Encoding.State.{pack_channel_state}
use perun_ckb_backend.Transaction.Funds.{TxError}
use perun_ckb_backend.Transaction.Handler.{
  ChannelStatus, VirtualChannelStatus, ParentData, VcDispute, encoded,
}

-- `DisputeInfo`, with the fields that building reads.
pub record DisputeInfo : Type 0 where
  pub channel_cell : OutPoint
  pub status : ChannelStatus
  pub new_state : State
  pub header : ℕ
  pub pcts : Option Script
  pub sig_a : List ℕ
  pub sig_b : List ℕ

-- `VcDisputeInfo`, with the fields that building reads. The cell and the status of the virtual channel
-- are nil before its first dispute, and the owner is nil after it.
pub record VcDisputeInfo : Type 0 where
  pub channel_cell : OutPoint
  pub vc_cell : Option OutPoint
  pub lc_status : ChannelStatus
  pub vc_status : Option VirtualChannelStatus
  pub vc_state : State
  pub parent_state : State
  pub params : Params
  pub header : ℕ
  pub pcts : Option Script
  pub vcts : Option Script
  pub parent_sig_a : List ℕ
  pub parent_sig_b : List ℕ
  pub vc_dispute : VcDispute
  pub parents_vec : List ParentData
  pub first : Bool
  pub owner : Option Participant

-- `ToFundedChannelStatus`
unfoldable pub to_funded_channel_status : ChannelStatus → ChannelStatus
to_funded_channel_status s = record s { funded = true }

-- `x.Sign() == 0`
unfoldable pub is_zero : ℤ → Bool
is_zero (pos n) = n == 0
is_zero (negsuc n) = false

module _ (sdk : Sdk) (perun : GoPerun) where
  -- `state.Assets[0].Equal(CKBytes)`: the two types of this backend compare the inner asset, and an
  -- asset of another backend equals none of this one.
  unfoldable pub is_ckbytes_only : List PAsset → Bool
  is_ckbytes_only (nervos a ∷ []) = asset_equal sdk a.asset new_ckbytes_asset
  is_ckbytes_only (plain a ∷ []) = asset_equal sdk a new_ckbytes_asset
  is_ckbytes_only assets = false

  -- `initialFundedStatus`
  unfoldable pub initial_funded_status : State → Bool
  unfolding is_ckbytes_only is_zero
  initial_funded_status s =
      is_ckbytes_only s.assets && is_zero (perun.balance s 1 (plain new_ckbytes_asset))

  -- `mkInitialChannelStatus`
  unfoldable pub mk_initial_channel_status : State → Result TxError ChannelStatus
  unfolding initial_funded_status
  mk_initial_channel_status s = do
    packed ← encoded (pack_channel_state sdk perun s)
    ok (record {
      state = packed;
      funded = initial_funded_status s;
      disputed = false;
      vc_disputed = false;
      vcts_hash = 0;
    })

  -- `DisputeInfo.update`
  unfoldable pub update_dispute : DisputeInfo → Result TxError DisputeInfo
  update_dispute di = do
    packed ← encoded (pack_channel_state sdk perun di.new_state)
    ok (record di { status = record di.status { state = packed; disputed = true } })

  -- `mkInitialVirtualChannelStatus`
  unfoldable pub mk_initial_virtual_channel_status :
      VcDisputeInfo → Result TxError VirtualChannelStatus
  mk_initial_virtual_channel_status di = do
    packed ← encoded (pack_channel_state sdk perun di.vc_state)
    elim di.owner [
      | none ↦ err TxError.panic
      | some owner ↦ elim (pack_on_chain sdk owner) [
        | err e ↦ err TxError.encoding
        | ok owner ↦ ok (record {
          vc_state = packed;
          parents = di.parents_vec;
          first_force_close = false;
          owner = owner;
        })
      ]
    ]

  -- `VcDisputeInfo.update`
  unfoldable pub update_vc_dispute : Script → VcDisputeInfo → Result TxError VcDisputeInfo
  update_vc_dispute vcts di = do
    packed ← encoded (pack_channel_state sdk perun di.parent_state)
    ok (record di {
      lc_status = record di.lc_status {
        state = packed;
        disputed = true;
        vc_disputed = true;
        vcts_hash = sdk.script_hash vcts;
      };
    })

  -- `VcDisputeInfo.updateVCStatus`, with the new status; a nil status panics.
  unfoldable pub update_vc_status :
      VcDisputeInfo → Result TxError (VcDisputeInfo × VirtualChannelStatus)
  update_vc_status di = do
    packed ← encoded (pack_channel_state sdk perun di.vc_state)
    elim di.vc_status [
      | none ↦ err TxError.panic
      | some old ↦
          let status : VirtualChannelStatus = record old { vc_state = packed } in
          ok (record di { vc_status = some status }, status)
    ]
