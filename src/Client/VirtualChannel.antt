-- ===== src/Client/VirtualChannel.antt =====
-- `DisputeVC` and `ForceCloseWithVC` of client/ckbclient.go.
use perun_ckb_backend.Prelude.{
  ℕ, ◌==◌, ◌%◌, leb, not, true, false, none, some, List, [], ◌∷◌, Result, ok, err, if◌then◌else◌,
}
use perun_ckb_backend.Ckb.{Script}
use perun_ckb_backend.Perun.{State, Params}
use perun_ckb_backend.Wallet.Address.{Participant}
use perun_ckb_backend.Encoding.Bytes.{be_value}
use perun_ckb_backend.Encoding.Signature.{take, drop}
use perun_ckb_backend.Transaction.Handler.{
  ParentData, VirtualChannelStatus, VcDispute, ChannelStatus,
}
use perun_ckb_backend.Transaction.Handler.Status.{VcDisputeInfo}
use perun_ckb_backend.Transaction.Handler.Virtual.{build_vc_merge}
use perun_ckb_backend.Transaction.Handler.Dispatch
use perun_ckb_backend.Client.{
  Context, ClientError, LiveCell, M, pure, ◌>>=◌, ◌>>◌, require, give, deref,
}
use perun_ckb_backend.Client.Config.{Client}
use perun_ckb_backend.Client.Cells.{get_channel_with_id}
use perun_ckb_backend.Client.Cells.Virtual.{get_virtual_channel_live_cell_with_cache}
use perun_ckb_backend.Client.Versions.{check_version}
use perun_ckb_backend.Client.Submit.{submit_calls}
use perun_ckb_backend.Client.Channel.{psh, tip_header, cached_cell, two_signatures, calls_of}

-- The ids of the two parents of a virtual channel, in the first 64 bytes of its `Aux`.
unfoldable pub parent_ids : Params → ℕ × ℕ
unfolding take drop be_value
parent_ids params = (be_value (take 32 params.aux), be_value (take 32 (drop 32 params.aux)))

-- One entry of the vector of parents; an index is cut to a byte.
unfoldable pub parent_data : ℕ → ℕ → ℕ → ParentData
parent_data i j hash = record { index0 = i % 256; index1 = j % 256; pcts_hash = hash }

-- The vector of parents in `DisputeVC`: the parent that is disputed has the given index map, and the
-- other one the same map with its entries exchanged.
unfoldable pub parents_vec : ℕ × ℕ → ℕ → List ℕ → ℕ → ℕ → Result ClientError (List ParentData)
unfolding parent_data
parents_vec ids parent (i ∷ j ∷ rest) hash_a hash_b =
    if ids.0 == parent
    then ok (parent_data i j hash_a ∷ parent_data j i hash_b ∷ [])
    else (if ids.1 == parent
        then ok (parent_data j i hash_a ∷ parent_data i j hash_b ∷ [])
        else err ClientError.parent_not_found)
parents_vec ids parent short hash_a hash_b =
    if ids.0 == parent
    then err ClientError.panic
    else (if ids.1 == parent then err ClientError.panic else err ClientError.parent_not_found)

-- What `DisputeVC` is called with.
pub record VcRequest : Type 0 where
  pub vc_id : ℕ
  pub parent_id : ℕ
  pub vc_state : State
  pub parent_state : State
  pub vc_params : Params
  pub vc_sigs : List (List ℕ)
  pub parent_sigs : List (List ℕ)
  pub index_map : List ℕ

-- What it knows before it looks for the cells of the virtual channel.
pub record VcContext : Type 0 where
  pub header : ℕ
  pub dispute : VcDispute
  pub parents : List ParentData

module _ {W T C : Type 0} (cl : Client W T C) (ctx : Context) where
  unfoldable pub virtual_cells : ℕ → M W T (List (LiveCell × VirtualChannelStatus))
  unfolding get_virtual_channel_live_cell_with_cache
  virtual_cells =
      get_virtual_channel_live_cell_with_cache cl.sdk cl.formats cl.deployment cl.node cl.others ctx

  -- `ErrNoChannelLiveCell` is no error here, but the answer that there are no cells.
  unfoldable pub none_if_missing : {A : Type 0} → M W T (List A) → M W T (List A)
  none_if_missing m w =
      let (r, v) = m w in
      (
        elim r [
          | ok cells ↦ ok cells
          | err e ↦ elim e [ ClientError.no_channel_live_cell ↦ ok [] | other ↦ err other ]
        ],
        v,
      )

  -- The type script of a channel on the chain.
  unfoldable pub script_with_id : ℕ → M W T Script
  unfolding get_channel_with_id
  script_with_id id =
      get_channel_with_id cl.sdk cl.formats cl.deployment cl.node cl.others ctx id >>= λ found.
      pure found.1

  -- The first part of `DisputeVC`.
  unfoldable pub vc_context : VcRequest → M W T VcContext
  unfolding tip_header two_signatures script_with_id parents_vec parent_ids
  vc_context req = do
    header ← tip_header cl ctx
    vc_sigs ← two_signatures cl ctx req.vc_sigs
    parent_sigs ← two_signatures cl ctx req.parent_sigs
    let ids = parent_ids req.vc_params
    require (not (ids.0 == ids.1)) ClientError.same_parents
    a ← script_with_id ids.0
    b ← script_with_id ids.1
    parents ←
        give (
          parents_vec ids req.parent_id req.index_map (cl.sdk.script_hash a) (cl.sdk.script_hash b))
    pure (record {
      header = header;
      dispute = record {
        sig_a = vc_sigs.0;
        sig_b = vc_sigs.1;
        parent_sig_a = parent_sigs.0;
        parent_sig_b = parent_sigs.1;
      };
      parents = parents;
    })

  -- The owner of a virtual channel's cell: the signer with its own lock script.
  unfoldable pub signer_participant : Participant
  signer_participant = record {
    pub_key = some cl.signer.public_key;
    payment_script = cl.signer.address;
    unlock_script = cl.signer.address;
  }

  -- `DisputeVC` of the builder, with the calls of the handler.
  unfoldable pub submit_vc_dispute : VcDisputeInfo → M W T (Unit {0})
  unfolding submit_calls psh calls_of
  submit_vc_dispute info = submit_calls cl ctx [] (
      calls_of (
        Dispatch.dispute_vc cl.sdk cl.perun cl.molecule (psh cl ctx) cl.collectors.collector cl.keys
          info []))

  -- The first dispute of a virtual channel.
  unfoldable pub dispute_first : VcRequest → VcContext → M W T (Unit {0})
  unfolding cached_cell signer_participant submit_vc_dispute
  dispute_first req c = do
    parent ← cached_cell cl ctx req.parent_id
    require (leb parent.1.state.version req.parent_state.version) ClientError.old_parent
    output ← deref parent.0.output
    submit_vc_dispute (record {
      channel_cell = parent.0.out_point;
      vc_cell = none;
      lc_status = parent.1;
      vc_status = none;
      vc_state = req.vc_state;
      parent_state = req.parent_state;
      params = req.vc_params;
      header = c.header;
      pcts = output.type_script;
      vcts = none;
      parent_sig_a = c.dispute.parent_sig_a;
      parent_sig_b = c.dispute.parent_sig_b;
      vc_dispute = c.dispute;
      parents_vec = c.parents;
      first = true;
      owner = some signer_participant;
    })

  -- The merge of the two cells of a virtual channel.
  unfoldable pub merge_cells :
      LiveCell × VirtualChannelStatus
      → LiveCell × VirtualChannelStatus
      → VcContext
      → M W T (Unit {0})
  unfolding submit_calls psh
  merge_cells a b c = do
    first ← deref a.0.output
    second ← deref b.0.output
    submit_calls cl ctx [] (
        build_vc_merge cl.sdk cl.perun cl.keys cl.molecule (psh cl ctx) cl.collectors.collector
          (record {
            vc_cell0 = a.0.out_point;
            vc_cell1 = b.0.out_point;
            vc_status0 = a.1;
            vc_status1 = b.1;
            occupied_capacity0 = cl.sdk.occupied_capacity first a.0.output_data;
            occupied_capacity1 = cl.sdk.occupied_capacity second b.0.output_data;
            block_num0 = a.0.block_number;
            block_num1 = b.0.block_number;
            header = c.header;
            vcts = first.type_script;
            vc_dispute = c.dispute;
          })
          [])

  -- A dispute where the virtual channel has a cell, with newer states.
  unfoldable pub dispute_newer :
      VcRequest
      → LiveCell × ChannelStatus
      → LiveCell × VirtualChannelStatus
      → VcContext
      → M W T (Unit {0})
  unfolding submit_vc_dispute
  dispute_newer req parent vc c = do
    output ← deref parent.0.output
    vc_output ← deref vc.0.output
    submit_vc_dispute (record {
      channel_cell = parent.0.out_point;
      vc_cell = some vc.0.out_point;
      lc_status = parent.1;
      vc_status = some vc.1;
      vc_state = req.vc_state;
      parent_state = req.parent_state;
      params = req.vc_params;
      header = c.header;
      pcts = output.type_script;
      vcts = vc_output.type_script;
      parent_sig_a = c.dispute.parent_sig_a;
      parent_sig_b = c.dispute.parent_sig_b;
      vc_dispute = c.dispute;
      parents_vec = c.parents;
      first = false;
      owner = none;
    })

  -- Without newer states, it succeeds and does nothing.
  unfoldable pub dispute_progress :
      VcRequest → LiveCell × VirtualChannelStatus → VcContext → M W T (Unit {0})
  unfolding cached_cell check_version dispute_newer
  dispute_progress req vc c = do
    parent ← cached_cell cl ctx req.parent_id
    newer ← deref (check_version req.parent_state parent.1 (some req.vc_state) (some vc.1))
    if newer then dispute_newer req parent vc c else pure tt

  -- The three cases of `DisputeVC`.
  unfoldable pub dispute_vc_with :
      VcRequest → VcContext → List (LiveCell × VirtualChannelStatus) → M W T (Unit {0})
  unfolding dispute_first merge_cells dispute_progress
  dispute_vc_with req c [] = dispute_first req c
  dispute_vc_with req c (vc ∷ []) = dispute_progress req vc c
  dispute_vc_with req c (a ∷ b ∷ cells) = merge_cells a b c

  -- `DisputeVC`
  unfoldable pub dispute_vc : VcRequest → M W T (Unit {0})
  unfolding vc_context virtual_cells none_if_missing dispute_vc_with
  dispute_vc req = do
    c ← vc_context req
    cells ← none_if_missing (virtual_cells req.vc_id)
    dispute_vc_with req c cells
