-- ===== src/Client/Keeps/Virtual.antt =====
-- The methods for virtual channels forget no script of the caches.
use perun_ckb_backend.Prelude.{ℕ, List, [], ◌∷◌}
use perun_ckb_backend.Perun.{State, Params}
use perun_ckb_backend.Transaction.Handler.{ChannelStatus, VirtualChannelStatus}
use perun_ckb_backend.Transaction.Handler.Status.{VcDisputeInfo}
use perun_ckb_backend.Transaction.Handler.Virtual.{ForceCloseWithVcInfo}
use perun_ckb_backend.Client.{Context, LiveCell, M}
use perun_ckb_backend.Client.Config.{Client}
use perun_ckb_backend.Client.Stable.{Keeps, pure-Keeps, deref-Keeps, bind-Keeps, if-Keeps, keeping}
use perun_ckb_backend.Client.Cells.Keeps.{
  get_channel_with_id-Keeps, get_virtual_channel_live_cell_with_cache-Keeps,
}
use perun_ckb_backend.Client.VirtualChannel.{
  VcRequest, VcContext, virtual_cells, none_if_missing, script_with_id, vc_context,
  submit_vc_dispute, dispute_first, merge_cells, dispute_newer, dispute_progress, dispute_vc_with,
  dispute_vc,
}
use perun_ckb_backend.Client.VirtualClose.{
  first_two_signatures, settled_states, submit_force_close, force_close_with_vc,
}
use perun_ckb_backend.Client.Keeps.Ledger.{
  new_perun_transaction_builder-Keeps, build_transaction-Keeps, submit_tx-Keeps, submit_calls-Keeps,
  tip_header-Keeps, cached_cell-Keeps, two_signatures-Keeps, get_assets-Keeps, block_of-Keeps,
}

module _ {W T C : Type 0} (cl : Client W T C) (ctx : Context) where
  virtual_cells-Keeps : (id : ℕ) → Keeps (virtual_cells cl ctx id)
  unfolding virtual_cells
  virtual_cells-Keeps id =
      get_virtual_channel_live_cell_with_cache-Keeps cl.sdk cl.formats cl.deployment cl.node
        cl.others ctx id

  none_if_missing-Keeps :
      {A : Type 0} (m : M W T (List A)) → Keeps m → Keeps (none_if_missing cl ctx m)
  unfolding none_if_missing
  none_if_missing-Keeps m k = record { grows = k.grows }

  script_with_id-Keeps : (id : ℕ) → Keeps (script_with_id cl ctx id)
  unfolding script_with_id
  script_with_id-Keeps id =
      bind-Keeps _ _
        (get_channel_with_id-Keeps cl.sdk cl.formats cl.deployment cl.node cl.others ctx id)
        (λ found. pure-Keeps _)

  vc_context-Keeps : (req : VcRequest) → Keeps (vc_context cl ctx req)
  unfolding vc_context
  vc_context-Keeps req =
      search (keeping, tip_header-Keeps, two_signatures-Keeps, script_with_id-Keeps) depth 12

  submit_vc_dispute-Keeps : (info : VcDisputeInfo) → Keeps (submit_vc_dispute cl ctx info)
  unfolding submit_vc_dispute
  submit_vc_dispute-Keeps info = search submit_calls-Keeps

  dispute_first-Keeps : (req : VcRequest) (c : VcContext) → Keeps (dispute_first cl ctx req c)
  unfolding dispute_first
  dispute_first-Keeps req c = search (keeping, cached_cell-Keeps, submit_vc_dispute-Keeps)

  merge_cells-Keeps :
      (a b : LiveCell × VirtualChannelStatus) (c : VcContext) → Keeps (merge_cells cl ctx a b c)
  unfolding merge_cells
  merge_cells-Keeps a b c = search (keeping, submit_calls-Keeps)

  dispute_newer-Keeps :
      (req : VcRequest) (parent : LiveCell × ChannelStatus) (vc : LiveCell × VirtualChannelStatus)
      (c : VcContext)
      → Keeps (dispute_newer cl ctx req parent vc c)
  unfolding dispute_newer
  dispute_newer-Keeps req parent vc c = search (keeping, submit_vc_dispute-Keeps)

  dispute_progress-Keeps :
      (req : VcRequest) (vc : LiveCell × VirtualChannelStatus) (c : VcContext)
      → Keeps (dispute_progress cl ctx req vc c)
  unfolding dispute_progress
  dispute_progress-Keeps req vc c =
      search (keeping, cached_cell-Keeps, if-Keeps, dispute_newer-Keeps)

  dispute_vc_with-Keeps :
      (req : VcRequest) (c : VcContext) (cells : List (LiveCell × VirtualChannelStatus))
      → Keeps (dispute_vc_with cl ctx req c cells)
  unfolding dispute_vc_with
  dispute_vc_with-Keeps req c [] = dispute_first-Keeps req c
  dispute_vc_with-Keeps req c (vc ∷ []) = dispute_progress-Keeps req vc c
  dispute_vc_with-Keeps req c (a ∷ b ∷ cells) = merge_cells-Keeps a b c

  pub dispute_vc-Keeps : (req : VcRequest) → Keeps (dispute_vc cl ctx req)
  unfolding dispute_vc
  dispute_vc-Keeps req = bind-Keeps _ _ (vc_context-Keeps req) (λ c.
      bind-Keeps _ _ (none_if_missing-Keeps _ (virtual_cells-Keeps req.vc_id))
        (λ cells. dispute_vc_with-Keeps req c cells))

  first_two_signatures-Keeps : (sigs : List (List ℕ)) → Keeps (first_two_signatures cl ctx sigs)
  unfolding first_two_signatures
  first_two_signatures-Keeps [] = search keeping
  first_two_signatures-Keeps (a ∷ []) = search keeping
  first_two_signatures-Keeps (a ∷ b ∷ rest) = search keeping

  settled_states-Keeps :
      (s : State) (status : ChannelStatus) (v : State) (vc_status : VirtualChannelStatus)
      → Keeps (settled_states cl ctx s status v vc_status)
  unfolding settled_states
  settled_states-Keeps s status v vc_status =
      bind-Keeps _ _ (deref-Keeps _) (λ newer. if-Keeps newer _ _ (pure-Keeps _) (search keeping))

  submit_force_close-Keeps : (info : ForceCloseWithVcInfo) → Keeps (submit_force_close cl ctx info)
  unfolding submit_force_close
  submit_force_close-Keeps info =
      search
        (
          keeping, if-Keeps, submit_calls-Keeps, new_perun_transaction_builder-Keeps,
          build_transaction-Keeps, submit_tx-Keeps,
        )
        depth 9

  pub force_close_with_vc-Keeps :
      (id vc_id : ℕ) (s v : State) (sigs : List (List ℕ)) (params : Params) (index_map : List ℕ)
      → Keeps (force_close_with_vc cl ctx id vc_id s v sigs params index_map)
  unfolding force_close_with_vc
  force_close_with_vc-Keeps id vc_id s v sigs params index_map =
      search
        (
          keeping, virtual_cells-Keeps, cached_cell-Keeps, get_assets-Keeps,
          first_two_signatures-Keeps, tip_header-Keeps, block_of-Keeps, settled_states-Keeps,
          submit_force_close-Keeps,
        )
        depth 16
