-- ===== src/Client/VirtualClose.antt =====
-- `ForceCloseWithVC` of client/ckbclient.go: a parent channel is closed by force with its virtual
-- channel.
use perun_ckb_backend.Prelude.{ℕ, not, none, some, List, [], ◌∷◌, Result, ok, err, if◌then◌else◌}
use perun_ckb_backend.Perun.{State, Params}
use perun_ckb_backend.Encoding.Signature.{new_molecule_signature}
use perun_ckb_backend.Transaction.Handler.{ChannelStatus, VirtualChannelStatus}
use perun_ckb_backend.Transaction.Build.{prepare_min_ckb_input}
use perun_ckb_backend.Transaction.Handler.Virtual.{
  ForceCloseWithVcInfo, build_first_force_close_with_vc, build_second_force_close_with_vc,
}
use perun_ckb_backend.Client.{Context, ClientError, LiveCell, M, pure, fail, ◌>>=◌, give, deref}
use perun_ckb_backend.Client.Config.{Client}
use perun_ckb_backend.Client.Versions.{check_version, update_state}
use perun_ckb_backend.Client.Submit.{
  built, submit_calls, new_perun_transaction_builder, build_transaction, submit_tx,
}
use perun_ckb_backend.Client.Channel.{
  psh, tip_header, cached_cell, encoded_signature, calls_of, block_of, get_assets, mk_cell_inputs,
}
use perun_ckb_backend.Client.VirtualChannel.{virtual_cells}

-- The cell of a virtual channel that has one; the call of its first element panics if there is none.
unfoldable pub only_cell :
    List (LiveCell × VirtualChannelStatus) → Result ClientError (LiveCell × VirtualChannelStatus)
only_cell [] = err ClientError.panic
only_cell (vc ∷ []) = ok vc
only_cell (a ∷ b ∷ cells) = err ClientError.too_many_cells

module _ {W T C : Type 0} (cl : Client W T C) (ctx : Context) where
  -- `sigs[0]` and `sigs[1]`; their number is not checked, and one that is missing panics.
  unfoldable pub first_two_signatures : List (List ℕ) → M W T (List ℕ × List ℕ)
  unfolding encoded_signature
  first_two_signatures [] = fail ClientError.panic
  first_two_signatures (a ∷ []) =
      give (encoded_signature (new_molecule_signature cl.curve a)) >>= λ sig_a.
      fail ClientError.panic
  first_two_signatures (a ∷ b ∷ rest) = do
    sig_a ← give (encoded_signature (new_molecule_signature cl.curve a))
    sig_b ← give (encoded_signature (new_molecule_signature cl.curve b))
    pure (sig_a, sig_b)

  -- The states with which the channels are closed: those given, or, if they are not newer than those on
  -- the chain, the latter's.
  unfoldable pub settled_states :
      State → ChannelStatus → State → VirtualChannelStatus → M W T (State × State)
  unfolding check_version update_state
  settled_states state status vc_state vc_status = do
    newer ← deref (check_version state status (some vc_state) (some vc_status))
    let updated = (do
      s ← give (update_state cl.collectors.load_little_endian status.state cl.perun state)
      v ← give (update_state cl.collectors.load_little_endian vc_status.vc_state cl.perun vc_state)
      pure (s, v))
    if newer then pure (state, vc_state) else updated

  -- `ForceCloseWithVC` of the builder, with the calls of the handler: a second force close spends a cell
  -- with CKBytes of its own.
  unfoldable pub submit_force_close : ForceCloseWithVcInfo → M W T (Unit {0})
  unfolding new_perun_transaction_builder build_transaction submit_tx submit_calls psh calls_of
      built
  submit_force_close info =
      if not info.first_force_close
      then submit_calls cl ctx [] (
          calls_of (
            build_first_force_close_with_vc cl.sdk cl.perun cl.keys cl.molecule (psh cl ctx)
              cl.collectors.collector info []))
      else (do
        b ← new_perun_transaction_builder cl ctx []
        prepared ← give (built (prepare_min_ckb_input b))
        calls ← give (
            built (
              build_second_force_close_with_vc cl.sdk cl.perun cl.keys cl.molecule (psh cl ctx)
                cl.collectors.collector (record info { min_ckb_input = some prepared.0 }) []))
        tx ← build_transaction cl ctx calls prepared.1
        submit_tx cl ctx tx)

  -- `ForceCloseWithVC`
  unfoldable pub force_close_with_vc :
      ℕ → ℕ → State → State → List (List ℕ) → Params → List ℕ → M W T (Unit {0})
  unfolding virtual_cells only_cell cached_cell get_assets first_two_signatures tip_header block_of
      settled_states mk_cell_inputs submit_force_close
  force_close_with_vc id vc_id state vc_state sigs params index_map = do
    cells ← virtual_cells cl ctx vc_id
    vc ← give (only_cell cells)
    vc_output ← deref vc.0.output
    found ← cached_cell cl ctx id
    output ← deref found.0.output
    pcts ← deref output.type_script
    assets ← get_assets cl ctx pcts
    signatures ← first_two_signatures sigs
    header ← tip_header cl ctx
    block ← block_of cl ctx found.0
    states ← settled_states state found.1 vc_state vc.1
    submit_force_close (record {
      channel_cell = found.0.out_point;
      vc_cell = vc.0.out_point;
      vcts = vc_output.type_script;
      state = states.0;
      vc_status = vc.1;
      vc_state = states.1;
      params = params;
      headers = header ∷ block ∷ [];
      asset_inputs = mk_cell_inputs assets;
      channel_capacity = cl.sdk.occupied_capacity output found.0.output_data;
      virtual_channel_capacity = cl.sdk.occupied_capacity vc_output vc.0.output_data;
      first_force_close = vc.1.first_force_close;
      index_map = index_map;
      min_ckb_input = none;
    })
