-- ===== src/Client/Channel.antt =====
-- The methods of client/ckbclient.go for ledger channels: start, fund, dispute, close, force close and
-- abort.
use perun_ckb_backend.Prelude.{ℕ, none, some, List, [], ◌∷◌, Result, ok, err, if◌then◌else◌}
use perun_ckb_backend.Ckb.{Script, CellInput}
use perun_ckb_backend.Asset.{PAsset, is_compatible_asset, is_invalid}
use perun_ckb_backend.Perun.{State, Params}
use perun_ckb_backend.Deployment.{new_perun_script_handler}
use perun_ckb_backend.Encoding.Bytes.{EncodeError}
use perun_ckb_backend.Encoding.Signature.{new_molecule_signature}
use perun_ckb_backend.Transaction.Funds.{TxError, zero_hash}
use perun_ckb_backend.Transaction.Handler.{Call, PerunScriptHandler, ChannelStatus}
use perun_ckb_backend.Transaction.Handler.Ledger.{
  CloseInfo, mk_channel_type_script, build_open_transaction, build_fund_transaction,
  build_dispute_transaction, build_close_transaction, build_force_close_transaction,
  build_abort_transaction,
}
use perun_ckb_backend.Client.{
  Context, ClientError, LiveCell, lock_script, prefix, M, pure, fail, ◌>>=◌, ◌>>◌, give, deref,
}
use perun_ckb_backend.Client.Config.{Client}
use perun_ckb_backend.Client.Calls.{search_indexer_limit}
use perun_ckb_backend.Client.Cells.{
  parsed_status, get_exact_channel_live_cell, get_channel_live_cell_with_cache,
}
use perun_ckb_backend.Client.Versions.{check_version}
use perun_ckb_backend.Client.Submit.{
  built, ask, mk_my_ckb_cell_iterator, create_or_get_channel_token, submit_calls,
}

-- `mkCellInputs`
unfoldable pub mk_cell_inputs : List LiveCell → List CellInput
mk_cell_inputs [] = []
mk_cell_inputs (cell ∷ cells) =
    record { since = 0; previous_output = cell.out_point } ∷ mk_cell_inputs cells

-- `Assets[0].Address()`, which `Start` logs: without assets, or on a nil SUDT, it panics.
unfoldable pub first_address : List PAsset → Result ClientError (Unit {0})
first_address [] = err ClientError.panic
first_address (p ∷ ps) = elim (is_compatible_asset p) [
  | none ↦ ok tt
  | some a ↦ if is_invalid a then err ClientError.panic else ok tt
]

unfoldable pub encoded_signature : Result EncodeError (List ℕ) → Result ClientError (List ℕ)
encoded_signature (ok sig) = ok sig
encoded_signature (err e) = err ClientError.encoding_failed

-- What the handler wrote, without the information that it changed.
unfoldable pub calls_of : {I : Type 0} → Result TxError (I × List Call) → Result TxError (List Call)
calls_of (ok (info, calls)) = ok calls
calls_of (err e) = err e

module _ {W T C : Type 0} (cl : Client W T C) (ctx : Context) where
  -- `c.psh`
  unfoldable pub psh : PerunScriptHandler
  unfolding new_perun_script_handler
  psh = new_perun_script_handler cl.deployment

  -- The call of `GetTipHeader`, for the header's hash.
  unfoldable pub tip_header : M W T ℕ
  unfolding ask
  tip_header = ask cl ctx (cl.node.get_tip_header ctx)

  unfoldable pub exact_cell : Script → M W T LiveCell
  unfolding get_exact_channel_live_cell
  exact_cell = get_exact_channel_live_cell cl.sdk cl.formats cl.deployment cl.node cl.others ctx

  unfoldable pub cached_cell : ℕ → M W T (LiveCell × ChannelStatus)
  unfolding get_channel_live_cell_with_cache
  cached_cell =
      get_channel_live_cell_with_cache cl.sdk cl.formats cl.deployment cl.node cl.others ctx

  -- The two signatures of a state.
  unfoldable pub two_signatures : List (List ℕ) → M W T (List ℕ × List ℕ)
  unfolding encoded_signature
  two_signatures (a ∷ b ∷ []) = do
    sig_a ← give (encoded_signature (new_molecule_signature cl.curve a))
    sig_b ← give (encoded_signature (new_molecule_signature cl.curve b))
    pure (sig_a, sig_b)
  two_signatures sigs = fail ClientError.signature_count

  -- `getAssets`
  unfoldable pub get_assets : Script → M W T (List LiveCell)
  unfolding ask
  get_assets pcts = ask cl ctx (
      cl.node.get_cells ctx
        (record {
          script = record {
            code_hash = cl.deployment.pfls_code_hash;
            hash_type = cl.deployment.pfls_hash_type;
            args = some (cl.molecule.hash_bytes (cl.sdk.script_hash pcts));
          };
          script_type = lock_script;
          search_mode = prefix;
        })
        search_indexer_limit)

  -- `Start`
  unfoldable pub start : Params → State → M W T Script
  unfolding mk_my_ckb_cell_iterator create_or_get_channel_token first_address submit_calls psh built
  start params state = do
    iter ← mk_my_ckb_cell_iterator cl ctx
    token ← create_or_get_channel_token cl ctx iter
    give (first_address state.assets)
    let bytes = cl.collectors.pack_out_point token.0
    submit_calls cl ctx ((zero_hash, token.1) ∷ []) (
        build_open_transaction cl.sdk cl.perun cl.molecule psh cl.collectors.collector
          (record { token_input = token.0; token = bytes; params = params; state = state }) [])
    give (
        built (
          mk_channel_type_script cl.sdk cl.perun cl.molecule psh cl.collectors.collector params
            bytes))

  -- `Fund`
  unfoldable pub fund : Script → State → Params → M W T (Unit {0})
  unfolding exact_cell tip_header parsed_status submit_calls psh
  fund pcts state params = do
    cell ← exact_cell pcts
    header ← tip_header
    status ← give (parsed_status cl.formats cell)
    submit_calls cl ctx [] (
        build_fund_transaction cl.sdk cl.perun cl.molecule psh cl.collectors.collector
          (record {
            channel_cell = cell.out_point;
            state = state;
            pcts = pcts;
            status = status;
            header = header;
          })
          [])

  -- `Dispute` with a newer state.
  unfoldable pub dispute_newer :
      LiveCell × ChannelStatus → ℕ → List ℕ × List ℕ → State → M W T (Unit {0})
  unfolding submit_calls psh calls_of
  dispute_newer found header signatures state = do
    output ← deref found.0.output
    submit_calls cl ctx [] (
        calls_of (
          build_dispute_transaction cl.sdk cl.perun cl.molecule psh cl.collectors.collector
            (record {
              channel_cell = found.0.out_point;
              status = found.1;
              new_state = state;
              header = header;
              pcts = output.type_script;
              sig_a = signatures.0;
              sig_b = signatures.1;
            })
            []))

  -- `Dispute`; without a newer state it succeeds and does nothing.
  unfoldable pub dispute : ℕ → State → List (List ℕ) → Params → M W T (Unit {0})
  unfolding cached_cell tip_header two_signatures check_version dispute_newer
  dispute id state sigs params = do
    found ← cached_cell id
    header ← tip_header
    signatures ← two_signatures sigs
    newer ← deref (check_version state found.1 none none)
    if newer then dispute_newer found header signatures state else pure tt

  -- What the settlement of a channel's cell gathers: its capacity, the inputs of its assets, and the
  -- hash of the tip's header.
  unfoldable pub gather : LiveCell → M W T (ℕ × List CellInput × ℕ)
  unfolding get_assets tip_header mk_cell_inputs
  gather cell = do
    output ← deref cell.output
    pcts ← deref output.type_script
    assets ← get_assets pcts
    header ← tip_header
    pure (cl.sdk.occupied_capacity output cell.output_data, mk_cell_inputs assets, header)

  -- The information of a settlement.
  unfoldable pub close_info :
      LiveCell → ℕ × List CellInput × ℕ → List ℕ → State → List (List ℕ) → Params → CloseInfo
  close_info cell gathered headers state sigs params = record {
    channel_capacity = gathered.0;
    channel_input = record { since = 0; previous_output = cell.out_point };
    asset_inputs = gathered.1;
    headers = headers;
    params = params;
    state = state;
    padded_signatures = sigs;
  }

  -- `Close`
  unfoldable pub close : ℕ → State → List (List ℕ) → Params → M W T (Unit {0})
  unfolding cached_cell gather close_info submit_calls psh
  close id state sigs params = do
    found ← cached_cell id
    gathered ← gather found.0
    submit_calls cl ctx [] (
        build_close_transaction cl.sdk cl.perun cl.molecule psh cl.collectors.collector cl.curve
          (close_info found.0 gathered (gathered.2 ∷ []) state sigs params) [])

  -- The block of the transaction that made a channel's cell.
  unfoldable pub block_of : LiveCell → M W T ℕ
  unfolding ask
  block_of cell =
      ask cl ctx (cl.node.get_transaction ctx cell.out_point.tx_hash) >>= λ tx. deref tx.block_hash

  -- `ForceClose`
  unfoldable pub force_close : ℕ → State → Params → M W T (Unit {0})
  unfolding cached_cell gather block_of close_info submit_calls psh
  force_close id state params = do
    found ← cached_cell id
    gathered ← gather found.0
    block ← block_of found.0
    submit_calls cl ctx [] (
        build_force_close_transaction cl.sdk cl.perun cl.molecule psh cl.collectors.collector
          (close_info found.0 gathered (block ∷ gathered.2 ∷ []) state [] params) [])

  -- `Abort`
  unfoldable pub abort : Script → Params → State → M W T (Unit {0})
  unfolding exact_cell gather close_info submit_calls psh
  abort script params state = do
    cell ← exact_cell script
    gathered ← gather cell
    submit_calls cl ctx [] (
        build_abort_transaction cl.sdk cl.perun cl.molecule psh cl.collectors.collector
          (close_info cell gathered (gathered.2 ∷ []) state [] params) [])
