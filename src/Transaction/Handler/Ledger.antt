-- ===== src/Transaction/Handler/Ledger.antt =====
-- The transactions of a ledger channel in transaction/handler.go: open, fund, dispute, close, force
-- close and abort.
use perun_ckb_backend.Prelude.{
  ℕ, ◌==◌, leb, ◌||◌, none, some, List, [], ◌∷◌, Result, ok, err, ◌>>=◌, ◌>>◌, check,
}
use perun_ckb_backend.Ckb.{Script, CellInput, OutPoint, Sdk}
use perun_ckb_backend.Perun.{State, Params, GoPerun}
use perun_ckb_backend.Encoding.State.{pack_channel_state}
use perun_ckb_backend.Encoding.Params.{pack_channel_parameters}
use perun_ckb_backend.Encoding.Signature.{Curve, new_molecule_signature}
use perun_ckb_backend.Transaction.Funds.{TxError}
use perun_ckb_backend.Transaction.Handler.{
  Call, Collector, PerunScriptHandler, Molecule, ChannelStatus, ChannelWitness, ChannelConstants,
  encoded, add_cell_dep, add_header_dep, add_output, add_input, add_inputs, add_cell_deps,
  add_header_deps, set_witness, input_at, add_omni_deps, mk_payment_output, mk_occupied_cell,
}
use perun_ckb_backend.Transaction.Handler.Status.{
  DisputeInfo, to_funded_channel_status, mk_initial_channel_status, update_dispute,
}
use perun_ckb_backend.Transaction.Handler.Payout.{
  get_ckbyte_balance, add_assets_to_outputs, pay_party, pay_parties,
}

-- `OpenInfo`; the token comes with the input that it spends.
pub record OpenInfo : Type 0 where
  pub token_input : OutPoint
  pub token : List ℕ
  pub params : Params
  pub state : State

-- `FundInfo`
pub record FundInfo : Type 0 where
  pub channel_cell : OutPoint
  pub state : State
  pub pcts : Script
  pub status : ChannelStatus
  pub header : ℕ

-- `CloseInfo`; `ForceCloseInfo` and `AbortInfo` have the same fields but the signatures, and
-- `AbortInfo` calls the state the initial one.
pub record CloseInfo : Type 0 where
  pub channel_capacity : ℕ
  pub channel_input : CellInput
  pub asset_inputs : List CellInput
  pub headers : List ℕ
  pub params : Params
  pub state : State
  pub padded_signatures : List (List ℕ)

module _ (sdk : Sdk) (perun : GoPerun) (mol : Molecule) (psh : PerunScriptHandler)
    (c : Collector) where
  -- `mkChannelLockScript`
  unfoldable pub mk_channel_lock_script : Script
  mk_channel_lock_script = record {
    code_hash = psh.pcls_code_hash;
    hash_type = psh.pcls_hash_type;
    args = none;
  }

  -- `mkFundsLockScript`
  unfoldable pub mk_funds_lock_script : Script → Script
  mk_funds_lock_script pcts = record {
    code_hash = psh.pfls_code_hash;
    hash_type = psh.pfls_hash_type;
    args = some (mol.hash_bytes (sdk.script_hash pcts));
  }

  -- `mkChannelTypeScript`, with `mkChannelConstants`
  unfoldable pub mk_channel_type_script : Params → List ℕ → Result TxError Script
  mk_channel_type_script params token = do
    packed ← encoded (pack_channel_parameters sdk params)
    let constants : ChannelConstants = record {
      params = packed;
      pcls_code_hash = psh.pcls_code_hash;
      pcls_hash_type = psh.pcls_hash_type;
      pfls_code_hash = psh.pfls_code_hash;
      pfls_hash_type = psh.pfls_hash_type;
      pfls_min_capacity = psh.pfls_min_capacity;
      thread_token = token;
    }
    ok (record {
      code_hash = psh.pcts_code_hash;
      hash_type = psh.pcts_hash_type;
      args = some (mol.constants_bytes constants);
    })

  -- The funds of a party that joins: its CKBytes, which must be none or enough for a cell, and its
  -- SUDTs.
  unfoldable pub lock_funds : State → ℕ → Script → List Call → Result TxError (List Call)
  lock_funds s index lock calls = do
    balance ← get_ckbyte_balance sdk perun index s
    check (leb psh.pfls_min_capacity balance || balance == 0) TxError.below_minimum
    add_assets_to_outputs sdk perun s index lock 0
        (add_output (mk_payment_output lock balance) [] calls)

  -- `buildOpenTransaction`
  unfoldable pub build_open_transaction : OpenInfo → List Call → Result TxError (List Call)
  unfolding lock_funds mk_channel_type_script mk_funds_lock_script mk_channel_lock_script
  build_open_transaction info calls = do
    calls ← add_omni_deps psh.omni_lock_script_dep (add_cell_dep psh.default_lock_script_dep calls)
    let calls =
        add_input (input_at info.token_input)
          (add_cell_deps psh.sudt_deps (add_cell_dep psh.pcts_dep calls))
    pcts ← mk_channel_type_script info.params info.token
    calls ← lock_funds info.state 0 (mk_funds_lock_script pcts) calls
    status ← mk_initial_channel_status sdk perun info.state
    let bytes = mol.status_bytes status
    ok (add_output (mk_occupied_cell sdk mk_channel_lock_script (some pcts) bytes) bytes calls)

  -- `buildFundTransaction`
  unfoldable pub build_fund_transaction : FundInfo → List Call → Result TxError (List Call)
  unfolding lock_funds mk_funds_lock_script mk_channel_lock_script
  build_fund_transaction info calls = do
    calls ← add_omni_deps psh.omni_lock_script_dep (add_cell_dep psh.default_lock_script_dep calls)
    let calls = add_input (input_at info.channel_cell) (
        add_header_dep info.header (
          add_cell_deps psh.sudt_deps
            (add_cell_dep psh.pcts_dep (add_cell_dep psh.pcls_dep calls))))
    calls ← set_witness c (c.input_index calls) (mol.witness_bytes ChannelWitness.fund) calls
    let bytes = mol.status_bytes (to_funded_channel_status info.status)
    lock_funds info.state 1 (mk_funds_lock_script info.pcts) (
        add_output (mk_occupied_cell sdk mk_channel_lock_script (some info.pcts) bytes) bytes calls)

  -- `buildDisputeTransaction`, which changes the information that it is given.
  unfoldable pub build_dispute_transaction :
      DisputeInfo → List Call → Result TxError (DisputeInfo × List Call)
  unfolding mk_channel_lock_script
  build_dispute_transaction info calls = do
    calls ← add_omni_deps psh.omni_lock_script_dep calls
    let calls =
        add_input (input_at info.channel_cell)
          (add_header_dep info.header (add_cell_dep psh.pcts_dep (add_cell_dep psh.pcls_dep calls)))
    calls ←
        set_witness c (c.input_index calls)
          (mol.witness_bytes (ChannelWitness.dispute info.sig_a info.sig_b)) calls
    info ← update_dispute sdk perun info
    let bytes = mol.status_bytes info.status
    ok (info, add_output (mk_occupied_cell sdk mk_channel_lock_script info.pcts bytes) bytes calls)

  -- The dependencies, inputs and headers with which a channel is settled.
  unfoldable pub spend_channel : CloseInfo → List Call → Result TxError (ℕ × List Call)
  spend_channel info calls = do
    calls ← add_omni_deps psh.omni_lock_script_dep calls
    let calls = add_input info.channel_input (
        add_cell_deps psh.sudt_deps
          (add_cell_dep psh.pfls_dep (add_cell_dep psh.pcls_dep (add_cell_dep psh.pcts_dep calls))))
    ok (c.input_index calls, add_header_deps info.headers (add_inputs info.asset_inputs calls))

  -- `mkWitnessClose`; a signature that is missing panics.
  unfoldable pub mk_witness_close : Curve → State → List (List ℕ) → Result TxError (List ℕ)
  mk_witness_close curve s [] = encoded (pack_channel_state sdk perun s) >>= λ _. err TxError.panic
  mk_witness_close curve s (a ∷ rest) = do
    packed ← encoded (pack_channel_state sdk perun s)
    sig_a ← encoded (new_molecule_signature curve a)
    elim rest [
      | [] ↦ err TxError.panic
      | b ∷ _ ↦ do
        sig_b ← encoded (new_molecule_signature curve b)
        ok (mol.witness_bytes (ChannelWitness.close packed sig_a sig_b))
    ]

  -- `buildCloseTransaction`
  unfoldable pub build_close_transaction :
      Curve → CloseInfo → List Call → Result TxError (List Call)
  unfolding spend_channel mk_witness_close
  build_close_transaction curve info calls = do
    spent ← spend_channel info calls
    calls ← pay_parties sdk perun info.state info.channel_capacity 0 info.params.parts spent.1
    bytes ← mk_witness_close curve info.state info.padded_signatures
    set_witness c spent.0 bytes calls

  -- `buildForceCloseTransaction`
  unfoldable pub build_force_close_transaction : CloseInfo → List Call → Result TxError (List Call)
  unfolding spend_channel
  build_force_close_transaction info calls = do
    spent ← spend_channel info calls
    calls ← pay_parties sdk perun info.state info.channel_capacity 0 info.params.parts spent.1
    set_witness c spent.0 (mol.witness_bytes ChannelWitness.force_close) calls

  -- `buildAbortTransaction`; without parts, the first one panics.
  unfoldable pub build_abort_transaction : CloseInfo → List Call → Result TxError (List Call)
  unfolding spend_channel
  build_abort_transaction info calls = do
    spent ← spend_channel info calls
    elim info.params.parts [
      | [] ↦ err TxError.panic
      | part ∷ _ ↦ do
        calls ← pay_party sdk perun info.state info.channel_capacity 0 part spent.1
        set_witness c spent.0 (mol.witness_bytes ChannelWitness.abort) calls
    ]
