-- ===== src/Transaction/Handler/Virtual.antt =====
-- The transactions of a virtual channel in transaction/handler.go: its disputes, the merge of its two
-- cells, and the force closes of its parents.
use perun_ckb_backend.Prelude.{
  ℕ, ◌+◌, ◌==◌, ltb, if◌then◌else◌, Bool, true, false, Option, none, some, List, [], ◌∷◌, get_elem?,
  Result, ok, err, ◌>>=◌,
}
use perun_ckb_backend.Prelude.Words.{add64}
use perun_ckb_backend.Ckb.{Script, CellInput, OutPoint, Sdk}
use perun_ckb_backend.Perun.{State, Params, Part, GoPerun}
use perun_ckb_backend.Wallet.Address.{Keys, unpack_on_chain}
use perun_ckb_backend.Encoding.State.{get_sudt_balances}
use perun_ckb_backend.Encoding.Params.{pack_channel_parameters}
use perun_ckb_backend.Transaction.Funds.{TxError}
use perun_ckb_backend.Transaction.Handler.{
  Call, Collector, PerunScriptHandler, Molecule, ChannelStatus, VirtualChannelStatus, VcDispute,
  ChannelWitness, VcChannelConstants, encoded, add_cell_dep, add_header_dep, add_output, add_input,
  add_inputs, add_cell_deps, add_header_deps, set_witness, input_at, add_omni_deps,
  mk_payment_output, mk_occupied_cell,
}
use perun_ckb_backend.Transaction.Handler.Status.{
  VcDisputeInfo, mk_initial_virtual_channel_status, update_vc_dispute, update_vc_status,
}
use perun_ckb_backend.Transaction.Handler.Payout.{
  get_ckbyte_balance, get_ckbyte_balance_from_virtual_channel, payment_script, pay_ckbytes,
  add_merged_outputs,
}
use perun_ckb_backend.Transaction.Handler.Ledger.{mk_channel_lock_script}

-- `VcMergeInfo`, with the fields that building reads.
pub record VcMergeInfo : Type 0 where
  pub vc_cell0 : OutPoint
  pub vc_cell1 : OutPoint
  pub vc_status0 : VirtualChannelStatus
  pub vc_status1 : VirtualChannelStatus
  pub occupied_capacity0 : ℕ
  pub occupied_capacity1 : ℕ
  pub block_num0 : ℕ
  pub block_num1 : ℕ
  pub header : ℕ
  pub vcts : Option Script
  pub vc_dispute : VcDispute

-- `ForceCloseWithVCInfo`, with the fields that building reads.
pub record ForceCloseWithVcInfo : Type 0 where
  pub channel_cell : OutPoint
  pub vc_cell : OutPoint
  pub vcts : Option Script
  pub state : State
  pub vc_status : VirtualChannelStatus
  pub vc_state : State
  pub params : Params
  pub headers : List ℕ
  pub asset_inputs : List CellInput
  pub channel_capacity : ℕ
  pub virtual_channel_capacity : ℕ
  pub first_force_close : Bool
  pub index_map : List ℕ
  pub min_ckb_input : Option OutPoint

-- `updateFirstForceClose`
unfoldable pub update_first_force_close : ForceCloseWithVcInfo → ForceCloseWithVcInfo
update_first_force_close info = record info {
  first_force_close = true;
  vc_status = record info.vc_status { first_force_close = true };
}

module _ (sdk : Sdk) (perun : GoPerun) (keys : Keys) (mol : Molecule) (psh : PerunScriptHandler)
    (c : Collector) where
  -- `mkVirtualChannelLockScript`
  unfoldable pub mk_virtual_channel_lock_script : Script
  mk_virtual_channel_lock_script = record {
    code_hash = psh.vcls_code_hash;
    hash_type = psh.vcls_hash_type;
    args = none;
  }

  -- `mkVirtualChannelTypeScript`, with `mkVirtualChannelConstants`
  unfoldable pub mk_virtual_channel_type_script : Params → Script → Result TxError Script
  mk_virtual_channel_type_script params lock = do
    packed ← encoded (pack_channel_parameters sdk params)
    let constants : VcChannelConstants = record {
      params = packed;
      vcls_code_hash = sdk.script_hash lock;
      vcls_hash_type = psh.vcls_hash_type;
    }
    ok (record {
      code_hash = psh.vcts_code_hash;
      hash_type = psh.vcts_hash_type;
      args = some (mol.vc_constants_bytes constants);
    })

  -- The payment script of the owner of a virtual channel, unpacked from its status.
  unfoldable pub owner_script : VirtualChannelStatus → Result TxError Script
  owner_script s = elim (unpack_on_chain keys s.owner) [
    | err e ↦ err TxError.encoding
    | ok p ↦ ok p.payment_script
  ]

  -- The cell of a virtual channel with a status, and the status as its data.
  unfoldable pub add_vc_output : Option Script → VirtualChannelStatus → List Call → List Call
  unfolding mk_virtual_channel_lock_script
  add_vc_output vcts s calls =
      let bytes = mol.vc_status_bytes s in
      add_output (mk_occupied_cell sdk mk_virtual_channel_lock_script vcts bytes) bytes calls

  -- The cell of the parent channel with a status.
  unfoldable pub add_channel_output : Option Script → ChannelStatus → List Call → List Call
  add_channel_output pcts s calls =
      let bytes = mol.status_bytes s in
      add_output (mk_occupied_cell sdk (mk_channel_lock_script sdk perun mol psh c) pcts bytes)
        bytes calls

  -- The dependencies and the parent's input of a dispute, up to its witness.
  unfoldable pub spend_disputed :
      ChannelWitness → VcDisputeInfo → List Call → Result TxError (List Call)
  spend_disputed w info calls = do
    calls ← add_omni_deps psh.omni_lock_script_dep calls
    let calls = add_input (input_at info.channel_cell) (
        add_header_dep info.header (
          add_cell_dep psh.vcts_dep (
            add_cell_dep psh.vcls_dep
              (add_cell_dep psh.pcts_dep (add_cell_dep psh.pcls_dep calls)))))
    set_witness c (c.input_index calls) (mol.witness_bytes w) calls

  -- `buildFirstVCDisputeTransaction`, which changes the information that it is given.
  unfoldable pub build_first_vc_dispute :
      VcDisputeInfo → List Call → Result TxError (VcDisputeInfo × List Call)
  unfolding spend_disputed mk_virtual_channel_type_script add_vc_output add_channel_output
  build_first_vc_dispute info calls = do
    calls ← spend_disputed (ChannelWitness.vc_dispute info.vc_dispute) info calls
    vcts ← mk_virtual_channel_type_script info.params mk_virtual_channel_lock_script
    vc_status ← mk_initial_virtual_channel_status sdk perun (record info { vcts = some vcts })
    info ← update_vc_dispute sdk perun vcts (record info { vcts = some vcts })
    ok (
      info,
      add_channel_output info.pcts info.lc_status (add_vc_output (some vcts) vc_status calls),
    )

  -- `buildVCDisputeProgressTransaction`; a nil type script or cell of the virtual channel panics.
  unfoldable pub build_vc_dispute_progress :
      VcDisputeInfo → List Call → Result TxError (VcDisputeInfo × List Call)
  unfolding spend_disputed add_vc_output add_channel_output
  build_vc_dispute_progress info calls = do
    calls ← spend_disputed (ChannelWitness.dispute info.parent_sig_a info.parent_sig_b) info calls
    vc_cell ← elim info.vc_cell [ none ↦ err TxError.panic | some o ↦ ok o ]
    let calls = add_input (input_at vc_cell) calls
    calls ←
        set_witness c (c.input_index calls)
          (mol.witness_bytes (ChannelWitness.dispute info.vc_dispute.sig_a info.vc_dispute.sig_b))
          calls
    elim info.vcts [
      | none ↦ err TxError.panic
      | some vcts ↦ do
        info ← update_vc_dispute sdk perun vcts info
        let calls = add_channel_output info.pcts info.lc_status calls
        updated ← update_vc_status sdk perun info
        ok (updated.0, add_vc_output updated.0.vcts updated.1 calls)
    ]

  -- `buildVCMergeTransaction`
  unfoldable pub build_vc_merge : VcMergeInfo → List Call → Result TxError (List Call)
  unfolding owner_script add_vc_output
  build_vc_merge info calls = do
    calls ← add_omni_deps psh.omni_lock_script_dep calls
    let calls = add_input (input_at info.vc_cell0) (
        add_header_dep info.header (
          add_cell_dep psh.vcls_dep (
            add_cell_dep psh.vcts_dep
              (add_cell_dep psh.vcls_dep (add_cell_dep psh.vcts_dep calls)))))
    let bytes = mol.witness_bytes (ChannelWitness.vc_dispute info.vc_dispute)
    calls ← set_witness c (c.input_index calls) bytes calls
    let calls = add_input (input_at info.vc_cell1) calls
    calls ← set_witness c (c.input_index calls) bytes calls
    let keep_first = ltb info.block_num0 info.block_num1
    let calls =
        add_vc_output info.vcts (if keep_first then info.vc_status0 else info.vc_status1) calls
    lock ← owner_script (if keep_first then info.vc_status1 else info.vc_status0)
    ok (
        add_output
          (mk_payment_output lock
            (if keep_first then info.occupied_capacity1 else info.occupied_capacity0))
          [] calls)

  -- `AddAssetsToOutputsWithVirtualChannel`
  unfoldable pub add_assets_with_virtual_channel :
      State → State → ℕ → Script → ℕ → List ℕ → List Call → Result TxError (List Call)
  add_assets_with_virtual_channel s vs index lock additional index_map calls = do
    parent ← encoded (get_sudt_balances sdk perun s s.assets)
    virtual ← encoded (get_sudt_balances sdk perun vs vs.assets)
    elim (get_elem? index_map index) [
      | none ↦ err TxError.index_range
      | some mapped ↦ add_merged_outputs sdk parent virtual index mapped lock additional calls
    ]

  -- The dependencies, headers and inputs of a force close; the index is that of the parent's input.
  unfoldable pub spend_with_vc : ForceCloseWithVcInfo → List Call → Result TxError (List Call)
  spend_with_vc info calls = do
    calls ← add_omni_deps psh.omni_lock_script_dep calls
    let calls = add_input (input_at info.channel_cell) (
        add_header_deps info.headers (
          add_cell_deps psh.sudt_deps (
            add_cell_dep psh.vcls_dep (
              add_cell_dep psh.vcts_dep (
                add_cell_dep psh.pfls_dep
                  (add_cell_dep psh.pcls_dep (add_cell_dep psh.pcts_dep calls)))))))
    calls ← set_witness c (c.input_index calls) (mol.witness_bytes ChannelWitness.force_close) calls
    ok (add_inputs info.asset_inputs (add_input (input_at info.vc_cell) calls))

  -- The balance of a party in both channels, the first one's with the capacity of the channel's cell.
  unfoldable pub balance_with_vc : ForceCloseWithVcInfo → ℕ → Result TxError ℕ
  balance_with_vc info i = do
    balance ← get_ckbyte_balance sdk perun i info.state
    vc_balance ← get_ckbyte_balance_from_virtual_channel sdk perun i info.vc_state info.index_map
    let total = add64 balance vc_balance
    ok (if i == 0 then add64 total info.channel_capacity else total)

  -- The outputs of a party with a balance, in the two force closes.
  unfoldable pub pay_party_with_vc :
      ForceCloseWithVcInfo → ℕ → Script → ℕ → List Call → Result TxError (List Call)
  unfolding add_assets_with_virtual_channel
  pay_party_with_vc info i lock balance calls =
      let (additional, calls) = pay_ckbytes sdk lock balance calls in
      add_assets_with_virtual_channel info.state info.vc_state i lock additional info.index_map
        calls

  -- The loop of `buildFirstForceCloseWithVCTransaction` over the parties.
  unfoldable pub pay_parties_first :
      ForceCloseWithVcInfo → ℕ → List Part → List Call → Result TxError (List Call)
  unfolding balance_with_vc pay_party_with_vc
  pay_parties_first info i [] calls = ok calls
  pay_parties_first info i (part ∷ parts) calls = do
    lock ← payment_script part
    balance ← balance_with_vc info i
    calls ← pay_party_with_vc info i lock balance calls
    pay_parties_first info (i + 1) parts calls

  -- `buildFirstForceCloseWithVCTransaction`, which changes the information that it is given.
  unfoldable pub build_first_force_close_with_vc :
      ForceCloseWithVcInfo → List Call → Result TxError (ForceCloseWithVcInfo × List Call)
  unfolding spend_with_vc pay_parties_first update_first_force_close add_vc_output
  build_first_force_close_with_vc info calls = do
    calls ← spend_with_vc info calls
    calls ← pay_parties_first info 0 info.params.parts calls
    let info = update_first_force_close info
    ok (info, add_vc_output info.vcts info.vc_status calls)

  -- The loop of `buildSecondForceCloseWithVCTransaction`: the owner gets the capacity of the virtual
  -- channel's cell. The Boolean says whether it was returned.
  unfoldable pub pay_parties_second :
      ForceCloseWithVcInfo
      → Script
      → ℕ
      → List Part
      → Bool × List Call
      → Result TxError (Bool × List Call)
  unfolding balance_with_vc pay_party_with_vc
  pay_parties_second info owner i [] r = ok r
  pay_parties_second info owner i (part ∷ parts) (returned, calls) = do
    lock ← payment_script part
    balance ← balance_with_vc info i
    let owns = sdk.script_equals owner lock
    calls ←
        pay_party_with_vc info i lock
          (if owns then add64 balance info.virtual_channel_capacity else balance) calls
    pay_parties_second info owner (i + 1) parts (if owns then true else returned, calls)

  -- `buildSecondForceCloseWithVCTransaction`
  unfoldable pub build_second_force_close_with_vc :
      ForceCloseWithVcInfo → List Call → Result TxError (List Call)
  unfolding spend_with_vc owner_script pay_parties_second
  build_second_force_close_with_vc info calls = do
    calls ← spend_with_vc info calls
    owner ← owner_script info.vc_status
    min_ckb_input ← elim info.min_ckb_input [ none ↦ err TxError.panic | some o ↦ ok o ]
    let calls = add_input (input_at min_ckb_input) calls
    r ← pay_parties_second info owner 0 info.params.parts (false, calls)
    ok (
        if r.0
        then r.1
        else add_output (mk_payment_output owner info.virtual_channel_capacity) [] r.1)
