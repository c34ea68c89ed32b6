-- ===== src/Transaction/Build.antt =====
-- `Build` of transaction/transaction.go: the script groups, the balancing, the handlers of the SDK that
-- unlock cells, and the check of the fee; with `prepareMinCKBInput` and the new builder.
pub mod Groups
pub mod Paid
use perun_ckb_backend.Prelude.{
  ℕ, zero, suc, ◌==◌, if◌then◌else◌, Bool, Option, none, some, List, [], ◌∷◌, length, Result, ok,
  err, ◌>>=◌, ◌>>◌, get_elem?, map,
}
use perun_ckb_backend.Prelude.GoMap
use perun_ckb_backend.Prelude.GoMap.{GoMap}
use perun_ckb_backend.Ckb.{Script, OutPoint, CellInput, CellOutput, CellInfo, TransactionInput, Sdk}
use perun_ckb_backend.CellIterator.{CellIterator, has_next, next}
use perun_ckb_backend.Deployment.{Deployment}
use perun_ckb_backend.Transaction.Funds.{TxError, zero_hash}
use perun_ckb_backend.Transaction.Builder.{
  Builder, ScriptGroup, initialize_script_groups, handle_ckb_fee, copy_valid_groups,
}
use perun_ckb_backend.Transaction.Balance.{balance_transaction}

-- `BuildTransaction` of a script handler, for a group and a context of type `C`; `none` is a nil context.
abbrev pub ScriptHandler : Type 0 → Type 0
ScriptHandler C = ScriptGroup → Option C → Builder → Result TxError Builder

-- What `Build` returns: the transaction's content, and the groups that are to be signed.
pub record Built : Type 0 where
  pub builder : Builder
  pub script_groups : List ScriptGroup

-- `DefaultFeeShannon` and `MinCKBFeeAmount`
abbrev pub default_fee_shannon : ℕ
default_fee_shannon = 10000

-- The indices with which `udtChangeCellIndices` starts: -1 for each UDT that is deployed.
unfoldable pub no_change_cells : GoMap Script → GoMap (Option ℕ)
no_change_cells [] = []
no_change_cells ((hash, script) ∷ m) = (hash, none) ∷ no_change_cells m

-- `NewPerunTransactionBuilderWithDeployment`, which panics if the omni lock has no second dependency.
unfoldable pub new_transaction_builder :
    Deployment → GoMap CellIterator → Script → Bool → Result TxError Builder
unfolding no_change_cells
new_transaction_builder d iterators change omni =
    let b : Builder = record {
      inputs = [];
      outputs = [];
      outputs_data = [];
      witnesses = [];
      script_groups = [];
      script_group_map = [];
      ckb_change_cell_index = none;
      udt_change_cell_indices = no_change_cells d.sudts;
      iterators = iterators;
      known_udts = d.sudts;
      fee_shannon = default_fee_shannon;
      change_script = change;
    } in
    if omni
    then elim (get_elem? d.omni_lock_script_dep 1) [ none ↦ err TxError.panic | some dep ↦ ok b ]
    else ok b

-- `prepareMinCKBInput`: the out point of the next cell with CKBytes; it goes out of the iterator.
unfoldable pub prepare_min_ckb_input : Builder → Result TxError (OutPoint × Builder)
prepare_min_ckb_input b = elim (GoMap.lookup zero_hash b.iterators) [
  | none ↦ err TxError.no_iterator
  | some iter ↦
      let (more, iter) = has_next iter in
      if more
      then (let (cell, iter) = next iter in
          elim cell [
            | none ↦ err TxError.panic
            | some c ↦
                ok (c.out_point, record b { iterators = GoMap.insert zero_hash iter b.iterators })
          ])
      else err TxError.empty_iterator
]

module _ {C : Type 0} (sdk : Sdk) (handlers : List (ScriptHandler C))
    (contexts : List (Option C)) where
  -- One handler is called with each context.
  unfoldable pub call_contexts :
      ScriptHandler C → ScriptGroup → List (Option C) → Builder → Result TxError Builder
  call_contexts handler g [] b = ok b
  call_contexts handler g (c ∷ cs) b = handler g c b >>= call_contexts handler g cs

  -- `callHandlers` for a group that is not nil.
  unfoldable pub call_handlers :
      List (ScriptHandler C) → ScriptGroup → Builder → Result TxError Builder
  unfolding call_contexts
  call_handlers [] g b = ok b
  call_handlers (handler ∷ rest) g b = call_contexts handler g contexts b >>= call_handlers rest g

  -- `groupForScript`: no group for a nil script, and an error for a script without one.
  unfoldable pub group_for_script : Option Script → Builder → Result TxError (Option ScriptGroup)
  group_for_script none b = ok none
  group_for_script (some script) b =
      elim (GoMap.lookup (sdk.script_hash script) b.script_group_map) [
        | none ↦ err TxError.no_script_group
        | some i ↦ elim (get_elem? b.script_groups i) [
          | none ↦ err TxError.panic
          | some g ↦ ok (some g)
        ]
      ]

  -- `processOutputTypeScript`, and `processLockScript` with the lock script.
  unfoldable pub process_script : Option Script → Builder → Result TxError Builder
  unfolding group_for_script call_handlers
  process_script script b = group_for_script script b >>= λ group. elim group [
    | none ↦ ok b
    | some g ↦ call_handlers handlers g b
  ]

  -- `ProcessOutputs`, over the outputs that there are when it starts.
  unfoldable pub process_outputs : List CellOutput → Builder → Result TxError Builder
  unfolding process_script
  process_outputs [] b = ok b
  process_outputs (o ∷ os) b = process_script o.type_script b >>= process_outputs os

  module _ (get_live_cell : OutPoint → Option CellInfo) where
    -- `ProcessInputs`, over the inputs that there are when it starts.
    unfoldable pub process_inputs : List CellInput → Builder → Result TxError Builder
    unfolding process_script
    process_inputs [] b = ok b
    process_inputs (x ∷ xs) b = elim (get_live_cell x.previous_output) [
      | none ↦ err TxError.live_cell
      | some cell ↦ do
        b ← process_script (some cell.output.lock) b
        b ← process_script cell.output.type_script b
        process_inputs xs b
    ]

-- The contexts of `Build`: a nil one if there is none.
unfoldable pub extend_contexts : {C : Type 0} → List (Option C) → List (Option C)
extend_contexts [] = none ∷ []
extend_contexts (c ∷ cs) = c ∷ cs

module _ {C : Type 0} (sdk : Sdk) (handlers : List (ScriptHandler C))
    (get_live_cell : OutPoint → Option CellInfo) (order : GoMap ℕ → GoMap ℕ) where
  -- `Build`
  unfoldable pub build : List (Option C) → Builder → Result TxError Built
  unfolding extend_contexts process_outputs process_inputs
  build contexts b = do
    b ← initialize_script_groups sdk get_live_cell b
    b ← balance_transaction sdk get_live_cell order b
    b ← process_outputs sdk handlers (extend_contexts contexts) b.outputs b
    b ← process_inputs sdk handlers (extend_contexts contexts) get_live_cell b.inputs b
    handle_ckb_fee b
    ok (record { builder = b; script_groups = copy_valid_groups b.script_groups })
