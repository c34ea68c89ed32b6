-- ===== src/Transaction/Balance.antt =====
-- `balanceTransaction` of transaction/transaction.go and what it calls: inputs are added until the
-- outputs and the fee are paid for, and change cells take the rest.
pub mod Sums
pub mod Keys
pub mod Ckb
pub mod Inputs
pub mod Change
pub mod Conserves
pub mod Total
pub mod Ends
pub mod Terminates
pub mod Shortfall
use perun_ckb_backend.Prelude.{
  ℕ, zero, suc, ◌+◌, ◌==◌, if◌then◌else◌, Bool, true, false, ◌&&◌, ◌||◌, not, Option, none, some,
  List, [], ◌∷◌, ◌++◌, Result, ok, err, ◌>>=◌, ◌>>◌, ltb, leb,
}
use perun_ckb_backend.Prelude.GoMap
use perun_ckb_backend.Prelude.GoMap.{GoMap}
use perun_ckb_backend.Prelude.Words.{add64, sub64}
use perun_ckb_backend.Prelude.{length}
use perun_ckb_backend.Ckb.{Script, OutPoint, CellInput, CellOutput, TransactionInput, CellInfo, Sdk}
use perun_ckb_backend.CellIterator.{CellIterator, has_next, next, size}
use perun_ckb_backend.Transaction.Funds.{
  TxError, zero_hash, AssetInformation, new_asset_information, asset_amount, add_asset_amount,
  merge_with, equal_assets, add_values_from_output,
}
use perun_ckb_backend.Transaction.Builder.{
  Builder, input_dir, required_capacity, script_groups_for_hash, append_to_groups,
  add_or_update_change_cell,
}

-- The two amounts that balancing keeps, and the builder.
pub record Balancing : Type 0 where
  pub required : AssetInformation
  pub provided : AssetInformation
  pub builder : Builder

module _ (sdk : Sdk) where
  -- `accumulateOutputs`; outputs without data of their own panic.
  unfoldable pub accumulate_outputs :
      List CellOutput → List (List ℕ) → AssetInformation → Result TxError AssetInformation
  accumulate_outputs [] bytes ai = ok ai
  accumulate_outputs (o ∷ os) [] ai = err TxError.panic
  accumulate_outputs (o ∷ os) (bytes ∷ rest) ai =
      add_values_from_output sdk o bytes ai >>= accumulate_outputs os rest

  -- One round of the loop of `addInputsForFunding` after `iter.Next()`.
  unfoldable pub add_input :
      ℕ
      → Option TransactionInput
      → AssetInformation
      → Builder
      → Result TxError (AssetInformation × Builder)
  add_input hash cell funded b =
      let groups = script_groups_for_hash sdk hash b in
      elim groups.0 [
        | none ↦ err TxError.no_script_group
        | some _ ↦
            if not (hash == zero_hash) && elim groups.1 [ none ↦ true | some _ ↦ false ]
            then err TxError.no_script_group
            else elim cell [
              | none ↦ err TxError.panic
              | some c ↦ do
                funded ← add_values_from_output sdk c.output c.output_data funded
                b ← append_to_groups input_dir groups (length b.inputs) (record b {
                  inputs = b.inputs ++ record { since = 0; previous_output = c.out_point } ∷ [];
                  witnesses = b.witnesses ++ [] ∷ [];
                })
                ok (funded, b)
            ]
      ]

  -- The loop of `addInputsForFunding`; the fuel bounds the cells that the iterator still holds.
  unfoldable pub add_inputs :
      ℕ
      → ℕ
      → ℕ
      → CellIterator
      → AssetInformation
      → Builder
      → Result TxError (AssetInformation × CellIterator × Builder)
  unfolding add_input
  add_inputs zero hash amount iter funded b = err TxError.out_of_fuel
  add_inputs (suc fuel) hash amount iter funded b =
      let (more, iter) = has_next iter in
      elim more [
        | false ↦ ok (funded, iter, b)
        | true ↦
            let (cell, iter) = next iter in
            elim (add_input hash cell funded b) [
              | err e ↦ err e
              | ok (funded, b) ↦
                  let rest = add_inputs fuel hash amount iter funded b in
                  if leb amount (asset_amount hash funded) then ok (funded, iter, b) else rest
            ]
      ]

  -- `addInputsForFunding` from the iterator that is registered for the hash.
  unfoldable pub add_inputs_for_funding :
      ℕ → ℕ → Builder → Result TxError (AssetInformation × Builder)
  unfolding add_inputs
  add_inputs_for_funding hash amount b = elim (GoMap.lookup hash b.iterators) [
    | none ↦ err TxError.no_iterator
    | some iter ↦
        let (more, iter) = has_next iter in
        if more
        then elim (add_inputs (suc (size iter)) hash amount iter
            (new_asset_information b.known_udts) b) [
              | err e ↦ err e
              | ok (funded, iter, b) ↦
                  ok (funded, record b { iterators = GoMap.insert hash iter b.iterators })
            ]
        else err TxError.empty_iterator
  ]

  -- `addChangeAndAdjustRequiredFunding`
  unfoldable pub add_change_and_adjust : ℕ → ℕ → Balancing → Result TxError Balancing
  add_change_and_adjust hash change s = do
    b ← add_or_update_change_cell sdk hash change s.builder
    ok (record s {
      required = add_asset_amount zero_hash (required_capacity sdk hash s.builder) s.required;
      builder = b;
    })

  -- `addInputsForFunding` with the merge that follows its calls.
  unfoldable pub fund : ℕ → ℕ → Balancing → Result TxError Balancing
  unfolding add_inputs_for_funding
  fund hash amount s = do
    r ← add_inputs_for_funding hash amount s.builder
    ok (record s { provided = merge_with s.provided r.0; builder = r.1 })

  -- `addInputsAndChangeForFunding` after its inputs were added.
  unfoldable pub add_change_for_funding : ℕ → ℕ → Balancing → Result TxError Balancing
  unfolding add_change_and_adjust
  add_change_for_funding hash requested s =
      let funded = asset_amount hash s.provided in
      if ltb funded requested
      then err TxError.not_enough_funds
      else (if funded == requested
          then ok s
          else add_change_and_adjust hash (sub64 funded requested) s)

  -- `addInputsAndChangeForFunding`
  unfoldable pub add_inputs_and_change_for_funding : ℕ → ℕ → Balancing → Result TxError Balancing
  unfolding fund add_change_for_funding
  add_inputs_and_change_for_funding hash requested s =
      let have = asset_amount hash s.provided in
      (if ltb have requested || requested == 0 then fund hash (sub64 requested have) s else ok s)
      >>= add_change_for_funding hash requested

  -- `ckbChangeCellCapacity` on top of the CKBytes that are required.
  unfoldable pub required_with_change : Balancing → ℕ
  required_with_change s =
      add64 (asset_amount zero_hash s.required) (required_capacity sdk zero_hash s.builder)

  -- The second request of `addInputsAndChangeForCKB`, for the change cell.
  unfoldable pub fund_change_cell : Balancing → Result TxError Balancing
  unfolding fund required_with_change
  fund_change_cell s =
      if ltb (asset_amount zero_hash s.provided) (required_with_change s)
      then fund zero_hash (sub64 (required_with_change s) (asset_amount zero_hash s.provided)) s
      else ok s

  -- `addInputsAndChangeForCKB`
  unfoldable pub add_inputs_and_change_for_ckb : Balancing → Result TxError Balancing
  unfolding fund_change_cell add_change_and_adjust
  add_inputs_and_change_for_ckb s = do
    s ←
        fund zero_hash
          (sub64 (asset_amount zero_hash s.required) (asset_amount zero_hash s.provided)) s
    s ← fund_change_cell s
    add_change_and_adjust zero_hash
        (sub64 (asset_amount zero_hash s.provided) (asset_amount zero_hash s.required)) s

  -- `completeCKBCapacity`
  unfoldable pub complete_ckb_capacity : Balancing → Result TxError Balancing
  unfolding add_inputs_and_change_for_ckb required_with_change
  complete_ckb_capacity s =
      if leb (required_with_change s) (asset_amount zero_hash s.provided)
      then (do
        b ←
            add_or_update_change_cell sdk zero_hash
              (sub64 (asset_amount zero_hash s.provided) (asset_amount zero_hash s.required))
              s.builder
        ok (record s { builder = b }))
      else add_inputs_and_change_for_ckb s

  -- One round of the loop of `balanceTransaction` over the required amounts.
  unfoldable pub balance_asset : ℕ × ℕ → Balancing → Result TxError Balancing
  unfolding add_inputs_and_change_for_funding
  balance_asset (hash, amount) s =
      let have = asset_amount hash s.provided in
      if hash == zero_hash
      then ok s
      else (if have == amount && ltb 0 amount
          then ok s
          else (if ltb have amount
              then add_inputs_and_change_for_funding hash (sub64 amount have) s
              else (if ltb amount have
                  then add_change_and_adjust hash (sub64 have amount) s
                  else ok s)))

  unfoldable pub balance_assets : GoMap ℕ → Balancing → Result TxError Balancing
  unfolding balance_asset
  balance_assets [] s = ok s
  balance_assets (e ∷ es) s = balance_asset e s >>= balance_assets es

  module _ (get_live_cell : OutPoint → Option CellInfo) where
    -- `accumulateInputs`, with `resolveInputCell`
    unfoldable pub accumulate_inputs :
        List CellInput → AssetInformation → Result TxError AssetInformation
    accumulate_inputs [] ai = ok ai
    accumulate_inputs (x ∷ xs) ai = elim (get_live_cell x.previous_output) [
      | none ↦ err TxError.live_cell
      | some cell ↦
          add_values_from_output sdk cell.output cell.output_data ai >>= accumulate_inputs xs
    ]

    -- The amounts with which balancing starts.
    unfoldable pub start_balancing : Builder → Result TxError Balancing
    unfolding accumulate_outputs accumulate_inputs
    start_balancing b = do
      required ←
          accumulate_outputs b.outputs b.outputs_data
            (add_asset_amount zero_hash b.fee_shannon (new_asset_information b.known_udts))
      provided ← accumulate_inputs b.inputs (new_asset_information b.known_udts)
      ok (record { required = required; provided = provided; builder = b })

    -- `balanceTransaction`. Go ranges over a map in an order of its own choice, which is `order`.
    unfoldable pub balance_transaction : (GoMap ℕ → GoMap ℕ) → Builder → Result TxError Builder
    unfolding start_balancing balance_assets complete_ckb_capacity
    balance_transaction order b = do
      s ← start_balancing b
      if equal_assets s.provided s.required then ok b else (do
        s ← balance_assets (order s.required.asset_amounts) s
        s ← complete_ckb_capacity s
        ok s.builder)
