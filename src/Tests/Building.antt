-- ===== src/Tests/Building.antt =====
-- The balanced builder of the test is built with a handler that adds a witness.
use perun_ckb_backend.CellIterator.{has_next, next}
use perun_ckb_backend.Transaction.Balance.{balance_transaction}
use perun_ckb_backend.Prelude.{ℕ, ◌≡◌, refl, [], ◌∷◌, Result, ok, err, arith}
use perun_ckb_backend.Transaction.Funds.{
  add_values_from_output, equal_assets, merge_with, new_asset_information, TxError,
}
use perun_ckb_backend.Transaction.Builder.{
  add_or_update_change_cell, append_to_groups, handle_ckb_fee, initialize_script_groups,
  required_capacity, script_groups_for_hash,
}
use perun_ckb_backend.Transaction.Balance.Conserves.{Pays}
use perun_ckb_backend.Transaction.Build.{ScriptHandler, Built, build}
use perun_ckb_backend.Transaction.Build.Paid.{LeavesCells, ChangeAboveFee, build-Pays}
use perun_ckb_backend.Tests.{sdk}
use perun_ckb_backend.Tests.Balancing.{live, order, order-Ranges, builder, builder-IsUnbalanced}

abbrev add_witness : ScriptHandler ℕ
add_witness g c b = ok (record b { witnesses = [] ∷ b.witnesses })

add_witness-LeavesCells : LeavesCells add_witness
add_witness-LeavesCells g c b b' h = ground arith

abbrev built_of : Result TxError Built → Built
built_of (ok t) = t
built_of (err e) = record { builder = builder; script_groups = [] }

abbrev transaction : Built
unfolding build
transaction = built_of (build sdk (add_witness ∷ []) live order [] builder)

builds : build sdk (add_witness ∷ []) live order [] builder ≡ ok transaction
unfolding build initialize_script_groups sdk balance_transaction add_values_from_output equal_assets
    new_asset_information required_capacity has_next script_groups_for_hash next append_to_groups
    merge_with add_or_update_change_cell handle_ckb_fee
builds = refl

build-Pays_example : Pays sdk live transaction.builder × ChangeAboveFee transaction.builder
build-Pays_example =
    build-Pays sdk (add_witness ∷ []) live order [] builder transaction order-Ranges
      (add_witness-LeavesCells, tt) builder-IsUnbalanced builds
