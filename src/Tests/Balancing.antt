-- ===== src/Tests/Balancing.antt =====
-- A builder with one output that is balanced from one live cell.
use perun_ckb_backend.Transaction.Funds.{
  add_values_from_output, equal_assets, merge_with, new_asset_information,
}
use perun_ckb_backend.Prelude.{ℕ, ◌≡◌, refl, Option, none, some, [], ◌∷◌, ok, err, arith}
use perun_ckb_backend.Prelude.GoMap.{GoMap}
use perun_ckb_backend.Ckb.{OutPoint, CellOutput, CellInfo}
use perun_ckb_backend.CellIterator.{has_next, next, ckb_only}
use perun_ckb_backend.Transaction.Builder.{
  add_or_update_change_cell, append_to_groups, required_capacity, script_groups_for_hash, Builder,
  GroupType,
}
use perun_ckb_backend.Transaction.Balance.{balance_transaction, balance_asset, Balancing}
use perun_ckb_backend.Transaction.Balance.Terminates.{balance_transaction-Ends}
use perun_ckb_backend.Transaction.Balance.Shortfall.{HasGroups, Changed, balance_asset-shortfall}
use perun_ckb_backend.Transaction.Funds.{TxError, asset_amount, add_asset_amount}
use perun_ckb_backend.Prelude.{◌-◌, ◌+◌, ◌<◌}
use perun_ckb_backend.Transaction.Balance.Conserves.{Pays}
use perun_ckb_backend.Transaction.Balance.Total.{Ranges, IsUnbalanced, balance_transaction-Pays}
use perun_ckb_backend.Tests.{sdk, script}

abbrev cell : CellOutput
cell = record { capacity = 1000; lock = script 5; type_script = none }

abbrev point : OutPoint
point = record { tx_hash = 8; index = 0 }

-- Every out point is that of the cell.
abbrev pub live : OutPoint → Option CellInfo
live o = some (record { output = cell; output_data = [] })

abbrev pub builder : Builder
builder = record {
  inputs = [];
  outputs = record { capacity = 300; lock = script 6; type_script = none } ∷ [];
  outputs_data = [] ∷ [];
  witnesses = [];
  script_groups =
      record {
        script = script 5;
        group_type = GroupType.lock_group;
        input_indices = [];
        output_indices = [];
      }
      ∷ [];
  script_group_map = (5, 0) ∷ [];
  ckb_change_cell_index = none;
  udt_change_cell_indices = (9, none) ∷ [];
  iterators =
      (0, ckb_only (some (record { out_point = point; output = cell; output_data = [] }) ∷ []))
      ∷ [];
  known_udts = (9, script 9) ∷ [];
  fee_shannon = 10;
  change_script = script 5;
}

abbrev pub order : GoMap ℕ → GoMap ℕ
order m = m

pub order-Ranges : Ranges order
order-Ranges = record { distinct = λ m d. d; keys = λ P m ks. ks }

abbrev balanced : Builder
unfolding balance_transaction
balanced = elim (balance_transaction sdk live order builder) [ ok c ↦ c | err e ↦ builder ]

balances : balance_transaction sdk live order builder ≡ ok balanced
unfolding balance_transaction add_values_from_output equal_assets new_asset_information
    required_capacity sdk has_next script_groups_for_hash next append_to_groups merge_with
    add_or_update_change_cell
balances = refl

pub builder-IsUnbalanced : IsUnbalanced live builder
builder-IsUnbalanced = record {
  no_change = refl;
  fresh = λ hash s h. ground arith;
  nonzero = refl;
  alive = ((refl, tt), tt);
}

balance_transaction-Pays_example : Pays sdk live balanced
balance_transaction-Pays_example =
    balance_transaction-Pays sdk live order builder balanced order-Ranges builder-IsUnbalanced
      balances

balance_transaction-Ends_example :
    ¬ (balance_transaction sdk live order builder ≡ err TxError.out_of_fuel)
balance_transaction-Ends_example = balance_transaction-Ends sdk live order builder

-- Ten of the UDT are required, and six are there.
abbrev short : Balancing
short = record {
  required = record { asset_amounts = (0, 10) ∷ (9, 10) ∷ []; known_udts = builder.known_udts };
  provided = record { asset_amounts = (0, 500) ∷ (9, 6) ∷ []; known_udts = builder.known_udts };
  builder = builder;
}

short-amount : asset_amount 9 short.provided ≡ 6
unfolding asset_amount
short-amount = refl

short-HasGroups : HasGroups sdk 9 builder
unfolding sdk
short-HasGroups = record {
  lock = 0;
  lock_found = refl;
  lock_there = omega arith;
  type_there = λ t e. ground arith;
}

balance_asset-shortfall_example :
    (t : Balancing) × (balance_asset sdk (9, 10) short ≡ ok t)
    × Changed sdk 9
        (asset_amount 9 short.provided + asset_amount 9 short.provided - 10)
        (script 9)
        builder
        t.builder
    × (t.required ≡ add_asset_amount 0 (required_capacity sdk 9 builder) short.required)
    × (asset_amount 9 t.provided < 10)
balance_asset-shortfall_example =
    balance_asset-shortfall sdk 9 10 (script 9) short (λ e. omega (arith, e)) (omega arith)
      (omega (arith, short-amount)) (omega (arith, short-amount)) refl refl short-HasGroups
