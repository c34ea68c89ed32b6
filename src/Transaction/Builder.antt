-- ===== src/Transaction/Builder.antt =====
-- The state of `PerunTransactionBuilder` in transaction/transaction.go, its script groups and its
-- change cells. A method takes the builder and returns the new one.
pub mod Appended
use perun_ckb_backend.Prelude.{
  ℕ, ◌+◌, ◌==◌, if◌then◌else◌, Bool, not, Option, none, some, List, [], ◌∷◌, ◌++◌, length,
  get_elem?, set, Result, ok, err, ◌>>=◌, ltb, leb, pos,
}
use perun_ckb_backend.Prelude.GoMap
use perun_ckb_backend.Prelude.GoMap.{GoMap}
use perun_ckb_backend.Ckb.{Script, OutPoint, CellInput, CellOutput, CellInfo, Sdk}
use perun_ckb_backend.CellIterator.{CellIterator}
use perun_ckb_backend.Encoding.Bytes.{pack_uint128}
use perun_ckb_backend.Transaction.Funds.{TxError, zero_hash}

pub data GroupType : Type 0 where
  lock_group type_group : GroupType

pub record ScriptGroup : Type 0 where
  pub script : Script
  pub group_type : GroupType
  pub input_indices : List ℕ
  pub output_indices : List ℕ

-- `none` is the index -1 of a change cell that is not there.
pub record Builder : Type 0 where
  pub inputs : List CellInput
  pub outputs : List CellOutput
  pub outputs_data : List (List ℕ)
  pub witnesses : List (List ℕ)
  pub script_groups : List ScriptGroup
  pub script_group_map : GoMap ℕ
  pub ckb_change_cell_index : Option ℕ
  pub udt_change_cell_indices : GoMap (Option ℕ)
  pub iterators : GoMap CellIterator
  pub known_udts : GoMap Script
  pub fee_shannon : ℕ
  pub change_script : Script

-- `InputOrOutput`
pub data Direction : Type 0 where
  input_dir output_dir none_dir : Direction

unfoldable pub append_index : Direction → ℕ → ScriptGroup → ScriptGroup
append_index input_dir i g = record g { input_indices = g.input_indices ++ i ∷ [] }
append_index output_dir i g = record g { output_indices = g.output_indices ++ i ∷ [] }
append_index none_dir i g = g

-- The group at an index, changed in place; an index out of range panics.
unfoldable pub append_to_group : Direction → ℕ → ℕ → Builder → Result TxError Builder
unfolding append_index
append_to_group d i g b = elim (get_elem? b.script_groups g) [
  | none ↦ err TxError.panic
  | some group ↦ ok (record b { script_groups = set b.script_groups g (append_index d i group) })
]

-- `AddScriptGroup`
unfoldable pub add_script_group : ScriptGroup → Builder → ℕ × Builder
add_script_group group b =
    (length b.script_groups, record b { script_groups = b.script_groups ++ group ∷ [] })

-- `CopyValidScriptGroups`
unfoldable pub is_valid_group : ScriptGroup → Bool
is_valid_group g = elim g.group_type [
  | lock_group ↦ not (length g.input_indices == 0)
  | type_group ↦ not (length g.output_indices + length g.input_indices == 0)
]

unfoldable pub copy_valid_groups : List ScriptGroup → List ScriptGroup
unfolding is_valid_group
copy_valid_groups [] = []
copy_valid_groups (g ∷ gs) =
    let rest = copy_valid_groups gs in if is_valid_group g then g ∷ rest else rest

-- `HandleCKBFee`
unfoldable pub handle_ckb_fee : Builder → Result TxError (Unit {0})
handle_ckb_fee b = elim b.ckb_change_cell_index [
  | none ↦ ok tt
  | some i ↦ elim (get_elem? b.outputs i) [
    | none ↦ err TxError.panic
    | some cell ↦ if leb cell.capacity b.fee_shannon then err TxError.no_change else ok tt
  ]
]

-- The zero value of `types.Script`, for a UDT that is not known.
abbrev pub zero_script : Script
zero_script = record { code_hash = 0; hash_type = 0; args = none }

-- `appendInputToGroups` and `appendOutputToGroups`; a nil lock group panics.
unfoldable pub append_to_groups :
    Direction → Option ℕ × Option ℕ → ℕ → Builder → Result TxError Builder
unfolding append_to_group
append_to_groups d (none, t) i b = err TxError.panic
append_to_groups d (some g, none) i b = append_to_group d i g b
append_to_groups d (some g, some t) i b = append_to_group d i g b >>= append_to_group d i t

module _ (sdk : Sdk) where
  -- `initializeScript`
  unfoldable pub initialize_script :
      Option Script → GroupType → ℕ → Direction → Builder → Result TxError Builder
  unfolding append_to_group add_script_group
  initialize_script none t i d b = ok b
  initialize_script (some script) t i d b =
      elim (GoMap.lookup (sdk.script_hash script) b.script_group_map) [
        | some g ↦ append_to_group d i g b
        | none ↦
            let (g, c) =
              add_script_group
                (record {
                  script = script;
                  group_type = t;
                  input_indices = [];
                  output_indices = [];
                })
                b in
            append_to_group d i g (record c {
              script_group_map = GoMap.insert (sdk.script_hash script) g c.script_group_map;
            })
      ]

  -- The first loop of `InitializeScriptGroups`, from the index of the first output given.
  unfoldable pub initialize_outputs : ℕ → List CellOutput → Builder → Result TxError Builder
  unfolding initialize_script
  initialize_outputs i [] b = ok b
  initialize_outputs i (o ∷ os) b = do
    b ← initialize_script (some o.lock) lock_group i output_dir b
    b ← initialize_script o.type_script type_group i output_dir b
    initialize_outputs (i + 1) os b

  module _ (get_live_cell : OutPoint → Option CellInfo) where
    -- The second loop: the node is asked for the cell of each input.
    unfoldable pub initialize_inputs : ℕ → List CellInput → Builder → Result TxError Builder
    unfolding initialize_script
    initialize_inputs i [] b = ok b
    initialize_inputs i (x ∷ xs) b = elim (get_live_cell x.previous_output) [
      | none ↦ err TxError.live_cell
      | some cell ↦ do
        b ← initialize_script (some cell.output.lock) lock_group i input_dir b
        b ← initialize_script cell.output.type_script type_group i input_dir b
        initialize_inputs (i + 1) xs b
    ]

    -- `InitializeScriptGroups`
    unfoldable pub initialize_script_groups : Builder → Result TxError Builder
    unfolding initialize_outputs initialize_inputs
    initialize_script_groups b = do
      b ← initialize_outputs 0 b.outputs b
      b ← initialize_inputs 0 b.inputs b
      initialize_script (some b.change_script) lock_group 0 none_dir b

  -- `CalculateCellCapacity`: a UDT's data are sixteen bytes.
  unfoldable pub calculate_cell_capacity : CellOutput → ℕ
  calculate_cell_capacity cell = elim cell.type_script [
    | none ↦ sdk.occupied_capacity cell []
    | some _ ↦ sdk.occupied_capacity cell (sdk.store_little_endian 0)
  ]

  -- `requiredCapacity`; `ckbChangeCellCapacity` is that of the zero hash.
  unfoldable pub required_capacity : ℕ → Builder → ℕ
  unfolding calculate_cell_capacity
  required_capacity hash b = calculate_cell_capacity (record {
    capacity = 0;
    lock = b.change_script;
    type_script =
        if hash == zero_hash then none else some (GoMap.get_or zero_script hash b.known_udts);
  })

  -- `scriptGroupsForHash`: the indices of the two groups, where they are known.
  unfoldable pub script_groups_for_hash : ℕ → Builder → Option ℕ × Option ℕ
  script_groups_for_hash hash b = (
    GoMap.lookup (sdk.script_hash b.change_script) b.script_group_map,
    if hash == zero_hash then none else GoMap.lookup hash b.script_group_map,
  )

  -- `addOrUpdateCKBChangeCell`
  unfoldable pub add_or_update_ckb_change_cell : ℕ → Builder → Result TxError Builder
  unfolding append_to_groups script_groups_for_hash
  add_or_update_ckb_change_cell amount b = elim b.ckb_change_cell_index [
    | some i ↦ elim (get_elem? b.outputs i) [
      | none ↦ err TxError.panic
      | some cell ↦ ok (record b { outputs = set b.outputs i (record cell { capacity = amount }) })
    ]
    | none ↦
        let cell : CellOutput = record {
          capacity = amount;
          lock = b.change_script;
          type_script = none;
        } in
        let (lock, _) = script_groups_for_hash zero_hash b in
        append_to_groups output_dir (lock, none) (length b.outputs)
          (record b {
            outputs = b.outputs ++ cell ∷ [];
            outputs_data = b.outputs_data ++ [] ∷ [];
            ckb_change_cell_index = some (length b.outputs);
          })
  ]

  -- The new change cell of `addOrUpdateUDTChangeCell`.
  unfoldable pub add_udt_change_cell : ℕ → List ℕ → Builder → Result TxError Builder
  unfolding append_to_groups script_groups_for_hash required_capacity
  add_udt_change_cell hash bytes b = elim (GoMap.lookup hash b.known_udts) [
    | none ↦ err TxError.unknown_udt
    | some udt ↦
        let cell : CellOutput = record {
          capacity = required_capacity hash b;
          lock = b.change_script;
          type_script = some udt;
        } in
        do
          c ←
              append_to_groups output_dir (script_groups_for_hash hash b) (length b.outputs)
                (record b {
                  outputs = b.outputs ++ cell ∷ [];
                  outputs_data = b.outputs_data ++ bytes ∷ [];
                })
          ok (record c {
            udt_change_cell_indices =
                GoMap.insert hash (some (length b.outputs)) c.udt_change_cell_indices;
          })
  ]

  -- `addOrUpdateUDTChangeCell`. Go's map answers 0 for a hash that it does not hold.
  unfoldable pub add_or_update_udt_change_cell : ℕ → ℕ → Builder → Result TxError Builder
  unfolding add_udt_change_cell
  add_or_update_udt_change_cell hash amount b = elim (pack_uint128 sdk (pos amount)) [
    | err e ↦ err TxError.encoding
    | ok bytes ↦ elim (GoMap.get_or (some 0) hash b.udt_change_cell_indices) [
      | some i ↦
          if ltb i (length b.outputs_data)
          then ok (record b { outputs_data = set b.outputs_data i bytes })
          else err TxError.panic
      | none ↦ add_udt_change_cell hash bytes b
    ]
  ]

  -- `addOrUpdateChangeCell`
  unfoldable pub add_or_update_change_cell : ℕ → ℕ → Builder → Result TxError Builder
  unfolding add_or_update_ckb_change_cell add_or_update_udt_change_cell
  add_or_update_change_cell hash amount b =
      if hash == zero_hash
      then add_or_update_ckb_change_cell amount b
      else add_or_update_udt_change_cell hash amount b
