-- ===== src/Transaction/Balance/Shortfall.antt =====
-- A UDT of which `balanceTransaction` of transaction/transaction.go finds too little.
use perun_ckb_backend.Encoding.Bytes.{pack_uint128, to_uint128}
use perun_ckb_backend.Prelude.GoMap
use perun_ckb_backend.Ckb.{Script}
use perun_ckb_backend.Transaction.Balance.Change.{IsFresh}
use perun_ckb_backend.Transaction.Builder.{
  Builder, script_groups_for_hash, required_capacity, add_udt_change_cell,
  add_or_update_udt_change_cell, add_or_update_change_cell,
}
use perun_ckb_backend.Prelude.{
  ◌++◌, [], ◌∷◌, length, some, ok, pos, ◌∙◌, ℕ, ◌+◌, ◌-◌, ◌<◌, ◌≤◌, ◌≡◌, ◌==◌, false, refl, arith,
  lt→ltb, le→ltb,
}
use perun_ckb_backend.Prelude.Words.{u64_mod, sub64}
use perun_ckb_backend.Ckb.{Sdk}
use perun_ckb_backend.Transaction.Funds.{zero_hash, asset_amount, add_asset_amount}
use perun_ckb_backend.Transaction.Builder.Appended.{append_to_groups-Appended}
use perun_ckb_backend.Transaction.Balance.{
  Balancing, add_change_and_adjust, add_change_for_funding, add_inputs_and_change_for_funding,
  balance_asset,
}

not_equal : (m n : ℕ) → ¬ (m ≡ n) → (m == n) ≡ false
not_equal m n h = ground arith

sub64-small : (a b : ℕ) → a < u64_mod → b ≤ a → sub64 a b ≡ a - b
sub64-small a b h k = omega arith

module _ (sdk : Sdk) where
  -- The round goes straight to the change cell.
  balance_asset-add_change_and_adjust :
      (hash required : ℕ) (s : Balancing)
      → ¬ (hash ≡ zero_hash)
      → required < u64_mod
      → asset_amount hash s.provided < required
      → required < asset_amount hash s.provided + asset_amount hash s.provided
      → balance_asset sdk (hash, required) s
        ≡ add_change_and_adjust sdk hash
            (asset_amount hash s.provided - (required - asset_amount hash s.provided))
            s
  unfolding balance_asset add_inputs_and_change_for_funding add_change_for_funding
  balance_asset-add_change_and_adjust hash required s hz h short more =
      let have = asset_amount hash s.provided in
      let missing = required - have in
      rw
        (
          not_equal hash zero_hash hz,
          not_equal have required (omega (arith, short)),
          lt→ltb have required short,
          sub64-small required have h (omega (arith, short)),
          le→ltb have missing (omega (arith, more)),
          not_equal missing 0 (omega (arith, short)),
          le→ltb have missing (omega (arith, more)),
          not_equal have missing (omega (arith, more)),
          sub64-small have missing (omega (arith, h, short)) (omega (arith, more)),
        )
        refl

  pack_uint128-small :
      (n : ℕ) → n < u64_mod → pack_uint128 sdk (pos n) ≡ ok (sdk.store_little_endian n)
  unfolding pack_uint128 to_uint128
  pack_uint128-small n h = ground arith

  -- The groups of a change cell are there: that of the change script, as `InitializeScriptGroups` leaves
  -- it, and that of the UDT's type script, if it is known.
  pub record HasGroups (hash : ℕ) (b : Builder) : Type 0 where
    pub lock : ℕ
    pub lock_found : GoMap.lookup (sdk.script_hash b.change_script) b.script_group_map ≡ some lock
    pub lock_there : lock < length b.script_groups
    pub type_there :
        (t : ℕ) → GoMap.lookup hash b.script_group_map ≡ some t → t < length b.script_groups

  -- A new change cell of a UDT and its amount are the last output, and no input is added.
  pub record Changed (hash amount : ℕ) (udt : Script) (b c : Builder) : Type 0 where
    pub inputs : c.inputs ≡ b.inputs
    pub iterators : c.iterators ≡ b.iterators
    pub outputs :
        c.outputs
        ≡ b.outputs
          ++ record {
            capacity = required_capacity sdk hash b;
            lock = b.change_script;
            type_script = some udt;
          }
            ∷ []
    pub outputs_data : c.outputs_data ≡ b.outputs_data ++ sdk.store_little_endian amount ∷ []
    pub index : GoMap.get_or (some 0) hash c.udt_change_cell_indices ≡ some (length b.outputs)

  known_groups :
      (hash : ℕ) (b : Builder)
      → ¬ (hash ≡ zero_hash)
      → (g : HasGroups hash b)
      → script_groups_for_hash sdk hash b ≡ (some g.lock, GoMap.lookup hash b.script_group_map)
  unfolding script_groups_for_hash
  known_groups hash b hz g = ground (arith, g.lock_found, not_equal hash zero_hash hz)

  add_udt_change_cell-Changed :
      (hash amount : ℕ) (udt : Script) (b : Builder)
      → ¬ (hash ≡ zero_hash)
      → GoMap.lookup hash b.known_udts ≡ some udt
      → HasGroups hash b
      → (c : Builder) × (add_udt_change_cell sdk hash (sdk.store_little_endian amount) b ≡ ok c)
        × Changed hash amount udt b c
  unfolding add_udt_change_cell
  add_udt_change_cell-Changed hash amount udt b hz k g =
      let grown : Builder = record b {
        outputs =
            b.outputs
            ++ record {
              capacity = required_capacity sdk hash b;
              lock = b.change_script;
              type_script = some udt;
            }
              ∷ [];
        outputs_data = b.outputs_data ++ sdk.store_little_endian amount ∷ [];
      } in
      let added =
        append_to_groups-Appended g.lock (GoMap.lookup hash b.script_group_map) (length b.outputs)
          grown g.lock_there g.type_there in
      (
        record grown {
          script_groups = added.groups;
          udt_change_cell_indices =
              GoMap.insert hash (some (length b.outputs)) b.udt_change_cell_indices;
        },
        ground (arith, k, known_groups hash b hz g, added.succeeds),
        record {
          inputs = refl;
          iterators = refl;
          outputs = refl;
          outputs_data = refl;
          index = ground (
            arith,
            GoMap.get_or-insert (some 0) hash hash (some (length b.outputs))
                b.udt_change_cell_indices,
          );
        },
      )

  -- Without a change cell of the UDT, one is made.
  add_or_update_change_cell-new :
      (hash amount : ℕ) (b : Builder)
      → ¬ (hash ≡ zero_hash)
      → amount < u64_mod
      → IsFresh b hash
      → add_or_update_change_cell sdk hash amount b
        ≡ add_udt_change_cell sdk hash (sdk.store_little_endian amount) b
  unfolding add_or_update_change_cell add_or_update_udt_change_cell
  add_or_update_change_cell-new hash amount b hz h fresh =
      ground (arith, not_equal hash zero_hash hz, pack_uint128-small amount h, fresh)

  -- If less than 2 ^ 64 of a UDT is required, and the inputs hold less than that but more than half of
  -- it, and the UDT is deployed and has no change cell yet, and the script groups of such a cell are
  -- there, then its round succeeds without any input drawn: it only appends a change cell, for what the
  -- inputs hold beyond the part that is missing, and the inputs still hold less than is required.
  pub balance_asset-shortfall :
      (hash required : ℕ) (udt : Script) (s : Balancing)
      → ¬ (hash ≡ zero_hash)
      → required < u64_mod
      → asset_amount hash s.provided < required
      → required < asset_amount hash s.provided + asset_amount hash s.provided
      → GoMap.lookup hash s.builder.known_udts ≡ some udt
      → IsFresh s.builder hash
      → HasGroups hash s.builder
      → (t : Balancing) × (balance_asset sdk (hash, required) s ≡ ok t)
        × Changed hash
            (asset_amount hash s.provided + asset_amount hash s.provided - required)
            udt
            s.builder
            t.builder
        × (t.required
            ≡ add_asset_amount zero_hash (required_capacity sdk hash s.builder) s.required)
        × (asset_amount hash t.provided < required)
  unfolding add_change_and_adjust
  balance_asset-shortfall hash required udt s hz h short more known fresh groups =
      let have = asset_amount hash s.provided in
      let amount = have + have - required in
      let (c, e, changed) = add_udt_change_cell-Changed hash amount udt s.builder hz known groups in
      let same : have - (required - have) ≡ amount = omega (arith, short, more) in
      (
        record s {
          required = add_asset_amount zero_hash (required_capacity sdk hash s.builder) s.required;
          builder = c;
        },
        balance_asset-add_change_and_adjust hash required s hz h short more
            ∙ rw
                (
                  same,
                  add_or_update_change_cell-new hash amount s.builder hz (omega (arith, h, short))
                      fresh,
                  e,
                )
                refl,
        changed,
        refl,
        short,
      )
