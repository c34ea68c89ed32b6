-- ===== src/Transaction/Balance/Change.antt =====
-- The change cells of transaction/transaction.go hold what is added to the required amount.
use perun_ckb_backend.Prelude.{
  ℕ, ◌+◌, ◌==◌, ◌≡◌, refl, sym, ap, ◌∙◌, inl, inr, false, Option, none, some, List, [], ◌∷◌, ◌++◌,
  ok, arith, Option-cases, Result-cases, length, subst, pos,
}
use perun_ckb_backend.Prelude.GoMap
use perun_ckb_backend.Prelude.GoMap.{GoMap}
use perun_ckb_backend.Ckb.{OutPoint, CellOutput, CellInfo, Sdk}
use perun_ckb_backend.Encoding.Bytes.{pack_uint128}
use perun_ckb_backend.Transaction.Funds.{zero_hash, add_asset_amount}
use perun_ckb_backend.Transaction.Builder.{
  Builder, output_dir, append_to_groups, script_groups_for_hash, required_capacity,
  add_or_update_ckb_change_cell, add_or_update_udt_change_cell, add_udt_change_cell,
  add_or_update_change_cell,
}
use perun_ckb_backend.Transaction.Balance.{Balancing, add_change_and_adjust}
use perun_ckb_backend.Transaction.Balance.Sums.{capacity, capacity-append, Counts-add}
use perun_ckb_backend.Transaction.Balance.Inputs.{append_to_groups-groups, IsCounted}

-- One more output, of the given capacity, was added.
pub record Grown (b c : Builder) (gained : ℕ) : Type 0 where
  pub outputs : capacity c.outputs ≡ capacity b.outputs + gained
  pub inputs : c.inputs ≡ b.inputs
  pub known : c.known_udts ≡ b.known_udts
  pub fee : c.fee_shannon ≡ b.fee_shannon
  pub iterators : c.iterators ≡ b.iterators

-- A hash has no change cell yet.
abbrev pub IsFresh : Builder → ℕ → Type 0
IsFresh b hash = GoMap.get_or (some 0) hash b.udt_change_cell_indices ≡ none

module _ (sdk : Sdk) where
  pub add_ckb_change-Grown :
      (amount : ℕ) (b c : Builder)
      → b.ckb_change_cell_index ≡ none
      → add_or_update_ckb_change_cell sdk amount b ≡ ok c
      → Grown b c amount
  unfolding add_or_update_ckb_change_cell
  add_ckb_change-Grown amount b c e h =
      let cell : CellOutput = record {
        capacity = amount;
        lock = b.change_script;
        type_script = none;
      } in
      let grown : Builder = record b {
        outputs = b.outputs ++ cell ∷ [];
        outputs_data = b.outputs_data ++ [] ∷ [];
        ckb_change_cell_index = some (length b.outputs);
      } in
      let shape =
        append_to_groups-groups output_dir ((script_groups_for_hash sdk zero_hash b).0, none)
          (length b.outputs) grown c (ground arith) in
      subst (λ (x : Builder). Grown b x amount) (sym shape)
        (record {
          outputs = capacity-append b.outputs cell;
          inputs = refl;
          known = refl;
          fee = refl;
          iterators = refl;
        })

  -- A new change cell of a UDT has the capacity that `requiredCapacity` computes.
  add_udt_change_cell-Grown :
      (hash : ℕ) (bytes : List ℕ) (b c : Builder)
      → add_udt_change_cell sdk hash bytes b ≡ ok c
      → Grown b c (required_capacity sdk hash b)
        × (c.ckb_change_cell_index ≡ b.ckb_change_cell_index)
        × ((k : Option ℕ) × (c.udt_change_cell_indices
              ≡ GoMap.insert hash k b.udt_change_cell_indices))
  unfolding add_udt_change_cell
  add_udt_change_cell-Grown hash bytes b c h =
      elim (Option-cases (GoMap.lookup hash b.known_udts)) [
        | inl e ↦ absurd (ground arith)
        | inr (udt, e) ↦
            let cell : CellOutput = record {
              capacity = required_capacity sdk hash b;
              lock = b.change_script;
              type_script = some udt;
            } in
            let grown : Builder = record b {
              outputs = b.outputs ++ cell ∷ [];
              outputs_data = b.outputs_data ++ bytes ∷ [];
            } in
            elim (Result-cases (
              append_to_groups output_dir (script_groups_for_hash sdk hash b) (length b.outputs)
                grown)) [
                  | inr (_, f) ↦ absurd (ground arith)
                  | inl (m, f) ↦
                      let shape =
                        append_to_groups-groups output_dir (script_groups_for_hash sdk hash b)
                          (length b.outputs) grown m f in
                      let indices : m.udt_change_cell_indices ≡ b.udt_change_cell_indices =
                        ap (λ (x : Builder). x.udt_change_cell_indices) shape in
                      let result : Builder = record m {
                        udt_change_cell_indices =
                            GoMap.insert hash (some (length b.outputs)) m.udt_change_cell_indices;
                      } in
                      subst
                        (λ (x : Builder).
                          Grown b x (required_capacity sdk hash b)
                          × (x.ckb_change_cell_index ≡ b.ckb_change_cell_index)
                          × ((k : Option ℕ) × (x.udt_change_cell_indices
                                ≡ GoMap.insert hash k b.udt_change_cell_indices)))
                        {x = result} (ground arith)
                        (
                          record {
                            outputs =
                                ap (λ (x : Builder). capacity x.outputs) shape
                                ∙ capacity-append b.outputs cell;
                            inputs = ap (λ (x : Builder). x.inputs) shape;
                            known = ap (λ (x : Builder). x.known_udts) shape;
                            fee = ap (λ (x : Builder). x.fee_shannon) shape;
                            iterators = ap (λ (x : Builder). x.iterators) shape;
                          },
                          ap (λ (x : Builder). x.ckb_change_cell_index) shape,
                          (
                            some (length b.outputs),
                            ap (GoMap.insert hash (some (length b.outputs))) indices,
                          ),
                        )
                ]
      ]

  -- Adding a UDT's change cell keeps the count, and leaves the other hashes without one.
  pub add_change_and_adjust-IsCounted :
      (live : OutPoint → Option CellInfo) (hash change : ℕ) (s t : Balancing)
      → (hash == zero_hash) ≡ false
      → IsFresh s.builder hash
      → IsCounted sdk live s
      → add_change_and_adjust sdk hash change s ≡ ok t
      → IsCounted sdk live t
        × ((j : ℕ) → (hash == j) ≡ false → IsFresh s.builder j → IsFresh t.builder j)
  unfolding add_change_and_adjust add_or_update_change_cell add_or_update_udt_change_cell
  add_change_and_adjust-IsCounted live hash change s t nonzero fresh v h =
      elim (Result-cases (pack_uint128 sdk (pos change))) [
        | inr (_, e) ↦ absurd (ground arith)
        | inl (bytes, e) ↦ elim (Result-cases (add_udt_change_cell sdk hash bytes s.builder)) [
          | inr (_, f) ↦ absurd (ground arith)
          | inl (c, f) ↦
              let (grown, index, (k, indices)) =
                add_udt_change_cell-Grown hash bytes s.builder c f in
              let result : Balancing = record s {
                required =
                    add_asset_amount zero_hash (required_capacity sdk hash s.builder) s.required;
                builder = c;
              } in
              subst
                (λ (x : Balancing).
                  IsCounted sdk live x
                  × ((j : ℕ) → (hash == j) ≡ false → IsFresh s.builder j → IsFresh x.builder j))
                {x = result} (ground arith)
                (
                  record {
                    provided = rw grown.inputs v.provided;
                    required = omega (
                      arith,
                      Counts-add s.required _ (required_capacity sdk hash s.builder) v.required,
                      grown.outputs,
                      grown.fee,
                    );
                    nonzero = rw grown.known v.nonzero;
                    alive = rw grown.iterators v.alive;
                    no_change = index ∙ v.no_change;
                  },
                  λ j other old.
                      rw
                        (
                          indices,
                          GoMap.get_or-insert (some 0) hash j k s.builder.udt_change_cell_indices,
                          other,
                        )
                        old,
                )
        ]
      ]
