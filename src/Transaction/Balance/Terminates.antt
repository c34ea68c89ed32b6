-- ===== src/Transaction/Balance/Terminates.antt =====
-- Balancing in transaction/transaction.go as a whole has enough fuel.
use perun_ckb_backend.Prelude.{
  ℕ, ◌==◌, ◌≡◌, inl, inr, ◌&&◌, ◌||◌, Option, none, some, List, [], ◌∷◌, ◌++◌, ok, err, arith,
  Bool-cases, Option-cases, Result-cases, ltb, leb, length, get_elem?, pos,
}
use perun_ckb_backend.Prelude.GoMap
use perun_ckb_backend.Prelude.GoMap.{GoMap}
use perun_ckb_backend.Prelude.Words.{sub64}
use perun_ckb_backend.Ckb.{Script, OutPoint, CellInfo, Sdk}
use perun_ckb_backend.Encoding.Bytes.{pack_uint128}
use perun_ckb_backend.Transaction.Funds.{TxError, zero_hash, asset_amount, equal_assets}
use perun_ckb_backend.Transaction.Builder.{
  Builder, output_dir, required_capacity, append_to_groups, script_groups_for_hash,
  add_or_update_ckb_change_cell, add_udt_change_cell, add_or_update_udt_change_cell,
  add_or_update_change_cell,
}
use perun_ckb_backend.Transaction.Balance.{
  Balancing, add_inputs_for_funding, add_change_and_adjust, fund, add_change_for_funding,
  add_inputs_and_change_for_funding, fund_change_cell, add_inputs_and_change_for_ckb,
  complete_ckb_capacity, balance_asset, balance_assets, start_balancing, balance_transaction,
  required_with_change,
}
use perun_ckb_backend.Transaction.Balance.Ends.{
  Ends, >>=-Ends, if-Ends, ok-Ends, append_to_groups-Ends, accumulate_outputs-Ends,
  accumulate_inputs-Ends, add_inputs_for_funding-Ends,
}

module _ (sdk : Sdk) where
  fund-Ends : (hash amount : ℕ) (s : Balancing) → Ends (fund sdk hash amount s)
  unfolding fund
  fund-Ends hash amount s =
      >>=-Ends (add_inputs_for_funding sdk hash amount s.builder) _
        (add_inputs_for_funding-Ends sdk hash amount s.builder) (λ r. ok-Ends _)

  -- The builders with a change cell of their own.
  abbrev with_cell : ℕ → Builder → Builder
  with_cell amount b = record b {
    outputs =
        b.outputs ++ record { capacity = amount; lock = b.change_script; type_script = none } ∷ [];
    outputs_data = b.outputs_data ++ [] ∷ [];
    ckb_change_cell_index = some (length b.outputs);
  }

  abbrev with_udt : ℕ → List ℕ → Script → Builder → Builder
  with_udt hash bytes udt b = record b {
    outputs =
        b.outputs
        ++ record {
          capacity = required_capacity sdk hash b;
          lock = b.change_script;
          type_script = some udt;
        }
          ∷ [];
    outputs_data = b.outputs_data ++ bytes ∷ [];
  }

  abbrev indexed : ℕ → ℕ → Builder → Builder
  indexed hash i c = record c {
    udt_change_cell_indices = GoMap.insert hash (some i) c.udt_change_cell_indices;
  }

  add_or_update_ckb_change_cell-Ends :
      (amount : ℕ) (b : Builder) → Ends (add_or_update_ckb_change_cell sdk amount b)
  unfolding add_or_update_ckb_change_cell
  add_or_update_ckb_change_cell-Ends amount b h = elim (Option-cases b.ckb_change_cell_index) [
    | inl e ↦
        append_to_groups-Ends output_dir ((script_groups_for_hash sdk zero_hash b).0, none)
          (length b.outputs) (with_cell amount b) (rw (e, add_or_update_ckb_change_cell) at h)
    | inr (i, e) ↦ elim (Option-cases (get_elem? b.outputs i)) [
      | inl f ↦ ground arith
      | inr (cell, f) ↦ ground arith
    ]
  ]

  add_udt_change_cell-Ends :
      (hash : ℕ) (bytes : List ℕ) (b : Builder) → Ends (add_udt_change_cell sdk hash bytes b)
  unfolding add_udt_change_cell
  add_udt_change_cell-Ends hash bytes b h = elim (Option-cases (GoMap.lookup hash b.known_udts)) [
    | inl e ↦ ground arith
    | inr (udt, e) ↦
        >>=-Ends
          (append_to_groups output_dir (script_groups_for_hash sdk hash b) (length b.outputs)
            (with_udt hash bytes udt b))
          (λ c. ok (indexed hash (length b.outputs) c))
          (append_to_groups-Ends output_dir (script_groups_for_hash sdk hash b) (length b.outputs)
            (with_udt hash bytes udt b))
          (λ c. ok-Ends (indexed hash (length b.outputs) c)) (rw (e, add_udt_change_cell) at h)
  ]

  add_or_update_change_cell-Ends :
      (hash amount : ℕ) (b : Builder) → Ends (add_or_update_change_cell sdk hash amount b)
  unfolding add_or_update_change_cell add_or_update_udt_change_cell
  add_or_update_change_cell-Ends hash amount b h = elim (Bool-cases (hash == zero_hash)) [
    | inl e ↦ add_or_update_ckb_change_cell-Ends amount b (ground arith)
    | inr e ↦ elim (Result-cases (pack_uint128 sdk (pos amount))) [
      | inr (x, f) ↦ ground arith
      | inl (bytes, f) ↦
          elim (Option-cases (GoMap.get_or (some 0) hash b.udt_change_cell_indices)) [
            | inl g ↦ add_udt_change_cell-Ends hash bytes b (ground arith)
            | inr (i, g) ↦ ground arith
          ]
    ]
  ]

  add_change_and_adjust-Ends :
      (hash change : ℕ) (s : Balancing) → Ends (add_change_and_adjust sdk hash change s)
  unfolding add_change_and_adjust
  add_change_and_adjust-Ends hash change s =
      >>=-Ends (add_or_update_change_cell sdk hash change s.builder) _
        (add_or_update_change_cell-Ends hash change s.builder) (λ b. ok-Ends _)

  add_change_for_funding-Ends :
      (hash requested : ℕ) (s : Balancing) → Ends (add_change_for_funding sdk hash requested s)
  unfolding add_change_for_funding
  add_change_for_funding-Ends hash requested s =
      if-Ends (ltb (asset_amount hash s.provided) requested) _ _ (λ h. ground arith)
        (if-Ends (asset_amount hash s.provided == requested) _ _ (ok-Ends s)
          (add_change_and_adjust-Ends hash (sub64 (asset_amount hash s.provided) requested) s))

  add_inputs_and_change_for_funding-Ends :
      (hash requested : ℕ) (s : Balancing)
      → Ends (add_inputs_and_change_for_funding sdk hash requested s)
  unfolding add_inputs_and_change_for_funding
  add_inputs_and_change_for_funding-Ends hash requested s =
      >>=-Ends _ (add_change_for_funding sdk hash requested)
        (if-Ends (ltb (asset_amount hash s.provided) requested || requested == 0) _ _
          (fund-Ends hash (sub64 requested (asset_amount hash s.provided)) s) (ok-Ends s))
        (add_change_for_funding-Ends hash requested)

  fund_change_cell-Ends : (s : Balancing) → Ends (fund_change_cell sdk s)
  unfolding fund_change_cell
  fund_change_cell-Ends s =
      if-Ends (ltb (asset_amount zero_hash s.provided) (required_with_change sdk s)) _ _
        (fund-Ends zero_hash
          (sub64 (required_with_change sdk s) (asset_amount zero_hash s.provided)) s)
        (ok-Ends s)

  complete_ckb_capacity-Ends : (s : Balancing) → Ends (complete_ckb_capacity sdk s)
  unfolding complete_ckb_capacity add_inputs_and_change_for_ckb
  complete_ckb_capacity-Ends s =
      if-Ends (leb (required_with_change sdk s) (asset_amount zero_hash s.provided)) _ _
        (>>=-Ends _ _
          (add_or_update_change_cell-Ends zero_hash
            (sub64 (asset_amount zero_hash s.provided) (asset_amount zero_hash s.required))
            s.builder)
          (λ b. ok-Ends _))
        (>>=-Ends _ _
          (fund-Ends zero_hash
            (sub64 (asset_amount zero_hash s.required) (asset_amount zero_hash s.provided)) s)
          (λ t. >>=-Ends _ _ (fund_change_cell-Ends t) (λ u.
            add_change_and_adjust-Ends zero_hash
              (sub64 (asset_amount zero_hash u.provided) (asset_amount zero_hash u.required)) u)))

  balance_asset-Ends : (e : ℕ × ℕ) (s : Balancing) → Ends (balance_asset sdk e s)
  unfolding balance_asset
  balance_asset-Ends (hash, amount) s =
      let have = asset_amount hash s.provided in
      if-Ends (hash == zero_hash) _ _ (ok-Ends s) (
        if-Ends (have == amount && ltb 0 amount) _ _ (ok-Ends s) (
          if-Ends (ltb have amount) _ _
            (add_inputs_and_change_for_funding-Ends hash (sub64 amount have) s)
            (if-Ends (ltb amount have) _ _ (add_change_and_adjust-Ends hash (sub64 have amount) s)
              (ok-Ends s))))

  balance_assets-Ends : (es : GoMap ℕ) (s : Balancing) → Ends (balance_assets sdk es s)
  unfolding balance_assets
  balance_assets-Ends [] s = ok-Ends s
  balance_assets-Ends (e ∷ es) s =
      >>=-Ends (balance_asset sdk e s) (balance_assets sdk es) (balance_asset-Ends e s)
        (balance_assets-Ends es)

  -- Balancing never runs out of the fuel that its loops over the iterators are given.
  pub balance_transaction-Ends :
      (live : OutPoint → Option CellInfo) (order : GoMap ℕ → GoMap ℕ) (b : Builder)
      → ¬ (balance_transaction sdk live order b ≡ err TxError.out_of_fuel)
  unfolding balance_transaction start_balancing
  balance_transaction-Ends live order b =
      >>=-Ends (start_balancing sdk live b) _
        (>>=-Ends _ _ (accumulate_outputs-Ends sdk b.outputs b.outputs_data _)
          (λ r. >>=-Ends _ _ (accumulate_inputs-Ends sdk live b.inputs _) (λ p. ok-Ends _)))
        (λ s. if-Ends (equal_assets s.provided s.required) _ _ (ok-Ends b) (
          >>=-Ends _ _ (balance_assets-Ends (order s.required.asset_amounts) s)
            (λ t. >>=-Ends _ _ (complete_ckb_capacity-Ends t) (λ u. ok-Ends u.builder))))
