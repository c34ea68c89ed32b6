-- ===== src/Transaction/Balance/Inputs.antt =====
-- `addInputsForFunding` of transaction/transaction.go counts what the inputs that it adds spend.
use perun_ckb_backend.Prelude.{
  ℕ, zero, suc, ◌+◌, ◌≡◌, refl, sym, ap, ◌∙◌, inl, inr, Option, none, some, [], ◌∷◌, ◌++◌, ok,
  >>=-eq-ok, arith, Bool-cases, Option-cases, Result-cases, length, subst, leb, get_elem?,
}
use perun_ckb_backend.Prelude.GoMap
use perun_ckb_backend.Prelude.GoMap.{GoMap}
use perun_ckb_backend.Ckb.{OutPoint, CellInfo, TransactionInput, Sdk}
use perun_ckb_backend.CellIterator.{CellIterator, has_next, next, size}
use perun_ckb_backend.CellIterator.Live.{IsLive, IsLiveCell, has_next-IsLive, next-IsLive}
use perun_ckb_backend.Transaction.Funds.{
  AssetInformation, new_asset_information, asset_amount, merge_with, add_values_from_output,
}
use perun_ckb_backend.Transaction.Builder.{
  Builder, Direction, input_dir, append_to_group, append_to_groups, script_groups_for_hash,
}
use perun_ckb_backend.Transaction.Balance.{
  Balancing, add_input, add_inputs, add_inputs_for_funding, fund,
}
use perun_ckb_backend.Transaction.Balance.Sums.{
  capacity, spent, spent-append, IsNonzero, Counts, Counts-new, Counts-add_values,
  Counts-add_values_known, Counts-merge_with, IsDistinct,
}
use perun_ckb_backend.Transaction.Balance.Keys.{add_values-IsDistinct}

append_to_group-groups :
    (d : Direction) (i g : ℕ) (b c : Builder)
    → append_to_group d i g b ≡ ok c
    → c ≡ record b { script_groups = c.script_groups }
unfolding append_to_group
append_to_group-groups d i g b c h = elim (Option-cases (get_elem? b.script_groups g)) [
  | inl e ↦ ground arith
  | inr (x, e) ↦ ground arith
]

-- Only the script groups change when an index is added to two of them.
pub append_to_groups-groups :
    (d : Direction) (gs : Option ℕ × Option ℕ) (i : ℕ) (b c : Builder)
    → append_to_groups d gs i b ≡ ok c
    → c ≡ record b { script_groups = c.script_groups }
unfolding append_to_groups
append_to_groups-groups d (none, t) i b c h = ground arith
append_to_groups-groups d (some g, none) i b c h = append_to_group-groups d i g b c h
append_to_groups-groups d (some g, some t) i b c h =
    let (m, e, f) = >>=-eq-ok (append_to_group d i g b) _ h in
    let p = append_to_group-groups d i g b m e in
    let q = append_to_group-groups d i t m c f in
    q ∙ ap (λ (x : Builder). record x { script_groups = c.script_groups }) p

-- What stays when inputs are added.
pub record SameCells (b c : Builder) : Type 0 where
  pub outputs : c.outputs ≡ b.outputs
  pub outputs_data : c.outputs_data ≡ b.outputs_data
  pub ckb_index : c.ckb_change_cell_index ≡ b.ckb_change_cell_index
  pub udt_indices : c.udt_change_cell_indices ≡ b.udt_change_cell_indices
  pub known : c.known_udts ≡ b.known_udts
  pub fee : c.fee_shannon ≡ b.fee_shannon

pub SameCells-refl : (b : Builder) → SameCells b b
SameCells-refl b = ground arith

pub SameCells-trans : {a b c : Builder} → SameCells a b → SameCells b c → SameCells a c
SameCells-trans p q = record {
  outputs = q.outputs ∙ p.outputs;
  outputs_data = q.outputs_data ∙ p.outputs_data;
  ckb_index = q.ckb_index ∙ p.ckb_index;
  udt_indices = q.udt_indices ∙ p.udt_indices;
  known = q.known ∙ p.known;
  fee = q.fee ∙ p.fee;
}

module _ (sdk : Sdk) (live : OutPoint → Option CellInfo) where
  -- Inputs were added, and the amount has grown by the CKBytes that they spend.
  pub record Added (funded : AssetInformation) (b : Builder) (funded' : AssetInformation)
      (c : Builder) : Type 0 where
    pub gained : ℕ
    pub spends : spent live c.inputs ≡ spent live b.inputs + gained
    pub counts : (n : ℕ) → Counts funded n → Counts funded' (n + gained)
    pub known : funded'.known_udts ≡ funded.known_udts
    pub distinct : IsDistinct funded → IsDistinct funded'
    pub cells : SameCells b c
    pub iterators : c.iterators ≡ b.iterators

  Added-refl : (funded : AssetInformation) (b : Builder) → Added funded b funded b
  Added-refl funded b = record {
    gained = 0;
    spends = omega arith;
    counts = λ n h. omega arith;
    known = refl;
    distinct = λ d. d;
    cells = SameCells-refl b;
    iterators = refl;
  }

  Added-trans :
      {f g h : AssetInformation} {a b c : Builder} → Added f a g b → Added g b h c → Added f a h c
  Added-trans p q = record {
    gained = p.gained + q.gained;
    spends = omega (arith, p.spends, q.spends);
    counts = λ n e. omega (arith, q.counts (n + p.gained) (p.counts n e));
    known = q.known ∙ p.known;
    distinct = λ d. q.distinct (p.distinct d);
    cells = SameCells-trans p.cells q.cells;
    iterators = q.iterators ∙ p.iterators;
  }

  -- The builder with one more input.
  abbrev with_input : TransactionInput → Builder → Builder
  with_input x b = record b {
    inputs = b.inputs ++ record { since = 0; previous_output = x.out_point } ∷ [];
    witnesses = b.witnesses ++ [] ∷ [];
  }

  add_input-eq_ok :
      (hash : ℕ) (cell : Option TransactionInput) (f g : AssetInformation) (b c : Builder)
      → add_input sdk hash cell f b ≡ ok (g, c)
      → (x : TransactionInput) × (cell ≡ some x)
        × (add_values_from_output sdk x.output x.output_data f ≡ ok g)
        × (append_to_groups input_dir
              (script_groups_for_hash sdk hash b)
              (length b.inputs)
              (with_input x b)
            ≡ ok c)
  unfolding add_input
  add_input-eq_ok hash none f g b c h = absurd (ground arith)
  add_input-eq_ok hash (some x) f g b c h =
      elim (Result-cases (add_values_from_output sdk x.output x.output_data f)) [
        | inr (_, e) ↦ absurd (ground arith)
        | inl (r, e) ↦
            elim (Result-cases (
              append_to_groups input_dir (script_groups_for_hash sdk hash b) (length b.inputs)
                (with_input x b))) [
                  | inr (_, k) ↦ absurd (ground arith)
                  | inl (z, k) ↦ (x, refl, ground arith, ground arith)
                ]
      ]

  add_input-Added :
      (hash : ℕ) (cell : Option TransactionInput) (f g : AssetInformation) (b c : Builder)
      → IsLiveCell live cell
      → IsNonzero f.known_udts
      → add_input sdk hash cell f b ≡ ok (g, c)
      → Added f b g c
  add_input-Added hash cell f g b c alive nonzero h =
      let (x, e, v, k) = add_input-eq_ok hash cell f g b c h in
      let shape =
        append_to_groups-groups input_dir (script_groups_for_hash sdk hash b) (length b.inputs)
          (with_input x b) c k in
      record {
        gained = x.output.capacity;
        spends =
            ap (λ (y : Builder). spent live y.inputs) shape
            ∙ spent-append live b.inputs _ _ (subst (IsLiveCell live) e alive);
        counts = λ n count. (Counts-add_values sdk x.output x.output_data f g n nonzero count v).0;
        known = (Counts-add_values_known sdk x.output x.output_data f g nonzero v);
        distinct = add_values-IsDistinct sdk x.output x.output_data f g v;
        cells = subst (SameCells b) (sym shape) (ground arith);
        iterators = ap (λ (y : Builder). y.iterators) shape;
      }

  abbrev Outcome : AssetInformation → Builder → AssetInformation × CellIterator × Builder → Type 0
  Outcome f b (g, it, c) = Added f b g c × IsLive live it

  add_inputs-Outcome :
      (fuel hash amount : ℕ) (it : CellIterator) (f : AssetInformation) (b : Builder)
      (r : AssetInformation × CellIterator × Builder)
      → IsLive live it
      → IsNonzero f.known_udts
      → add_inputs sdk fuel hash amount it f b ≡ ok r
      → Outcome f b r
  unfolding add_inputs
  add_inputs-Outcome zero hash amount it f b r alive nonzero h = absurd (ground arith)
  add_inputs-Outcome (suc fuel) hash amount it f b r alive nonzero h =
      let alive₁ = has_next-IsLive live it alive in
      let (alive_cell, alive₂) = next-IsLive live (has_next it).1 alive₁ in
      let it₂ = (next (has_next it).1).1 in
      elim (Bool-cases (has_next it).0) [
        | inr e ↦ subst (Outcome f b) (ground arith) (Added-refl f b, alive₁)
        | inl e ↦ elim (Result-cases (add_input sdk hash (next (has_next it).1).0 f b)) [
          | inr (_, k) ↦ absurd (ground arith)
          | inl ((g, c), k) ↦
              let step =
                add_input-Added hash (next (has_next it).1).0 f g b c alive_cell nonzero k in
              elim (Bool-cases (leb amount (asset_amount hash g))) [
                | inl done ↦ subst (Outcome f b) (ground arith) (step, alive₂)
                | inr more ↦
                    let (rest, alive₃) =
                      add_inputs-Outcome fuel hash amount it₂ g c r alive₂ (rw step.known nonzero)
                        (ground arith) in
                    (Added-trans step rest, alive₃)
              ]
        ]
      ]

  -- Inputs were added, and the amount is the CKBytes that they spend.
  abbrev Funds : Builder → AssetInformation × Builder → Type 0
  Funds b (g, c) =
      (gained : ℕ) × (spent live c.inputs ≡ spent live b.inputs + gained)
      × Counts g gained
      × IsDistinct g
      × SameCells b c
      × GoMap.Values (IsLive live) c.iterators

  add_inputs_for_funding-Funds :
      (hash amount : ℕ) (b : Builder) (r : AssetInformation × Builder)
      → GoMap.Values (IsLive live) b.iterators
      → IsNonzero b.known_udts
      → add_inputs_for_funding sdk hash amount b ≡ ok r
      → Funds b r
  unfolding add_inputs_for_funding new_asset_information
  add_inputs_for_funding-Funds hash amount b r alive nonzero h =
      elim (Option-cases (GoMap.lookup hash b.iterators)) [
        | inl e ↦ absurd (ground arith)
        | inr (it, e) ↦ elim (Bool-cases (has_next it).0) [
          | inr k ↦ absurd (ground arith)
          | inl k ↦
              let start = new_asset_information b.known_udts in
              let it₁ = (has_next it).1 in
              let alive₁ =
                has_next-IsLive live it
                  (GoMap.lookup-Values (IsLive live) hash it b.iterators alive e) in
              elim (Result-cases (add_inputs sdk (suc (size it₁)) hash amount it₁ start b)) [
                | inr (_, m) ↦ absurd (ground arith)
                | inl ((g, it₂, c), m) ↦
                    let (added, alive₂) =
                      add_inputs-Outcome (suc (size it₁)) hash amount it₁ start b (g, it₂, c) alive₁
                        nonzero m in
                    let values =
                      GoMap.insert-Values (IsLive live) hash it₂ c.iterators alive₂
                        (rw added.iterators alive) in
                    let result : AssetInformation × Builder =
                      (g, record c { iterators = GoMap.insert hash it₂ c.iterators }) in
                    subst (Funds b) {x = result} (ground arith) (
                      added.gained,
                      added.spends,
                      omega (arith, added.counts 0 (Counts-new b.known_udts)),
                      added.distinct tt,
                      SameCells-trans added.cells (ground arith),
                      values,
                    )
              ]
        ]
      ]

  -- Balancing goes on from here: the provided amount is what the inputs spend, the required amount
  -- is what the outputs hold and the fee, and there is no change cell for CKBytes yet.
  pub record IsCounted (s : Balancing) : Type 0 where
    pub provided : Counts s.provided (spent live s.builder.inputs)
    pub required : Counts s.required (capacity s.builder.outputs + s.builder.fee_shannon)
    pub nonzero : IsNonzero s.builder.known_udts
    pub alive : GoMap.Values (IsLive live) s.builder.iterators
    pub no_change : s.builder.ckb_change_cell_index ≡ none

  pub fund-IsCounted :
      (hash amount : ℕ) (s t : Balancing)
      → IsCounted s
      → fund sdk hash amount s ≡ ok t
      → IsCounted t
        × (t.builder.udt_change_cell_indices ≡ s.builder.udt_change_cell_indices)
        × SameCells s.builder t.builder
  unfolding fund
  fund-IsCounted hash amount s t v h =
      let (r, e, f) = >>=-eq-ok (add_inputs_for_funding sdk hash amount s.builder) _ h in
      let (gained, spends, counts, distinct, cells, alive) =
        add_inputs_for_funding-Funds hash amount s.builder r v.alive v.nonzero e in
      let (provided, _) = Counts-merge_with s.provided r.0 _ gained distinct v.provided counts in
      let result : Balancing = record s { provided = merge_with s.provided r.0; builder = r.1 } in
      subst
        (λ (x : Balancing).
          IsCounted x
          × (x.builder.udt_change_cell_indices ≡ s.builder.udt_change_cell_indices)
          × SameCells s.builder x.builder)
        {x = result} (cc)
        (
          record {
            provided = rw spends provided;
            required = rw (cells.outputs, cells.fee) v.required;
            nonzero = rw cells.known v.nonzero;
            alive = alive;
            no_change = cells.ckb_index ∙ v.no_change;
          },
          cells.udt_indices,
          cells,
        )
