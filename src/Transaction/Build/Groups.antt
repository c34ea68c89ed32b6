-- ===== src/Transaction/Build/Groups.antt =====
-- `InitializeScriptGroups` of transaction/transaction.go changes the script groups only.
use perun_ckb_backend.Prelude.{
  ℕ, ◌+◌, ◌≡◌, sym, ◌∙◌, subst, inl, inr, Option, none, some, List, [], ◌∷◌, ◌++◌, length,
  get_elem?, ok, >>=-eq-ok, Option-cases, arith,
}
use perun_ckb_backend.Prelude.GoMap
use perun_ckb_backend.Prelude.GoMap.{GoMap}
use perun_ckb_backend.Ckb.{Script, OutPoint, CellInput, CellOutput, CellInfo, Sdk}
use perun_ckb_backend.Transaction.Builder.{
  Builder, Direction, GroupType, lock_group, type_group, input_dir, output_dir, none_dir,
  append_to_group, initialize_script, initialize_outputs, initialize_inputs,
  initialize_script_groups,
}
use perun_ckb_backend.CellIterator.Live.{IsLive}
use perun_ckb_backend.Transaction.Balance.Sums.{IsNonzero}
use perun_ckb_backend.Transaction.Balance.Total.{IsUnbalanced}

-- What a change of the script groups leaves alone.
pub record SameCells (b c : Builder) : Type 0 where
  pub inputs : c.inputs ≡ b.inputs
  pub outputs : c.outputs ≡ b.outputs
  pub fee : c.fee_shannon ≡ b.fee_shannon
  pub ckb_change : c.ckb_change_cell_index ≡ b.ckb_change_cell_index
  pub udt_change : c.udt_change_cell_indices ≡ b.udt_change_cell_indices
  pub known : c.known_udts ≡ b.known_udts
  pub iterators : c.iterators ≡ b.iterators

pub SameCells-refl : (b : Builder) → SameCells b b
SameCells-refl b = ground arith

pub SameCells-trans : {a b c : Builder} → SameCells a b → SameCells b c → SameCells a c
SameCells-trans s t = ground arith

append_to_group-SameCells :
    (d : Direction) (i g : ℕ) (b c : Builder) → append_to_group d i g b ≡ ok c → SameCells b c
unfolding append_to_group
append_to_group-SameCells d i g b c h = elim (Option-cases (get_elem? b.script_groups g)) [
  | inl e ↦ absurd (ground arith)
  | inr (s, e) ↦ ground arith
]

module _ (sdk : Sdk) (live : OutPoint → Option CellInfo) where
  initialize_script-SameCells :
      (script : Option Script) (t : GroupType) (i : ℕ) (d : Direction) (b c : Builder)
      → initialize_script sdk script t i d b ≡ ok c
      → SameCells b c
  unfolding initialize_script
  initialize_script-SameCells none t i d b c h = ground arith
  initialize_script-SameCells (some s) t i d b c h =
      elim (Option-cases (GoMap.lookup (sdk.script_hash s) b.script_group_map)) [
        | inl e ↦ SameCells-trans (ground arith) (
            append_to_group-SameCells d i (length b.script_groups)
              (record b {
                script_groups =
                    b.script_groups
                    ++ record {
                      script = s;
                      group_type = t;
                      input_indices = [];
                      output_indices = [];
                    }
                      ∷ [];
                script_group_map =
                    GoMap.insert (sdk.script_hash s) (length b.script_groups) b.script_group_map;
              })
              c (ground arith))
        | inr (g, e) ↦ append_to_group-SameCells d i g b c (ground arith)
      ]

  initialize_outputs-SameCells :
      (i : ℕ) (os : List CellOutput) (b c : Builder)
      → initialize_outputs sdk i os b ≡ ok c
      → SameCells b c
  unfolding initialize_outputs
  initialize_outputs-SameCells i [] b c h = ground arith
  initialize_outputs-SameCells i (o ∷ os) b c h =
      let (x, e, f) =
        >>=-eq-ok (initialize_script sdk (some o.lock) lock_group i output_dir b) _ h in
      let (y, g, k) =
        >>=-eq-ok (initialize_script sdk o.type_script type_group i output_dir x) _ f in
      SameCells-trans (initialize_script-SameCells (some o.lock) lock_group i output_dir b x e) (
        SameCells-trans (initialize_script-SameCells o.type_script type_group i output_dir x y g)
          (initialize_outputs-SameCells (i + 1) os y c k))

  initialize_inputs-SameCells :
      (i : ℕ) (xs : List CellInput) (b c : Builder)
      → initialize_inputs sdk live i xs b ≡ ok c
      → SameCells b c
  unfolding initialize_inputs
  initialize_inputs-SameCells i [] b c h = ground arith
  initialize_inputs-SameCells i (x ∷ xs) b c h = elim (Option-cases (live x.previous_output)) [
    | inl e ↦ absurd (ground arith)
    | inr (cell, e) ↦
        let lock = some cell.output.lock in
        let type_script = cell.output.type_script in
        let (u, f, g) =
          >>=-eq-ok (initialize_script sdk lock lock_group i input_dir b) _
            (rw (e, initialize_inputs) at h) in
        let (v, k, l) =
          >>=-eq-ok (initialize_script sdk type_script type_group i input_dir u) _ g in
        SameCells-trans (initialize_script-SameCells lock lock_group i input_dir b u f) (
          SameCells-trans (initialize_script-SameCells type_script type_group i input_dir u v k)
            (initialize_inputs-SameCells (i + 1) xs v c l))
  ]

  pub initialize_script_groups-SameCells :
      (b c : Builder) → initialize_script_groups sdk live b ≡ ok c → SameCells b c
  unfolding initialize_script_groups
  initialize_script_groups-SameCells b c h =
      let (x, e, f) = >>=-eq-ok (initialize_outputs sdk 0 b.outputs b) _ h in
      let (y, g, k) = >>=-eq-ok (initialize_inputs sdk live 0 x.inputs x) _ f in
      SameCells-trans (initialize_outputs-SameCells 0 b.outputs b x e) (
        SameCells-trans (initialize_inputs-SameCells 0 x.inputs x y g)
          (initialize_script-SameCells (some y.change_script) lock_group 0 none_dir y c k))

  pub IsUnbalanced-SameCells :
      (b c : Builder) → SameCells b c → IsUnbalanced live b → IsUnbalanced live c
  IsUnbalanced-SameCells b c s u = record {
    no_change = s.ckb_change ∙ u.no_change;
    fresh = λ hash x h.
        subst (λ m. GoMap.get_or (some 0) hash m ≡ none) (sym s.udt_change)
          (u.fresh hash x (subst (λ m. GoMap.lookup hash m ≡ some x) s.known h));
    nonzero = subst IsNonzero (sym s.known) u.nonzero;
    alive = subst (GoMap.Values (IsLive live)) (sym s.iterators) u.alive;
  }
