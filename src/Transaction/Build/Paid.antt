-- ===== src/Transaction/Build/Paid.antt =====
-- A transaction that `Build` returns is paid for.
use perun_ckb_backend.Prelude.{
  ℕ, ◌<◌, ◌≡◌, subst, inl, inr, Option, some, List, [], ◌∷◌, get_elem?, ok, >>=-eq-ok, Option-cases,
  arith, All,
}
use perun_ckb_backend.Prelude.GoMap.{GoMap}
use perun_ckb_backend.Ckb.{Script, OutPoint, CellInput, CellOutput, CellInfo, Sdk}
use perun_ckb_backend.Transaction.Builder.{
  Builder, ScriptGroup, initialize_script_groups, handle_ckb_fee,
}
use perun_ckb_backend.Transaction.Balance.{balance_transaction}
use perun_ckb_backend.Transaction.Balance.Conserves.{Pays}
use perun_ckb_backend.Transaction.Balance.Total.{Ranges, IsUnbalanced, balance_transaction-Pays}
use perun_ckb_backend.Transaction.Build.{
  ScriptHandler, Built, call_contexts, call_handlers, group_for_script, process_script,
  process_outputs, process_inputs, extend_contexts, build,
}
use perun_ckb_backend.Transaction.Build.Groups.{
  SameCells, SameCells-trans, initialize_script_groups-SameCells, IsUnbalanced-SameCells,
}

-- The documented behaviour of the SDK's handlers: they write witnesses and dependencies, and leave the
-- cells of the transaction alone.
abbrev pub LeavesCells : {C : Type 0} → ScriptHandler C → Type 0
LeavesCells {C} handler =
    (g : ScriptGroup) (c : Option C) (b b' : Builder) → handler g c b ≡ ok b' → SameCells b b'

module _ {C : Type 0} (sdk : Sdk) (handlers : List (ScriptHandler C)) (contexts : List (Option C))
    (leave : All LeavesCells handlers) where
  call_contexts-SameCells :
      (handler : ScriptHandler C) (g : ScriptGroup) (cs : List (Option C)) (b c : Builder)
      → LeavesCells handler
      → call_contexts sdk handlers contexts handler g cs b ≡ ok c
      → SameCells b c
  unfolding call_contexts
  call_contexts-SameCells handler g [] b c l h = ground arith
  call_contexts-SameCells handler g (x ∷ cs) b c l h =
      let (u, e, f) = >>=-eq-ok (handler g x b) _ h in
      SameCells-trans (l g x b u e) (call_contexts-SameCells handler g cs u c l f)

  call_handlers-SameCells :
      (hs : List (ScriptHandler C)) (g : ScriptGroup) (b c : Builder)
      → All LeavesCells hs
      → call_handlers sdk handlers contexts hs g b ≡ ok c
      → SameCells b c
  unfolding call_handlers
  call_handlers-SameCells [] g b c l h = ground arith
  call_handlers-SameCells (x ∷ hs) g b c l h =
      let (u, e, f) = >>=-eq-ok (call_contexts sdk handlers contexts x g contexts b) _ h in
      SameCells-trans (call_contexts-SameCells x g contexts b u l.0 e)
        (call_handlers-SameCells hs g u c l.1 f)

  process_script-SameCells :
      (script : Option Script) (b c : Builder)
      → process_script sdk handlers contexts script b ≡ ok c
      → SameCells b c
  unfolding process_script
  process_script-SameCells script b c h =
      let (group, e, f) = >>=-eq-ok (group_for_script sdk handlers contexts script b) _ h in
      elim (Option-cases group) [
        | inl n ↦ ground arith
        | inr (g, n) ↦ call_handlers-SameCells handlers g b c leave (ground arith)
      ]

  process_outputs-SameCells :
      (os : List CellOutput) (b c : Builder)
      → process_outputs sdk handlers contexts os b ≡ ok c
      → SameCells b c
  unfolding process_outputs
  process_outputs-SameCells [] b c h = ground arith
  process_outputs-SameCells (o ∷ os) b c h =
      let (u, e, f) = >>=-eq-ok (process_script sdk handlers contexts o.type_script b) _ h in
      SameCells-trans (process_script-SameCells o.type_script b u e)
        (process_outputs-SameCells os u c f)

  module _ (live : OutPoint → Option CellInfo) where
    process_inputs-SameCells :
        (xs : List CellInput) (b c : Builder)
        → process_inputs sdk handlers contexts live xs b ≡ ok c
        → SameCells b c
    unfolding process_inputs
    process_inputs-SameCells [] b c h = ground arith
    process_inputs-SameCells (x ∷ xs) b c h = elim (Option-cases (live x.previous_output)) [
      | inl e ↦ absurd (ground arith)
      | inr (cell, e) ↦
          let (u, f, g) =
            >>=-eq-ok (process_script sdk handlers contexts (some cell.output.lock) b) _
              (rw (e, process_inputs) at h) in
          let (v, k, l) =
            >>=-eq-ok (process_script sdk handlers contexts cell.output.type_script u) _ g in
          SameCells-trans (process_script-SameCells (some cell.output.lock) b u f) (
            SameCells-trans (process_script-SameCells cell.output.type_script u v k)
              (process_inputs-SameCells xs v c l))
    ]

-- The change cell of CKBytes, if there is one, holds more than the fee.
abbrev pub ChangeAboveFee : Builder → Type 0
ChangeAboveFee b =
    (i : ℕ)
    → b.ckb_change_cell_index ≡ some i
    → (cell : CellOutput) × (get_elem? b.outputs i ≡ some cell) × (b.fee_shannon < cell.capacity)

handle_ckb_fee-ChangeAboveFee :
    (b : Builder) (u : Unit {0}) → handle_ckb_fee b ≡ ok u → ChangeAboveFee b
unfolding handle_ckb_fee
handle_ckb_fee-ChangeAboveFee b u h i e = elim (Option-cases (get_elem? b.outputs i)) [
  | inl n ↦ absurd (ground arith)
  | inr (cell, n) ↦ (cell, n, ground arith)
]

module _ {C : Type 0} (sdk : Sdk) (handlers : List (ScriptHandler C))
    (live : OutPoint → Option CellInfo) (order : GoMap ℕ → GoMap ℕ) where
  -- If `Build` succeeds for a builder that was not balanced before and whose iterators yield live cells,
  -- with handlers that leave cells alone, the inputs of the transaction pay for its outputs and the fee
  -- on 64 bits, and a change cell of CKBytes holds more than the fee.
  pub build-Pays :
      (contexts : List (Option C)) (b : Builder) (t : Built)
      → Ranges order
      → All LeavesCells handlers
      → IsUnbalanced live b
      → build sdk handlers live order contexts b ≡ ok t
      → Pays sdk live t.builder × ChangeAboveFee t.builder
  unfolding build
  build-Pays contexts b t ranges leave u h =
      let cs = extend_contexts contexts in
      let (b₁, e₁, h₁) = >>=-eq-ok (initialize_script_groups sdk live b) _ h in
      let (b₂, e₂, h₂) = >>=-eq-ok (balance_transaction sdk live order b₁) _ h₁ in
      let (b₃, e₃, h₃) = >>=-eq-ok (process_outputs sdk handlers cs b₂.outputs b₂) _ h₂ in
      let (b₄, e₄, h₄) = >>=-eq-ok (process_inputs sdk handlers cs live b₃.inputs b₃) _ h₃ in
      let (done, e₅, h₅) = >>=-eq-ok (handle_ckb_fee b₄) _ h₄ in
      let unbalanced =
        IsUnbalanced-SameCells sdk live b b₁ (initialize_script_groups-SameCells sdk live b b₁ e₁)
          u in
      let paid = balance_transaction-Pays sdk live order b₁ b₂ ranges unbalanced e₂ in
      let same =
        SameCells-trans (process_outputs-SameCells sdk handlers cs leave b₂.outputs b₂ b₃ e₃)
          (process_inputs-SameCells sdk handlers cs leave live b₃.inputs b₃ b₄ e₄) in
      (
        subst (Pays sdk live) {x = b₄} {y = t.builder} (ground arith)
            (Pays-SameCells b₂ b₄ same paid),
        subst ChangeAboveFee {x = b₄} {y = t.builder} (ground arith)
            (handle_ckb_fee-ChangeAboveFee b₄ done e₅),
      )
    where
      Pays-SameCells : (b c : Builder) → SameCells b c → Pays sdk live b → Pays sdk live c
      Pays-SameCells b c s p = rw (s.inputs, s.outputs, s.fee) p
