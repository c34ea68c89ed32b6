-- ===== src/Transaction/Balance/Ckb.antt =====
-- CKBytes are always among the amounts of transaction/transaction.go once a cell was added.
use perun_ckb_backend.Prelude.{
  ℕ, ◌≡◌, ◌⊎◌, inl, inr, Option, if◌then◌else◌, subst, ◌==◌, some, List, [], ◌∷◌, ok, >>=-eq-ok,
  arith, Option-cases,
}
use perun_ckb_backend.Prelude.Words.{add64}
use perun_ckb_backend.Prelude.GoMap
use perun_ckb_backend.Prelude.GoMap.{GoMap}
use perun_ckb_backend.Ckb.{OutPoint, CellInput, CellInfo, CellOutput, Sdk}
use perun_ckb_backend.Transaction.Funds.{
  zero_hash, AssetInformation, add_asset_amount, add_values_from_output,
}
use perun_ckb_backend.Transaction.Balance.{accumulate_outputs, accumulate_inputs}
use perun_ckb_backend.Transaction.Balance.Keys.{add_values_cases}

-- CKBytes are counted, be it with an amount of 0.
abbrev pub HasCkb : AssetInformation → Type 0
HasCkb ai = (n : ℕ) × (GoMap.lookup zero_hash ai.asset_amounts ≡ some n)

pub add_asset_amount-HasCkb :
    (amount : ℕ) (ai : AssetInformation) → HasCkb (add_asset_amount zero_hash amount ai)
unfolding add_asset_amount
add_asset_amount-HasCkb amount ai = (
  add64 (GoMap.get_or 0 zero_hash ai.asset_amounts) amount,
  ground (
    arith,
    GoMap.lookup-insert zero_hash zero_hash
        (add64 (GoMap.get_or 0 zero_hash ai.asset_amounts) amount) ai.asset_amounts,
  ),
)

add_udt-HasCkb :
    (hash amount : ℕ) (ai : AssetInformation) → HasCkb ai → HasCkb (add_asset_amount hash amount ai)
unfolding add_asset_amount
add_udt-HasCkb hash amount ai (n, h) = (
  (if hash == zero_hash then add64 (GoMap.get_or 0 hash ai.asset_amounts) amount else n),
  ground (
    arith,
    GoMap.lookup-insert hash zero_hash (add64 (GoMap.get_or 0 hash ai.asset_amounts) amount)
        ai.asset_amounts,
  ),
)

pub add_values-HasCkb :
    (sdk : Sdk) (o : CellOutput) (bytes : List ℕ) (ai r : AssetInformation)
    → add_values_from_output sdk o bytes ai ≡ ok r
    → HasCkb r
add_values-HasCkb sdk o bytes ai r h =
    let ckb = add_asset_amount-HasCkb o.capacity ai in
    elim (add_values_cases sdk o bytes ai r h) [
      | inl e ↦ rw e ckb
      | inr (hash, amount, s, f, e) ↦ rw e (add_udt-HasCkb hash amount _ ckb)
    ]

pub outputs-HasCkb :
    (sdk : Sdk) (os : List CellOutput) (bytes : List (List ℕ)) (ai r : AssetInformation)
    → HasCkb ai
    → accumulate_outputs sdk os bytes ai ≡ ok r
    → HasCkb r
unfolding accumulate_outputs
outputs-HasCkb sdk [] bytes ai r c h = subst HasCkb {x = ai} {y = r} (ground arith) c
outputs-HasCkb sdk (o ∷ os) [] ai r c h = absurd (ground arith)
outputs-HasCkb sdk (o ∷ os) (x ∷ xs) ai r c h =
    let (m, e, f) = >>=-eq-ok (add_values_from_output sdk o x ai) _ h in
    outputs-HasCkb sdk os xs m r (add_values-HasCkb sdk o x ai m e) f

-- The inputs' amounts are those that were there, or hold CKBytes.
pub inputs_cases :
    (sdk : Sdk) (live : OutPoint → Option CellInfo) (xs : List CellInput) (ai r : AssetInformation)
    → accumulate_inputs sdk live xs ai ≡ ok r
    → (r ≡ ai) ⊎ HasCkb r
unfolding accumulate_inputs
inputs_cases sdk live [] ai r h = inl (ground arith)
inputs_cases sdk live (x ∷ xs) ai r h = elim (Option-cases (live x.previous_output)) [
  | inl e ↦ absurd (ground arith)
  | inr (cell, e) ↦
      let (m, f, g) =
        >>=-eq-ok (add_values_from_output sdk cell.output cell.output_data ai) _
          (rw (e, accumulate_inputs) at h) in
      let ckb = add_values-HasCkb sdk cell.output cell.output_data ai m f in
      elim (inputs_cases sdk live xs m r g) [ inl same ↦ inr (rw same ckb) | inr more ↦ inr more ]
]
