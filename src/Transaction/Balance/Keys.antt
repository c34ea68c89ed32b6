-- ===== src/Transaction/Balance/Keys.antt =====
-- The hashes under which transaction/transaction.go counts amounts.
use perun_ckb_backend.Prelude.{
  ℕ, ◌≡◌, refl, ◌⊎◌, inl, inr, some, List, [], ◌∷◌, ok, >>=-eq-ok, arith, Option-cases,
}
use perun_ckb_backend.Prelude.GoMap
use perun_ckb_backend.Prelude.GoMap.{GoMap}
use perun_ckb_backend.Ckb.{Script, CellOutput, Sdk}
use perun_ckb_backend.Encoding.Bytes.{le_uint64}
use perun_ckb_backend.Transaction.Funds.{
  zero_hash, AssetInformation, add_asset_amount, add_values_from_output, is_udt, add_udt,
}
use perun_ckb_backend.Transaction.Balance.{accumulate_outputs}
use perun_ckb_backend.Transaction.Balance.Sums.{IsDistinct}

pub add_asset_amount-IsDistinct :
    (hash amount : ℕ) (ai : AssetInformation)
    → IsDistinct ai
    → IsDistinct (add_asset_amount hash amount ai)
unfolding add_asset_amount
add_asset_amount-IsDistinct hash amount ai d = GoMap.insert-Distinct hash _ ai.asset_amounts d

-- The hashes of the amounts: that of CKBytes, and known UDTs.
abbrev pub IsKnown : GoMap Script → ℕ → Type 0
IsKnown known hash = (hash ≡ zero_hash) ⊎ ((s : Script) × (GoMap.lookup hash known ≡ some s))

abbrev pub KnowsKeys : AssetInformation → Type 0
KnowsKeys ai = GoMap.Keys (IsKnown ai.known_udts) ai.asset_amounts

pub add_asset_amount-KnowsKeys :
    (hash amount : ℕ) (ai : AssetInformation)
    → IsKnown ai.known_udts hash
    → KnowsKeys ai
    → KnowsKeys (add_asset_amount hash amount ai)
unfolding add_asset_amount
add_asset_amount-KnowsKeys hash amount ai p ks =
    GoMap.insert-Keys (IsKnown ai.known_udts) hash _ ai.asset_amounts p ks

-- A cell adds its capacity, and an amount under a known UDT's hash or none.
pub add_values_cases :
    (sdk : Sdk) (o : CellOutput) (bytes : List ℕ) (ai r : AssetInformation)
    → add_values_from_output sdk o bytes ai ≡ ok r
    → let ckb = add_asset_amount zero_hash o.capacity ai in
      (r ≡ ckb)
      ⊎ ((hash : ℕ) × (amount : ℕ) × (s : Script) × (GoMap.lookup hash ai.known_udts ≡ some s)
          × (r ≡ add_asset_amount hash amount ckb))
unfolding add_values_from_output is_udt add_udt
add_values_cases sdk o bytes ai r h = elim (Option-cases o.type_script) [
  | inl e ↦ inl (ground arith)
  | inr (t, e) ↦ elim (Option-cases (GoMap.lookup (sdk.script_hash t) ai.known_udts)) [
    | inl f ↦ inl (ground arith)
    | inr (s, f) ↦ elim (Option-cases (le_uint64 bytes)) [
      | inl g ↦ absurd (ground arith)
      | inr (n, g) ↦ inr (sdk.script_hash t, n, s, f, ground arith)
    ]
  ]
]

pub add_values-IsDistinct :
    (sdk : Sdk) (o : CellOutput) (bytes : List ℕ) (ai r : AssetInformation)
    → add_values_from_output sdk o bytes ai ≡ ok r
    → IsDistinct ai
    → IsDistinct r
add_values-IsDistinct sdk o bytes ai r h d =
    let ckb = add_asset_amount zero_hash o.capacity ai in
    let distinct = add_asset_amount-IsDistinct zero_hash o.capacity ai d in
    elim (add_values_cases sdk o bytes ai r h) [
      | inl e ↦ rw e distinct
      | inr (hash, amount, s, f, e) ↦ rw e (add_asset_amount-IsDistinct hash amount ckb distinct)
    ]

-- Adding a cell keeps the hashes distinct and known.
pub add_values-keys :
    (sdk : Sdk) (o : CellOutput) (bytes : List ℕ) (ai r : AssetInformation)
    → IsDistinct ai
    → KnowsKeys ai
    → add_values_from_output sdk o bytes ai ≡ ok r
    → IsDistinct r × KnowsKeys r
unfolding add_asset_amount
add_values-keys sdk o bytes ai r d ks h =
    let ckb = add_asset_amount zero_hash o.capacity ai in
    let distinct = add_asset_amount-IsDistinct zero_hash o.capacity ai d in
    let keys = add_asset_amount-KnowsKeys zero_hash o.capacity ai (inl refl) ks in
    elim (add_values_cases sdk o bytes ai r h) [
      | inl e ↦ rw e (distinct, keys)
      | inr (hash, amount, s, f, e) ↦ rw e (
        add_asset_amount-IsDistinct hash amount ckb distinct,
        add_asset_amount-KnowsKeys hash amount ckb (inr (s, f)) keys,
      )
    ]

pub outputs-keys :
    (sdk : Sdk) (os : List CellOutput) (bytes : List (List ℕ)) (ai r : AssetInformation)
    → IsDistinct ai
    → KnowsKeys ai
    → accumulate_outputs sdk os bytes ai ≡ ok r
    → IsDistinct r × KnowsKeys r
unfolding accumulate_outputs
outputs-keys sdk [] bytes ai r d ks h = ground arith
outputs-keys sdk (o ∷ os) [] ai r d ks h = ground arith
outputs-keys sdk (o ∷ os) (x ∷ xs) ai r d ks h =
    let (m, e, f) = >>=-eq-ok (add_values_from_output sdk o x ai) _ h in
    let (dm, km) = add_values-keys sdk o x ai m d ks e in outputs-keys sdk os xs m r dm km f
