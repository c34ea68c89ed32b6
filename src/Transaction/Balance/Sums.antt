-- ===== src/Transaction/Balance/Sums.antt =====
-- The CKBytes of cells, and how the amounts of transaction/transaction.go add them up.
use perun_ckb_backend.Prelude.{
  ℕ, ◌+◌, ◌%◌, ◌==◌, ◌≡◌, refl, sym, ◌∙◌, inl, inr, if◌then◌else◌, Option, none, some, List, [],
  ◌∷◌, ◌++◌, ok, >>=-eq-ok, arith, Bool-cases, Option-cases, ==_iff, subst,
}
use perun_ckb_backend.Prelude.GoMap
use perun_ckb_backend.Prelude.GoMap.{GoMap}
use perun_ckb_backend.Prelude.Words.{add64, u64_mod}
use perun_ckb_backend.Ckb.{Script, OutPoint, CellInput, CellOutput, CellInfo, Sdk}
use perun_ckb_backend.Encoding.Bytes.{le_uint64}
use perun_ckb_backend.Transaction.Funds.{
  zero_hash, AssetInformation, new_asset_information, asset_amount, add_asset_amount, merge_with,
  merge_amounts, add_values_from_output, is_udt, add_udt,
}
use perun_ckb_backend.Transaction.Balance.{accumulate_outputs, accumulate_inputs}

-- The capacity of some cells together.
pub capacity : List CellOutput → ℕ
capacity [] = 0
capacity (o ∷ os) = o.capacity + capacity os

pub capacity-append :
    (os : List CellOutput) (o : CellOutput) → capacity (os ++ o ∷ []) ≡ capacity os + o.capacity
unfolding capacity
capacity-append [] o = omega arith
capacity-append (x ∷ os) o = omega (arith, capacity-append os o)

-- The capacity of the live cells that some inputs spend.
module _ (get_live_cell : OutPoint → Option CellInfo) where
  abbrev live_capacity : OutPoint → ℕ
  live_capacity p = elim (get_live_cell p) [ none ↦ 0 | some cell ↦ cell.output.capacity ]

  pub spent : List CellInput → ℕ
  spent [] = 0
  spent (x ∷ xs) = live_capacity x.previous_output + spent xs

  pub spent-append :
      (xs : List CellInput) (x : CellInput) (cell : CellInfo)
      → get_live_cell x.previous_output ≡ some cell
      → spent (xs ++ x ∷ []) ≡ spent xs + cell.output.capacity
  unfolding spent
  spent-append [] x cell h = ground arith
  spent-append (y ∷ xs) x cell h = omega (arith, spent-append xs x cell h)

pub asset_amount-add_asset_amount :
    (hash j amount : ℕ) (ai : AssetInformation)
    → asset_amount j (add_asset_amount hash amount ai)
      ≡ (if hash == j then add64 (asset_amount j ai) amount else asset_amount j ai)
unfolding asset_amount add_asset_amount
asset_amount-add_asset_amount hash j amount ai = ground (
  arith,
  GoMap.get_or-insert 0 hash j (add64 (GoMap.get_or 0 hash ai.asset_amounts) amount)
      ai.asset_amounts,
)

pub add_asset_amount-known :
    (hash amount : ℕ) (ai : AssetInformation)
    → (add_asset_amount hash amount ai).known_udts ≡ ai.known_udts
unfolding add_asset_amount
add_asset_amount-known hash amount ai = refl

-- No known UDT has the zero hash, which stands for CKBytes.
abbrev pub IsNonzero : GoMap Script → Type 0
IsNonzero known = GoMap.lookup zero_hash known ≡ none

-- What a cell adds to the CKBytes is its capacity.
pub add_values-ckb :
    (sdk : Sdk) (o : CellOutput) (bytes : List ℕ) (ai r : AssetInformation)
    → IsNonzero ai.known_udts
    → add_values_from_output sdk o bytes ai ≡ ok r
    → (asset_amount zero_hash r ≡ add64 (asset_amount zero_hash ai) o.capacity)
      × (r.known_udts ≡ ai.known_udts)
unfolding add_values_from_output is_udt add_udt
add_values-ckb sdk o bytes ai r nonzero h = elim (Option-cases o.type_script) [
  | inl e ↦ ground (
    arith,
    asset_amount-add_asset_amount zero_hash zero_hash o.capacity ai,
    add_asset_amount-known zero_hash o.capacity ai,
  )
  | inr (t, e) ↦ elim (Option-cases (le_uint64 bytes)) [
    | inl f ↦ ground (
      arith,
      asset_amount-add_asset_amount zero_hash zero_hash o.capacity ai,
      add_asset_amount-known zero_hash o.capacity ai,
    )
    | inr (n, f) ↦ ground (
      arith,
      asset_amount-add_asset_amount zero_hash zero_hash o.capacity ai,
      add_asset_amount-known zero_hash o.capacity ai,
      asset_amount-add_asset_amount (sdk.script_hash t) zero_hash n
          (add_asset_amount zero_hash o.capacity ai),
      add_asset_amount-known (sdk.script_hash t) n (add_asset_amount zero_hash o.capacity ai),
    )
  ]
]

-- The CKBytes of an amount, which fit into 64 bits, are a number of shannons modulo 2 ^ 64.
abbrev pub Counts : AssetInformation → ℕ → Type 0
Counts ai n = asset_amount zero_hash ai ≡ n % u64_mod

pub Counts-new : (known : GoMap Script) → Counts (new_asset_information known) 0
unfolding asset_amount new_asset_information
Counts-new known = refl

pub Counts-add :
    (ai : AssetInformation) (n amount : ℕ)
    → Counts ai n
    → Counts (add_asset_amount zero_hash amount ai) (n + amount)
Counts-add ai n amount h =
    ground (arith, asset_amount-add_asset_amount zero_hash zero_hash amount ai)

pub Counts-add_values :
    (sdk : Sdk) (o : CellOutput) (bytes : List ℕ) (ai r : AssetInformation) (n : ℕ)
    → IsNonzero ai.known_udts
    → Counts ai n
    → add_values_from_output sdk o bytes ai ≡ ok r
    → Counts r (n + o.capacity) × (r.known_udts ≡ ai.known_udts)
Counts-add_values sdk o bytes ai r n nonzero c h =
    let (e, k) = add_values-ckb sdk o bytes ai r nonzero h in (omega arith, k)

pub Counts-add_values_known :
    (sdk : Sdk) (o : CellOutput) (bytes : List ℕ) (ai r : AssetInformation)
    → IsNonzero ai.known_udts
    → add_values_from_output sdk o bytes ai ≡ ok r
    → r.known_udts ≡ ai.known_udts
Counts-add_values_known sdk o bytes ai r nonzero h = (add_values-ckb sdk o bytes ai r nonzero h).1

-- The outputs are counted.
pub Counts-outputs :
    (sdk : Sdk) (os : List CellOutput) (bytes : List (List ℕ)) (ai r : AssetInformation) (n : ℕ)
    → IsNonzero ai.known_udts
    → Counts ai n
    → accumulate_outputs sdk os bytes ai ≡ ok r
    → Counts r (n + capacity os) × (r.known_udts ≡ ai.known_udts)
unfolding accumulate_outputs capacity
Counts-outputs sdk [] bytes ai r n nonzero c h = ground arith
Counts-outputs sdk (o ∷ os) [] ai r n nonzero c h = ground arith
Counts-outputs sdk (o ∷ os) (d ∷ ds) ai r n nonzero c h =
    let (m, e, f) = >>=-eq-ok (add_values_from_output sdk o d ai) _ h in
    let (count, known) = Counts-add_values sdk o d ai m n nonzero c e in
    let (counts, knowns) =
      Counts-outputs sdk os ds m r (n + o.capacity) (rw known nonzero) count f in
    (omega arith, knowns ∙ known)

-- The cells of the inputs are counted.
pub Counts-inputs :
    (sdk : Sdk) (live : OutPoint → Option CellInfo) (xs : List CellInput) (ai r : AssetInformation)
    (n : ℕ)
    → IsNonzero ai.known_udts
    → Counts ai n
    → accumulate_inputs sdk live xs ai ≡ ok r
    → Counts r (n + spent live xs) × (r.known_udts ≡ ai.known_udts)
unfolding accumulate_inputs spent
Counts-inputs sdk live [] ai r n nonzero c h = ground arith
Counts-inputs sdk live (x ∷ xs) ai r n nonzero c h = elim (Option-cases (live x.previous_output)) [
  | inl e ↦ ground arith
  | inr (cell, e) ↦
      let (m, f, g) =
        >>=-eq-ok (add_values_from_output sdk cell.output cell.output_data ai) _
          (rw (e, accumulate_inputs) at h) in
      let (count, known) = Counts-add_values sdk cell.output cell.output_data ai m n nonzero c f in
      let (counts, knowns) =
        Counts-inputs sdk live xs m r (n + cell.output.capacity) (rw known nonzero) count g in
      (ground (arith, counts), knowns ∙ known)
]

-- Merging adds the amounts, where each hash stands once in the other.
Counts-merge_amounts :
    (m : GoMap ℕ) (ai : AssetInformation) (n : ℕ)
    → GoMap.Distinct m
    → Counts ai n
    → Counts (merge_amounts m ai) (n + GoMap.get_or 0 zero_hash m)
      × ((merge_amounts m ai).known_udts ≡ ai.known_udts)
unfolding merge_amounts
Counts-merge_amounts [] ai n d c = (omega arith, refl)
Counts-merge_amounts ((hash, amount) ∷ m) ai n d c = elim (Bool-cases (hash == zero_hash)) [
  | inl e ↦
      let z = (==_iff hash zero_hash).0 e in
      let count : Counts (add_asset_amount hash amount ai) (n + amount) =
        subst (λ k. Counts (add_asset_amount k amount ai) (n + amount)) (sym z)
          (Counts-add ai n amount c) in
      let none_left : GoMap.get_or 0 zero_hash m ≡ 0 =
        subst (λ k. GoMap.get_or 0 k m ≡ 0) z (GoMap.get_or-IsAbsent 0 hash m d.0) in
      let (counts, known) =
        Counts-merge_amounts m (add_asset_amount hash amount ai) (n + amount) d.1 count in
      rw e (omega arith, known ∙ add_asset_amount-known hash amount ai)
  | inr e ↦
      let count : Counts (add_asset_amount hash amount ai) n =
        ground (arith, asset_amount-add_asset_amount hash zero_hash amount ai) in
      let (counts, known) = Counts-merge_amounts m (add_asset_amount hash amount ai) n d.1 count in
      rw e (omega arith, known ∙ add_asset_amount-known hash amount ai)
]

-- Each hash stands once among the amounts.
abbrev pub IsDistinct : AssetInformation → Type 0
IsDistinct ai = GoMap.Distinct ai.asset_amounts

pub Counts-merge_with :
    (ai other : AssetInformation) (n k : ℕ)
    → IsDistinct other
    → Counts ai n
    → Counts other k
    → Counts (merge_with ai other) (n + k) × ((merge_with ai other).known_udts ≡ ai.known_udts)
unfolding merge_with asset_amount
Counts-merge_with ai other n k d c o =
    let (counts, known) = Counts-merge_amounts other.asset_amounts ai n d c in (omega arith, known)
