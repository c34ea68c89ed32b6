-- ===== src/Transaction/Balance/Ends.antt =====
-- The loops over the iterators in transaction/transaction.go have enough fuel.
use perun_ckb_backend.Prelude.{
  ℕ, zero, suc, ◌<◌, ◌==◌, ◌≡◌, inl, inr, if◌then◌else◌, Bool, true, false, ◌&&◌, not, Option, none,
  some, List, [], ◌∷◌, ◌++◌, Result, ok, err, ◌>>=◌, arith, Bool-cases, Option-cases, Result-cases,
  leb, length, get_elem?,
}
use perun_ckb_backend.Prelude.GoMap
use perun_ckb_backend.Prelude.GoMap.{GoMap}
use perun_ckb_backend.Ckb.{Script, OutPoint, CellInput, CellOutput, CellInfo, TransactionInput, Sdk}
use perun_ckb_backend.CellIterator.{CellIterator, has_next, next, size}
use perun_ckb_backend.CellIterator.Live.{size-next}
use perun_ckb_backend.Encoding.Bytes.{le_uint64}
use perun_ckb_backend.Transaction.Funds.{
  TxError, zero_hash, AssetInformation, new_asset_information, asset_amount, is_udt, add_udt,
  add_values_from_output,
}
use perun_ckb_backend.Transaction.Builder.{
  Builder, Direction, input_dir, append_to_group, append_to_groups, script_groups_for_hash,
}
use perun_ckb_backend.Transaction.Balance.{
  accumulate_outputs, add_input, add_inputs, add_inputs_for_funding, accumulate_inputs,
}

-- A result that is not for want of fuel.
abbrev pub Ends : {A : Type 0} → Result TxError A → Type 0
Ends r = ¬ (r ≡ err TxError.out_of_fuel)

pub >>=-Ends :
    {A B : Type 0} (m : Result TxError A) (f : A → Result TxError B)
    → Ends m
    → ((a : A) → Ends (f a))
    → Ends (m >>= f)
>>=-Ends (ok a) f hm hf = hf a
>>=-Ends (err e) f hm hf = λ h. hm (ground arith)

pub if-Ends :
    {A : Type 0} (b : Bool) (x y : Result TxError A) → Ends x → Ends y → Ends (if b then x else y)
if-Ends true x y hx hy = hx
if-Ends false x y hx hy = hy

pub ok-Ends : {A : Type 0} (a : A) → Ends (ok a)
ok-Ends a h = ground arith

add_udt-Ends :
    (sdk : Sdk) (t : Option Script) (bytes : List ℕ) (ai : AssetInformation)
    → Ends (add_udt sdk t bytes ai)
unfolding add_udt
add_udt-Ends sdk none bytes ai h = ground arith
add_udt-Ends sdk (some t) bytes ai h = elim (Option-cases (le_uint64 bytes)) [
  | inl e ↦ ground arith
  | inr (n, e) ↦ ground arith
]

add_values-Ends :
    (sdk : Sdk) (o : CellOutput) (bytes : List ℕ) (ai : AssetInformation)
    → Ends (add_values_from_output sdk o bytes ai)
unfolding add_values_from_output
add_values-Ends sdk o bytes ai =
    if-Ends (is_udt sdk o.type_script ai) _ _ (add_udt-Ends sdk o.type_script bytes _) (ok-Ends _)

append_to_group-Ends : (d : Direction) (i g : ℕ) (b : Builder) → Ends (append_to_group d i g b)
unfolding append_to_group
append_to_group-Ends d i g b h = elim (Option-cases (get_elem? b.script_groups g)) [
  | inl e ↦ ground arith
  | inr (x, e) ↦ ground arith
]

pub append_to_groups-Ends :
    (d : Direction) (gs : Option ℕ × Option ℕ) (i : ℕ) (b : Builder)
    → Ends (append_to_groups d gs i b)
unfolding append_to_groups
append_to_groups-Ends d (none, t) i b = λ h. ground arith
append_to_groups-Ends d (some g, none) i b = append_to_group-Ends d i g b
append_to_groups-Ends d (some g, some t) i b =
    >>=-Ends (append_to_group d i g b) _ (append_to_group-Ends d i g b) (append_to_group-Ends d i t)

pub accumulate_outputs-Ends :
    (sdk : Sdk) (os : List CellOutput) (bytes : List (List ℕ)) (ai : AssetInformation)
    → Ends (accumulate_outputs sdk os bytes ai)
unfolding accumulate_outputs
accumulate_outputs-Ends sdk [] bytes ai = ok-Ends ai
accumulate_outputs-Ends sdk (o ∷ os) [] ai = λ h. ground arith
accumulate_outputs-Ends sdk (o ∷ os) (x ∷ xs) ai =
    >>=-Ends (add_values_from_output sdk o x ai) _ (add_values-Ends sdk o x ai)
      (accumulate_outputs-Ends sdk os xs)

pub accumulate_inputs-Ends :
    (sdk : Sdk) (live : OutPoint → Option CellInfo) (xs : List CellInput) (ai : AssetInformation)
    → Ends (accumulate_inputs sdk live xs ai)
unfolding accumulate_inputs
accumulate_inputs-Ends sdk live [] ai h = ground arith
accumulate_inputs-Ends sdk live (x ∷ xs) ai h = elim (Option-cases (live x.previous_output)) [
  | inl e ↦ ground arith
  | inr (cell, e) ↦
      >>=-Ends (add_values_from_output sdk cell.output cell.output_data ai) _
        (add_values-Ends sdk cell.output cell.output_data ai) (accumulate_inputs-Ends sdk live xs)
        (rw (e, accumulate_inputs) at h)
]

module _ (sdk : Sdk) where
  add_cell-Ends :
      (groups : Option ℕ × Option ℕ) (c : TransactionInput) (funded : AssetInformation)
      (b : Builder)
      → Ends {A = AssetInformation × Builder} (
          add_values_from_output sdk c.output c.output_data funded >>= λ f.
          append_to_groups input_dir groups (length b.inputs) (record b {
            inputs = b.inputs ++ record { since = 0; previous_output = c.out_point } ∷ [];
            witnesses = b.witnesses ++ [] ∷ [];
          })
          >>= λ d. ok (f, d))
  add_cell-Ends groups c funded b =
      >>=-Ends (add_values_from_output sdk c.output c.output_data funded) _
        (add_values-Ends sdk c.output c.output_data funded)
        (λ f.
          >>=-Ends (append_to_groups input_dir groups (length b.inputs) _) _
            (append_to_groups-Ends input_dir groups (length b.inputs) _) (λ d. ok-Ends (f, d)))

  add_input-Ends :
      (hash : ℕ) (cell : Option TransactionInput) (funded : AssetInformation) (b : Builder)
      → Ends (add_input sdk hash cell funded b)
  unfolding add_input
  add_input-Ends hash cell funded b h = elim (Option-cases (script_groups_for_hash sdk hash b).0) [
    | inl e ↦ ground arith
    | inr (g, e) ↦
        if-Ends
          (not (hash == zero_hash)
            && elim (script_groups_for_hash sdk hash b).1 [ none ↦ true | some _ ↦ false ])
          _ _ (λ k. ground arith) (cell_cases cell) (rw (e, add_input) at h)
  ]
    where
      cell_cases :
          (cell : Option TransactionInput)
          → Ends {A = AssetInformation × Builder}
              (elim cell as (λ k. Result TxError (AssetInformation × Builder)) [
                | none ↦ err TxError.panic
                | some c ↦ add_values_from_output sdk c.output c.output_data funded >>= λ f.
                    append_to_groups input_dir
                      (script_groups_for_hash sdk hash b)
                      (length b.inputs)
                      (record b {
                        inputs =
                            b.inputs ++ record { since = 0; previous_output = c.out_point } ∷ [];
                        witnesses = b.witnesses ++ [] ∷ [];
                      })
                    >>= λ d. ok (f, d)
              ])
      cell_cases none = λ k. ground arith
      cell_cases (some c) = add_cell-Ends (script_groups_for_hash sdk hash b) c funded b

  -- The loop over an iterator does not run out of fuel, if the fuel exceeds the cells that are left.
  pub add_inputs-Ends :
      (fuel hash amount : ℕ) (iter : CellIterator) (funded : AssetInformation) (b : Builder)
      → size iter < fuel
      → Ends (add_inputs sdk fuel hash amount iter funded b)
  unfolding add_inputs
  add_inputs-Ends zero hash amount iter funded b h = absurd (omega (arith, h))
  add_inputs-Ends (suc fuel) hash amount iter funded b h = λ k.
      elim (Bool-cases (has_next iter).0) [
        | inr e ↦ ground arith
        | inl e ↦ elim (Result-cases (add_input sdk hash (next (has_next iter).1).0 funded b)) [
          | inr (x, f) ↦ add_input-Ends hash (next (has_next iter).1).0 funded b (ground arith)
          | inl ((fs, c), f) ↦ elim (Bool-cases (leb amount (asset_amount hash fs))) [
            | inl g ↦ ground arith
            | inr g ↦
                add_inputs-Ends fuel hash amount (next (has_next iter).1).1 fs c
                  (omega (arith, h, size-next iter e)) (ground arith)
          ]
        ]
      ]

  pub add_inputs_for_funding-Ends :
      (hash amount : ℕ) (b : Builder) → Ends (add_inputs_for_funding sdk hash amount b)
  unfolding add_inputs_for_funding
  add_inputs_for_funding-Ends hash amount b h =
      elim (Option-cases (GoMap.lookup hash b.iterators)) [
        | inl e ↦ ground arith
        | inr (iter, e) ↦ elim (Bool-cases (has_next iter).0) [
          | inr f ↦ ground arith
          | inl f ↦
              elim (Result-cases (
                add_inputs sdk (suc (size (has_next iter).1)) hash amount (has_next iter).1
                  (new_asset_information b.known_udts) b)) [
                    | inl (r, g) ↦ ground arith
                    | inr (x, g) ↦
                        add_inputs-Ends (suc (size (has_next iter).1)) hash amount (has_next iter).1
                          (new_asset_information b.known_udts) b (omega arith) (ground arith)
                  ]
        ]
      ]
