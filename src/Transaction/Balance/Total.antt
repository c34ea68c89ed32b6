-- ===== src/Transaction/Balance/Total.antt =====
-- `balanceTransaction` of transaction/transaction.go as a whole.
use perun_ckb_backend.Prelude.{
  ℕ, ◌+◌, ◌==◌, ◌≡◌, refl, sym, ap, ◌∙◌, ◌⊎◌, inl, inr, true, Option, none, some, [], ◌∷◌, ok,
  >>=-eq-ok, arith, Bool-cases, length, subst,
}
use perun_ckb_backend.Prelude.GoMap
use perun_ckb_backend.Prelude.GoMap.{GoMap}
use perun_ckb_backend.Ckb.{Script, OutPoint, CellInfo, Sdk}
use perun_ckb_backend.CellIterator.Live.{IsLive}
use perun_ckb_backend.Transaction.Funds.{
  zero_hash, AssetInformation, new_asset_information, asset_amount, add_asset_amount, equal_assets,
  equal_amounts,
}
use perun_ckb_backend.Transaction.Builder.{Builder}
use perun_ckb_backend.Transaction.Balance.{
  Balancing, balance_assets, complete_ckb_capacity, start_balancing, accumulate_outputs,
  accumulate_inputs, balance_transaction,
}
use perun_ckb_backend.Transaction.Balance.Sums.{
  Counts-new, Counts-add, Counts-outputs, Counts-inputs, IsNonzero, IsDistinct,
  add_asset_amount-known,
}
use perun_ckb_backend.Transaction.Balance.Ckb.{
  HasCkb, inputs_cases, outputs-HasCkb, add_asset_amount-HasCkb,
}
use perun_ckb_backend.Transaction.Balance.Keys.{
  IsKnown, outputs-keys, add_asset_amount-IsDistinct, add_asset_amount-KnowsKeys,
}
use perun_ckb_backend.Transaction.Balance.Inputs.{IsCounted}
use perun_ckb_backend.Transaction.Balance.Change.{IsFresh}
use perun_ckb_backend.Transaction.Balance.Conserves.{
  Pays, balance_assets-IsCounted, complete_ckb_capacity-Pays,
}

-- Go's `range` over a map visits each key once, and no other key.
pub record Ranges (order : GoMap ℕ → GoMap ℕ) : Type 1 where
  pub distinct : (m : GoMap ℕ) → GoMap.Distinct m → GoMap.Distinct (order m)
  pub keys : (P : ℕ → Type 0) (m : GoMap ℕ) → GoMap.Keys P m → GoMap.Keys P (order m)

-- A builder that was not balanced before: it has no change cells, none of its UDTs has the zero
-- hash, and its iterators yield live cells.
pub record IsUnbalanced (live : OutPoint → Option CellInfo) (b : Builder) : Type 0 where
  pub no_change : b.ckb_change_cell_index ≡ none
  pub fresh : (hash : ℕ) (s : Script) → GoMap.lookup hash b.known_udts ≡ some s → IsFresh b hash
  pub nonzero : IsNonzero b.known_udts
  pub alive : GoMap.Values (IsLive live) b.iterators

equal_amounts-lookup :
    (m : GoMap ℕ) (other : AssetInformation) (hash n : ℕ)
    → equal_amounts m other ≡ true
    → GoMap.lookup hash m ≡ some n
    → asset_amount hash other ≡ n
unfolding equal_amounts
equal_amounts-lookup [] other hash n e h = absurd (ground arith)
equal_amounts-lookup ((k, v) ∷ m) other hash n e h =
    ground (arith, equal_amounts-lookup m other hash n)

get_or-lookup :
    (m : GoMap ℕ) (hash n : ℕ) → GoMap.lookup hash m ≡ some n → GoMap.get_or 0 hash m ≡ n
get_or-lookup [] hash n h = absurd (ground arith)
get_or-lookup ((k, v) ∷ m) hash n h = ground (arith, get_or-lookup m hash n)

-- Amounts that are equal have the same CKBytes, if both count them.
equal_assets-ckb :
    (ai other : AssetInformation)
    → HasCkb ai
    → equal_assets ai other ≡ true
    → asset_amount zero_hash ai ≡ asset_amount zero_hash other
unfolding equal_assets asset_amount
equal_assets-ckb ai other (n, h) e =
    get_or-lookup ai.asset_amounts zero_hash n h
    ∙ sym (equal_amounts-lookup ai.asset_amounts other zero_hash n (ground arith) h)

-- Amounts of nothing are not equal to amounts that hold CKBytes.
equal_assets-nothing :
    (ai other : AssetInformation)
    → ai.asset_amounts ≡ []
    → HasCkb other
    → ¬ (equal_assets ai other ≡ true)
unfolding equal_assets
equal_assets-nothing ai other e (n, h) q = no_ckb other.asset_amounts h (ground arith)
  where
    no_ckb : (m : GoMap ℕ) → GoMap.lookup zero_hash m ≡ some n → ¬ ((0 == length m) ≡ true)
    no_ckb [] h q = absurd (ground arith)
    no_ckb (x ∷ m) h q = absurd (ground arith)

module _ (sdk : Sdk) (live : OutPoint → Option CellInfo) where
  abbrev required₀ : Builder → AssetInformation
  required₀ b = add_asset_amount zero_hash b.fee_shannon (new_asset_information b.known_udts)

  -- What balancing starts with.
  record IsStart (b : Builder) (s : Balancing) : Type 0 where
    counted : IsCounted sdk live s
    builder : s.builder ≡ b
    distinct : IsDistinct s.required
    keys : GoMap.Keys (IsKnown b.known_udts) s.required.asset_amounts
    paid :
        equal_assets s.provided s.required ≡ true
        → asset_amount zero_hash s.provided ≡ asset_amount zero_hash s.required

  start_balancing-IsStart :
      (b : Builder) (s : Balancing)
      → IsUnbalanced live b
      → start_balancing sdk live b ≡ ok s
      → IsStart b s
  unfolding start_balancing new_asset_information
  start_balancing-IsStart b s u h =
      let (r, e, f) =
        >>=-eq-ok (accumulate_outputs sdk b.outputs b.outputs_data (required₀ b)) _ h in
      let (p, g, k) =
        >>=-eq-ok (accumulate_inputs sdk live b.inputs (new_asset_information b.known_udts)) _ f in
      let start = add_asset_amount-HasCkb b.fee_shannon (new_asset_information b.known_udts) in
      let known =
        add_asset_amount-known zero_hash b.fee_shannon (new_asset_information b.known_udts) in
      let ckb = outputs-HasCkb sdk b.outputs b.outputs_data (required₀ b) r start e in
      let (outs, known') =
        Counts-outputs sdk b.outputs b.outputs_data (required₀ b) r (0 + b.fee_shannon)
          (rw known u.nonzero)
          (Counts-add (new_asset_information b.known_udts) 0 b.fee_shannon
            (Counts-new b.known_udts))
          e in
      let (ins, _) =
        Counts-inputs sdk live b.inputs (new_asset_information b.known_udts) p 0 u.nonzero
          (Counts-new b.known_udts) g in
      let (distinct, keys) =
        outputs-keys sdk b.outputs b.outputs_data (required₀ b) r
          (add_asset_amount-IsDistinct zero_hash b.fee_shannon (new_asset_information b.known_udts)
            tt)
          (add_asset_amount-KnowsKeys zero_hash b.fee_shannon (new_asset_information b.known_udts)
            (inl refl) tt)
          e in
      let result : Balancing = record { required = r; provided = p; builder = b } in
      subst (IsStart b) {x = result} {y = s} (cc) (record {
        counted = record {
          provided = omega (arith, ins);
          required = omega (arith, outs);
          nonzero = u.nonzero;
          alive = u.alive;
          no_change = u.no_change;
        };
        builder = refl;
        distinct = distinct;
        keys = subst (λ k. GoMap.Keys (IsKnown k) r.asset_amounts) (known' ∙ known) keys;
        paid = λ q. elim (inputs_cases sdk live b.inputs (new_asset_information b.known_udts) p g) [
          | inl same ↦
              absurd (
                equal_assets-nothing p r (ap (λ (x : AssetInformation). x.asset_amounts) same) ckb
                  q)
          | inr have ↦ equal_assets-ckb p r have q
        ];
      })

  Keys-known :
      (b : Builder) (s : Balancing)
      → IsUnbalanced live b
      → s.builder ≡ b
      → (m : GoMap ℕ) → GoMap.Keys (IsKnown b.known_udts) m
      → GoMap.Keys (λ j. (j ≡ zero_hash) ⊎ IsFresh s.builder j) m
  Keys-known b s u e [] ks = tt
  Keys-known b s u e ((j, n) ∷ m) ks = (
    elim ks.0 [ inl z ↦ inl z | inr (t, h) ↦ inr (rw e (u.fresh j t h)) ],
    Keys-known b s u e m ks.1,
  )

  -- If balancing succeeds for a builder that was not balanced before and whose iterators yield live
  -- cells, in whatever order Go ranges over the required amounts, the CKBytes of the inputs equal those
  -- of the outputs with the fee, modulo 2 ^ 64.
  pub balance_transaction-Pays :
      (order : GoMap ℕ → GoMap ℕ) (b c : Builder)
      → Ranges order
      → IsUnbalanced live b
      → balance_transaction sdk live order b ≡ ok c
      → Pays sdk live c
  unfolding balance_transaction
  balance_transaction-Pays order b c ranges u h =
      let (s, e, f) = >>=-eq-ok (start_balancing sdk live b) _ h in
      let start = start_balancing-IsStart b s u e in
      elim (Bool-cases (equal_assets s.provided s.required)) [
        | inl q ↦ subst (Pays sdk live) {x = b} {y = c} (ground arith) (
            subst (Pays sdk live) {x = s.builder} {y = b} start.builder
              (omega (arith, start.counted.provided, start.counted.required, start.paid q)))
        | inr q ↦
            let (t, g, k) =
              >>=-eq-ok (balance_assets sdk (order s.required.asset_amounts) s) _ (rw q at f) in
            let (z, m, n) = >>=-eq-ok (complete_ckb_capacity sdk t) _ k in
            let fresh : GoMap.Keys (λ j. (j ≡ zero_hash) ⊎ IsFresh s.builder j)
                s.required.asset_amounts =
              Keys-known b s u start.builder s.required.asset_amounts start.keys in
            let counted =
              balance_assets-IsCounted sdk live (order s.required.asset_amounts) s t
                (ranges.distinct s.required.asset_amounts start.distinct)
                (ranges.keys _ s.required.asset_amounts fresh) start.counted g in
            subst (Pays sdk live) {x = z.builder} {y = c} (cc)
              (complete_ckb_capacity-Pays sdk live t z counted m)
      ]
