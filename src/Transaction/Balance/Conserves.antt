-- ===== src/Transaction/Balance/Conserves.antt =====
-- `balanceTransaction` of transaction/transaction.go leaves a transaction whose inputs pay for its
-- outputs and its fee.
use perun_ckb_backend.Prelude.{
  ℕ, ◌+◌, ◌%◌, ◌==◌, ◌≡◌, ◌⊎◌, inl, inr, false, Option, [], ◌∷◌, ok, >>=-eq-ok, arith, Bool-cases,
  Result-cases, subst, ltb, leb, ◌||◌, ◌&&◌,
}
use perun_ckb_backend.Prelude.GoMap
use perun_ckb_backend.Prelude.GoMap.{GoMap}
use perun_ckb_backend.Prelude.Words.{u64_mod, sub64}
use perun_ckb_backend.Ckb.{OutPoint, CellInfo, Sdk}
use perun_ckb_backend.Transaction.Funds.{zero_hash, asset_amount}
use perun_ckb_backend.Transaction.Builder.{Builder, add_or_update_change_cell}
use perun_ckb_backend.Transaction.Balance.{
  Balancing, fund, fund_change_cell, add_change_for_funding, add_inputs_and_change_for_funding,
  balance_asset, balance_assets, add_change_and_adjust, add_inputs_and_change_for_ckb,
  complete_ckb_capacity, required_with_change,
}
use perun_ckb_backend.Transaction.Balance.Sums.{capacity, spent}
use perun_ckb_backend.Transaction.Balance.Inputs.{IsCounted, fund-IsCounted}
use perun_ckb_backend.Transaction.Balance.Change.{
  IsFresh, add_ckb_change-Grown, add_change_and_adjust-IsCounted,
}

module _ (sdk : Sdk) (live : OutPoint → Option CellInfo) where
  -- The hashes other than one keep having no change cell.
  abbrev KeepsFresh : ℕ → Balancing → Balancing → Type 0
  KeepsFresh hash s t = (j : ℕ) → (hash == j) ≡ false → IsFresh s.builder j → IsFresh t.builder j

  abbrev Goes : ℕ → Balancing → Balancing → Type 0
  Goes hash s t = IsCounted sdk live t × KeepsFresh hash s t

  add_change_for_funding-Goes :
      (hash requested : ℕ) (s t : Balancing)
      → (hash == zero_hash) ≡ false
      → IsFresh s.builder hash
      → IsCounted sdk live s
      → add_change_for_funding sdk hash requested s ≡ ok t
      → Goes hash s t
  unfolding add_change_for_funding
  add_change_for_funding-Goes hash requested s t nonzero fresh v h =
      elim (Bool-cases (ltb (asset_amount hash s.provided) requested)) [
        | inl e ↦ absurd (ground arith)
        | inr e ↦ elim (Bool-cases (asset_amount hash s.provided == requested)) [
          | inl f ↦ subst (Goes hash s) {x = s} (ground arith) (v, λ j _ k. k)
          | inr f ↦
              add_change_and_adjust-IsCounted sdk live hash
                (sub64 (asset_amount hash s.provided) requested) s t nonzero fresh v (ground arith)
        ]
      ]

  add_inputs_and_change-Goes :
      (hash requested : ℕ) (s t : Balancing)
      → (hash == zero_hash) ≡ false
      → IsFresh s.builder hash
      → IsCounted sdk live s
      → add_inputs_and_change_for_funding sdk hash requested s ≡ ok t
      → Goes hash s t
  unfolding add_inputs_and_change_for_funding
  add_inputs_and_change-Goes hash requested s t nonzero fresh v h =
      let have = asset_amount hash s.provided in
      elim (Bool-cases (ltb have requested || requested == 0)) [
        | inr e ↦ add_change_for_funding-Goes hash requested s t nonzero fresh v (ground arith)
        | inl e ↦ elim (Result-cases (fund sdk hash (sub64 requested have) s)) [
          | inr (_, f) ↦ absurd (ground arith)
          | inl (m, f) ↦
              let (counted, indices, _) =
                fund-IsCounted sdk live hash (sub64 requested have) s m v f in
              let (done, keeps) =
                add_change_for_funding-Goes hash requested m t nonzero (rw indices fresh) counted
                  (ground arith) in
              (done, λ j other old. keeps j other (rw indices old))
        ]
      ]

  balance_asset-Goes :
      (hash amount : ℕ) (s t : Balancing)
      → (hash ≡ zero_hash) ⊎ IsFresh s.builder hash
      → IsCounted sdk live s
      → balance_asset sdk (hash, amount) s ≡ ok t
      → Goes hash s t
  unfolding balance_asset
  balance_asset-Goes hash amount s t fresh v h =
      let have = asset_amount hash s.provided in
      let stays : s ≡ t → Goes hash s t = λ e. subst (Goes hash s) {x = s} e (v, λ j _ k. k) in
      elim (Bool-cases (hash == zero_hash)) [
        | inl e ↦ stays (ground arith)
        | inr e ↦
            let new : IsFresh s.builder hash = elim fresh [
              | inl z ↦ absurd (ground arith)
              | inr f ↦ f
            ] in
            elim (Bool-cases (have == amount && ltb 0 amount)) [
              | inl f ↦ stays (ground arith)
              | inr f ↦ elim (Bool-cases (ltb have amount)) [
                | inl g ↦
                    add_inputs_and_change-Goes hash (sub64 amount have) s t e new v (ground arith)
                | inr g ↦ elim (Bool-cases (ltb amount have)) [
                  | inl k ↦
                      add_change_and_adjust-IsCounted sdk live hash (sub64 have amount) s t e new v
                        (ground arith)
                  | inr k ↦ stays (ground arith)
                ]
              ]
            ]
      ]

  Keys-IsFresh :
      (hash : ℕ) (s t : Balancing) (es : GoMap ℕ)
      → KeepsFresh hash s t
      → GoMap.IsAbsent hash es
      → GoMap.Keys (λ k. (k ≡ zero_hash) ⊎ IsFresh s.builder k) es
      → GoMap.Keys (λ k. (k ≡ zero_hash) ⊎ IsFresh t.builder k) es
  Keys-IsFresh hash s t [] keeps a ks = tt
  Keys-IsFresh hash s t ((k, n) ∷ es) keeps a ks = (
    elim ks.0 [ inl z ↦ inl z | inr f ↦ inr (keeps k (ground arith) f) ],
    Keys-IsFresh hash s t es keeps a.1 ks.1,
  )

  -- The loop over the required amounts keeps the count.
  pub balance_assets-IsCounted :
      (es : GoMap ℕ) (s t : Balancing)
      → GoMap.Distinct es
      → GoMap.Keys (λ k. (k ≡ zero_hash) ⊎ IsFresh s.builder k) es
      → IsCounted sdk live s
      → balance_assets sdk es s ≡ ok t
      → IsCounted sdk live t
  unfolding balance_assets
  balance_assets-IsCounted [] s t d ks v h = subst (IsCounted sdk live) {x = s} (ground arith) v
  balance_assets-IsCounted ((hash, amount) ∷ es) s t d ks v h =
      let (m, e, f) = >>=-eq-ok (balance_asset sdk (hash, amount) s) _ h in
      let (counted, keeps) = balance_asset-Goes hash amount s m ks.0 v e in
      balance_assets-IsCounted es m t d.1 (Keys-IsFresh hash s m es keeps d.0 ks.1) counted f

  -- The inputs pay for the outputs and the fee, on 64 bits.
  abbrev pub Pays : Builder → Type 0
  Pays c = spent live c.inputs % u64_mod ≡ (capacity c.outputs + c.fee_shannon) % u64_mod

  -- The change cell for CKBytes takes the difference.
  add_ckb_change-Pays :
      (s : Balancing) (c : Builder)
      → IsCounted sdk live s
      → add_or_update_change_cell sdk zero_hash
          (sub64 (asset_amount zero_hash s.provided) (asset_amount zero_hash s.required))
          s.builder
        ≡ ok c
      → Pays c
  unfolding add_or_update_change_cell
  add_ckb_change-Pays s c v h =
      let grown = add_ckb_change-Grown sdk _ s.builder c v.no_change h in
      rw grown.inputs (omega (arith, grown.outputs, grown.fee, v.provided, v.required))

  fund_change_cell-IsCounted :
      (s t : Balancing)
      → IsCounted sdk live s
      → fund_change_cell sdk s ≡ ok t
      → IsCounted sdk live t
  unfolding fund_change_cell
  fund_change_cell-IsCounted s t v h =
      elim (Bool-cases (ltb (asset_amount zero_hash s.provided) (required_with_change sdk s))) [
        | inl e ↦
            (fund-IsCounted sdk live zero_hash
              (sub64 (required_with_change sdk s) (asset_amount zero_hash s.provided)) s t v
              (ground arith)).0
        | inr e ↦ subst (IsCounted sdk live) {x = s} (ground arith) v
      ]

  add_inputs_and_change_for_ckb-Pays :
      (s t : Balancing)
      → IsCounted sdk live s
      → add_inputs_and_change_for_ckb sdk s ≡ ok t
      → Pays t.builder
  unfolding add_inputs_and_change_for_ckb add_change_and_adjust
  add_inputs_and_change_for_ckb-Pays s t v h =
      let (m, e, f) = >>=-eq-ok (fund sdk zero_hash _ s) _ h in
      let (n, g, k) = >>=-eq-ok (fund_change_cell sdk m) _ f in
      let counted = fund-IsCounted sdk live zero_hash _ s m v e in
      let enough = fund_change_cell-IsCounted m n counted.0 g in
      let (c, p, q) =
        >>=-eq-ok
          (add_or_update_change_cell sdk zero_hash
            (sub64 (asset_amount zero_hash n.provided) (asset_amount zero_hash n.required))
            n.builder)
          _ k in
      subst Pays {x = c} {y = t.builder} (ground arith) (add_ckb_change-Pays n c enough p)

  pub complete_ckb_capacity-Pays :
      (s t : Balancing) → IsCounted sdk live s → complete_ckb_capacity sdk s ≡ ok t → Pays t.builder
  unfolding complete_ckb_capacity
  complete_ckb_capacity-Pays s t v h =
      elim (Bool-cases (leb (required_with_change sdk s) (asset_amount zero_hash s.provided))) [
        | inr e ↦ add_inputs_and_change_for_ckb-Pays s t v (ground arith)
        | inl e ↦
            elim (Result-cases (
              add_or_update_change_cell sdk zero_hash
                (sub64 (asset_amount zero_hash s.provided) (asset_amount zero_hash s.required))
                s.builder)) [
                  | inr (_, f) ↦ absurd (ground arith)
                  | inl (c, f) ↦
                      subst Pays {x = c} {y = t.builder} (ground arith)
                        (add_ckb_change-Pays s c v f)
                ]
      ]
