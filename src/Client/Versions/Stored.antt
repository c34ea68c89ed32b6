-- ===== src/Client/Versions/Stored.antt =====
-- What the rows of a packed state hold, read back as `updateState` of client/ckbclient.go reads them.
use perun_ckb_backend.Prelude.{
  ℕ, zero, suc, ◌<◌, ◌≡◌, ◌↔◌, sym, ap, ◌∙◌, inl, inr, true, false, some, List, [], ◌∷◌, get_elem?,
  ℤ, pos, ok, >>=-eq-ok, ◌>>=◌, arith, Result-cases,
}
use perun_ckb_backend.Prelude.Words.{u128_mod}
use perun_ckb_backend.Ckb.{Sdk}
use perun_ckb_backend.Asset.{Asset, PAsset, plain, is_compatible_asset, is_invalid, is_sudt_asset}
use perun_ckb_backend.Perun.{State, GoPerun}
use perun_ckb_backend.Encoding.State.{
  AnyBalances, SudtBalances, pack_sudt_balances, pack_ckbyte_distribution, pack_any_balances,
  pack_allocation,
}
use perun_ckb_backend.Encoding.Bytes.{pack_uint128, to_uint128}
use perun_ckb_backend.Encoding.State.Commitment.{to_uint128-eq_ok, pack_ckbyte_distribution-eq_ok}

module _ (sdk : Sdk) (perun : GoPerun) (load : List ℕ → ℕ) where
  -- `uint128.LoadLittleEndian` reads what `uint128.StoreLittleEndian` wrote.
  abbrev pub LoadsUint128 : Type 0
  LoadsUint128 = (n : ℕ) → n < u128_mod → load (sdk.store_little_endian n) ≡ n

  -- Each asset of this backend is CKBytes at the index that go-perun finds for them, or a valid SUDT.
  abbrev pub OneCkbytes : ℕ → List PAsset → Type 0
  OneCkbytes k ps =
      (i : ℕ) (p : PAsset) (a : Asset)
      → get_elem? ps i ≡ some p
      → is_compatible_asset p ≡ some a
      → (is_invalid a ≡ false) × ((a.is_ckbytes ≡ true) ↔ (i ≡ k))

  -- The row of an asset in a list of packed rows.
  pub allocation-at :
      (s : State) (ps : List PAsset) (rows : List AnyBalances) (i : ℕ) (p : PAsset)
      → pack_allocation sdk perun s ps ≡ ok rows
      → get_elem? ps i ≡ some p
      → (row : AnyBalances) × (get_elem? rows i ≡ some row)
        × (pack_any_balances sdk perun s p ≡ ok row)
  unfolding pack_allocation
  allocation-at s [] rows i p h e = absurd (ground arith)
  allocation-at s (q ∷ ps) rows zero p h e =
      let (row, f, g) = >>=-eq-ok (pack_any_balances sdk perun s q) _ h in
      let (rest, m, n) = >>=-eq-ok (pack_allocation sdk perun s ps) _ g in
      (row, ground arith, ground arith)
  allocation-at s (q ∷ ps) rows (suc i) p h e =
      let (row, f, g) = >>=-eq-ok (pack_any_balances sdk perun s q) _ h in
      let (rest, m, n) = >>=-eq-ok (pack_allocation sdk perun s ps) _ g in
      let (r, o, k) = allocation-at s ps rest i p m e in (r, ground arith, k)

  pack_uint128-loaded :
      LoadsUint128 → (x : ℤ) (bs : List ℕ) → pack_uint128 sdk x ≡ ok bs → pos (load bs) ≡ x
  unfolding pack_uint128
  pack_uint128-loaded loads x bs h = elim (Result-cases (to_uint128 x)) [
    | inr (e, f) ↦ absurd (ground arith)
    | inl (n, f) ↦
        let (same, small) = to_uint128-eq_ok x f in
        ap (λ b. pos (load b)) {x = bs} {y = sdk.store_little_endian n} (ground arith)
        ∙ ap pos (loads n small)
        ∙ sym same
  ]

  sudt_loaded :
      LoadsUint128
      → (a : Asset) (m n : ℤ) (x : SudtBalances) → pack_sudt_balances sdk a m n ≡ ok x
      → (pos (load x.nth0) ≡ m) × (pos (load x.nth1) ≡ n)
  unfolding pack_sudt_balances
  sudt_loaded loads a m n x h = elim (Result-cases (is_sudt_asset (plain a))) [
    | inr (e, f) ↦ absurd (ground arith)
    | inl (s, f) ↦ elim (Result-cases (pack_uint128 sdk m)) [
      | inr (e, g) ↦ absurd (ground arith)
      | inl (bs, g) ↦ elim (Result-cases (pack_uint128 sdk n)) [
        | inr (e, q) ↦ absurd (ground arith)
        | inl (cs, q) ↦ (
          pack_uint128-loaded loads m x.nth0 (ground arith),
          pack_uint128-loaded loads n x.nth1 (ground arith),
        )
      ]
    ]
  ]

  pub sudt_packed :
      LoadsUint128
      → (s : State) (p : PAsset) (a : Asset) (row : AnyBalances) → is_compatible_asset p ≡ some a
      → is_invalid a ≡ false
      → a.is_ckbytes ≡ false
      → pack_any_balances sdk perun s p ≡ ok row
      → (x : SudtBalances) × (row ≡ AnyBalances.sudt_balances x)
        × (pos (load x.nth0) ≡ perun.balance s 0 (plain a))
        × (pos (load x.nth1) ≡ perun.balance s 1 (plain a))
  unfolding pack_any_balances
  sudt_packed loads s p a row e v k h =
      let packed : pack_sudt_balances sdk a (perun.balance s 0 (plain a))
              (perun.balance s 1 (plain a))
            >>= (λ d. ok (AnyBalances.sudt_balances d))
          ≡ ok row =
        ground arith in
      let (x, f, g) = >>=-eq-ok (pack_sudt_balances sdk a _ _) _ packed in
      let (m, n) = sudt_loaded loads a _ _ x f in (x, ground arith, m, n)

  pub ckbytes_packed :
      (s : State) (p : PAsset) (a : Asset) (row : AnyBalances)
      → is_compatible_asset p ≡ some a
      → is_invalid a ≡ false
      → a.is_ckbytes ≡ true
      → pack_any_balances sdk perun s p ≡ ok row
      → (m n : ℕ) × (row ≡ AnyBalances.ckbyte_distribution m n)
        × (perun.balance s 0 (plain a) ≡ pos m)
        × (perun.balance s 1 (plain a) ≡ pos n)
  unfolding pack_any_balances
  ckbytes_packed s p a row e v k h =
      let packed : pack_ckbyte_distribution (perun.balance s 0 (plain a))
              (perun.balance s 1 (plain a))
            >>= (λ d. ok (AnyBalances.ckbyte_distribution d.0 d.1))
          ≡ ok row =
        ground arith in
      let (d, f, g) = >>=-eq-ok (pack_ckbyte_distribution _ _) _ packed in
      let r = pack_ckbyte_distribution-eq_ok _ _ f in (d.0, d.1, ground arith, r.0, r.1)
