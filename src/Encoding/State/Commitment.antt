-- ===== src/Encoding/State/Commitment.antt =====
-- A packed state of encoding/channel_state.go commits to the version, the final flag and the
-- balances of both parties.
use perun_ckb_backend.Prelude.{
  ℕ, ◌<◌, ◌≡◌, sym, subst, ◌∙◌, inl, inr, List, [], ◌∷◌, ℤ, pos, negsuc, ok, >>=-eq-ok, All, arith,
  Bool-cases, Result-cases,
}
use perun_ckb_backend.Prelude.Words.{u64_mod, u128_mod}
use perun_ckb_backend.Ckb.{Sdk}
use perun_ckb_backend.Asset.{
  Asset, PAsset, nervos, plain, foreign, is_compatible_asset, is_sudt_asset,
}
use perun_ckb_backend.Perun.{State, GoPerun}
use perun_ckb_backend.Encoding.Bytes.{pack_uint128, to_uint128}
use perun_ckb_backend.Encoding.State.{
  AnyBalances, SudtBalances, PackedState, pack_ckbyte_distribution, pack_distribution,
  pack_eth_balances, pack_eth_asset, pack_sudt_balances, pack_ckb_asset, pack_any_balances,
  pack_allocation, pack_balances, pack_locked, pack_channel_state,
}

-- Two numbers below 2 ^ 128 have different little-endian forms in the SDK.
abbrev pub StoresUint128 : Sdk → Type 0
StoresUint128 sdk =
    (m n : ℕ)
    → m < u128_mod
    → n < u128_mod
    → sdk.store_little_endian m ≡ sdk.store_little_endian n
    → m ≡ n

pub to_uint128-eq_ok : (x : ℤ) {n : ℕ} → to_uint128 x ≡ ok n → (x ≡ pos n) × (n < u128_mod)
unfolding to_uint128
to_uint128-eq_ok (pos m) h = ground arith
to_uint128-eq_ok (negsuc m) h = ground arith

pub pack_ckbyte_distribution-eq_ok :
    (a b : ℤ) {d : ℕ × ℕ}
    → pack_ckbyte_distribution a b ≡ ok d
    → (a ≡ pos d.0) × (b ≡ pos d.1) × (d.0 < u64_mod) × (d.1 < u64_mod)
unfolding pack_ckbyte_distribution
pack_ckbyte_distribution-eq_ok (pos x) (pos y) h = ground arith
pack_ckbyte_distribution-eq_ok (pos x) (negsuc y) h = ground arith
pack_ckbyte_distribution-eq_ok (negsuc x) b h = ground arith

pack_ckbyte_distribution-injective :
    (a b c d : ℤ) (r : ℕ × ℕ)
    → pack_ckbyte_distribution a b ≡ ok r
    → pack_ckbyte_distribution c d ≡ ok r
    → (a ≡ c) × (b ≡ d)
pack_ckbyte_distribution-injective a b c d r h k =
    ground (arith, pack_ckbyte_distribution-eq_ok a b h, pack_ckbyte_distribution-eq_ok c d k)

module _ (sdk : Sdk) (stores : StoresUint128 sdk) where
  pack_uint128-injective :
      (x y : ℤ) (bs : List ℕ) → pack_uint128 sdk x ≡ ok bs → pack_uint128 sdk y ≡ ok bs → x ≡ y
  unfolding pack_uint128
  pack_uint128-injective x y bs h k = elim (Result-cases (to_uint128 x)) [
    | inr (e, f) ↦ ground arith
    | inl (m, f) ↦ elim (Result-cases (to_uint128 y)) [
      | inr (e, g) ↦ ground arith
      | inl (n, g) ↦ ground (arith, to_uint128-eq_ok x f, to_uint128-eq_ok y g, stores m n)
    ]
  ]

  pack_distribution-injective :
      (a b c d : ℤ) (r : List ℕ × List ℕ)
      → pack_distribution sdk a b ≡ ok r
      → pack_distribution sdk c d ≡ ok r
      → (a ≡ c) × (b ≡ d)
  unfolding pack_distribution
  pack_distribution-injective a b c d r h k = elim (Result-cases (pack_uint128 sdk a)) [
    | inr (e, p) ↦ ground arith
    | inl (w, p) ↦ elim (Result-cases (pack_uint128 sdk b)) [
      | inr (e, q) ↦ ground arith
      | inl (x, q) ↦ elim (Result-cases (pack_uint128 sdk c)) [
        | inr (e, u) ↦ ground arith
        | inl (y, u) ↦ elim (Result-cases (pack_uint128 sdk d)) [
          | inr (e, v) ↦ ground arith
          | inl (z, v) ↦
              ground (arith, pack_uint128-injective a c w p, pack_uint128-injective b d x q)
        ]
      ]
    ]
  ]

  pack_sudt_balances-injective :
      (s : Asset) (a b c d : ℤ) (r : SudtBalances)
      → pack_sudt_balances sdk s a b ≡ ok r
      → pack_sudt_balances sdk s c d ≡ ok r
      → (a ≡ c) × (b ≡ d)
  unfolding pack_sudt_balances
  pack_sudt_balances-injective s a b c d r h k = elim (Result-cases (is_sudt_asset (plain s))) [
    | inr (e, f) ↦ ground arith
    | inl (t, f) ↦ elim (Result-cases (pack_distribution sdk a b)) [
      | inr (e, p) ↦ ground arith
      | inl (w, p) ↦ elim (Result-cases (pack_distribution sdk c d)) [
        | inr (e, q) ↦ ground arith
        | inl (z, q) ↦ ground (arith, pack_distribution-injective a b c d w p)
      ]
    ]
  ]

  pack_eth_balances-injective :
      (p : PAsset) (a b c d : ℤ) (r : AnyBalances)
      → pack_eth_balances sdk a b p ≡ ok r
      → pack_eth_balances sdk c d p ≡ ok r
      → (a ≡ c) × (b ≡ d)
  unfolding pack_eth_balances
  pack_eth_balances-injective p a b c d r h k = elim (Result-cases (pack_eth_asset p)) [
    | inr (e, f) ↦ ground arith
    | inl (t, f) ↦ elim (Result-cases (pack_distribution sdk a b)) [
      | inr (e, p) ↦ ground arith
      | inl (w, p) ↦ elim (Result-cases (pack_distribution sdk c d)) [
        | inr (e, q) ↦ ground arith
        | inl (z, q) ↦ ground (arith, pack_distribution-injective a b c d w p)
      ]
    ]
  ]

  pack_ckb_asset-injective :
      (s : Asset) (a b c d : ℤ) (r : AnyBalances)
      → pack_ckb_asset sdk s a b ≡ ok r
      → pack_ckb_asset sdk s c d ≡ ok r
      → (a ≡ c) × (b ≡ d)
  unfolding pack_ckb_asset
  pack_ckb_asset-injective s a b c d r h k = elim (Bool-cases s.is_ckbytes) [
    | inl e ↦ elim (Result-cases (pack_ckbyte_distribution a b)) [
      | inr (_, p) ↦ ground arith
      | inl (w, p) ↦ elim (Result-cases (pack_ckbyte_distribution c d)) [
        | inr (_, q) ↦ ground arith
        | inl (z, q) ↦ ground (arith, pack_ckbyte_distribution-injective a b c d w p)
      ]
    ]
    | inr e ↦ elim (Result-cases (pack_sudt_balances sdk s a b)) [
      | inr (_, p) ↦ ground arith
      | inl (w, p) ↦ elim (Result-cases (pack_sudt_balances sdk s c d)) [
        | inr (_, q) ↦ ground arith
        | inl (z, q) ↦ ground (arith, pack_sudt_balances-injective s a b c d w p)
      ]
    ]
  ]

  module _ (perun : GoPerun) where
    -- The asset under which `PackBalances` asks for a balance.
    abbrev pub balance_key : PAsset → PAsset
    balance_key (nervos a) = plain a.asset
    balance_key (plain a) = plain a
    balance_key (foreign a) = foreign a

    -- Two states give both parties the same balance of an asset.
    abbrev pub SameBalances : State → State → PAsset → Type 0
    SameBalances s t p =
        (perun.balance s 0 (balance_key p) ≡ perun.balance t 0 (balance_key p))
        × (perun.balance s 1 (balance_key p) ≡ perun.balance t 1 (balance_key p))

    pack_any_balances-injective :
        (s t : State) (p : PAsset) (r : AnyBalances)
        → pack_any_balances sdk perun s p ≡ ok r
        → pack_any_balances sdk perun t p ≡ ok r
        → SameBalances s t p
    unfolding pack_any_balances is_compatible_asset
    pack_any_balances-injective s t (nervos a) r h k =
        pack_ckb_asset-injective a.asset _ _ _ _ r h k
    pack_any_balances-injective s t (plain a) r h k = pack_ckb_asset-injective a _ _ _ _ r h k
    pack_any_balances-injective s t (foreign a) r h k =
        pack_eth_balances-injective (foreign a) _ _ _ _ r h k

    pack_allocation-injective :
        (s t : State) (ps : List PAsset) (r : List AnyBalances)
        → pack_allocation sdk perun s ps ≡ ok r
        → pack_allocation sdk perun t ps ≡ ok r
        → All (SameBalances s t) ps
    unfolding pack_allocation
    pack_allocation-injective s t [] r h k = tt
    pack_allocation-injective s t (p ∷ ps) r h k =
        let (a, fa, ha) = >>=-eq-ok (pack_any_balances sdk perun s p) _ h in
        let (as', fas, has) = >>=-eq-ok (pack_allocation sdk perun s ps) _ ha in
        let (b, fb, hb) = >>=-eq-ok (pack_any_balances sdk perun t p) _ k in
        let (bs, fbs, hbs) = >>=-eq-ok (pack_allocation sdk perun t ps) _ hb in
        (pack_any_balances-injective s t p a fa (cc), pack_allocation-injective s t ps as' fas (cc))

    pub pack_channel_state-eq_ok :
        (s : State) (r : PackedState)
        → pack_channel_state sdk perun s ≡ ok r
        → (s.id ≡ r.channel_id)
          × (s.version ≡ r.version)
          × (s.is_final ≡ r.is_final)
          × (pack_allocation sdk perun s s.assets ≡ ok r.allocation)
          × (pack_locked sdk s.locked s.assets ≡ ok r.locked)
    unfolding pack_channel_state pack_balances
    pack_channel_state-eq_ok s r h = elim (Result-cases (pack_allocation sdk perun s s.assets)) [
      | inr (_, e) ↦ ground arith
      | inl (x, e) ↦ elim (Result-cases (pack_locked sdk s.locked s.assets)) [
        | inr (_, f) ↦ ground arith
        | inl (m, f) ↦ ground arith
      ]
    ]

    -- If the SDK stores different 128-bit numbers differently, two states over the same assets that
    -- are packed into the same `ChannelState` have the same id, version and final flag, and give both
    -- parties the same balance of every asset.
    pub pack_channel_state-injective :
        (s t : State) (r : PackedState)
        → s.assets ≡ t.assets
        → pack_channel_state sdk perun s ≡ ok r
        → pack_channel_state sdk perun t ≡ ok r
        → (s.id ≡ t.id)
          × (s.version ≡ t.version)
          × (s.is_final ≡ t.is_final)
          × All (SameBalances s t) s.assets
    pack_channel_state-injective s t r same h k =
        let (i, v, f, a, _) = pack_channel_state-eq_ok s r h in
        let (j, w, g, b, _) = pack_channel_state-eq_ok t r k in
        (
          i ∙ sym j,
          v ∙ sym w,
          f ∙ sym g,
          pack_allocation-injective s t s.assets r.allocation a
              (subst (λ ps. pack_allocation sdk perun t ps ≡ ok r.allocation) (sym same) b),
        )
