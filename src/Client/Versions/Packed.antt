-- ===== src/Client/Versions/Packed.antt =====
-- `updateState` after a state was packed: it takes over what the other state says.
use perun_ckb_backend.Prelude.{
  ℕ, zero, suc, ◌+◌, ◌^◌, ◌≤◌, ◌<◌, ◌≡◌, refl, sym, ap, ◌∙◌, subst, ◌⊎◌, inl, inr, ltb, Bool, true,
  false, some, List, [], ◌∷◌, length, length-set, get_elem?, set, ℤ, pos, is_negative, ok,
  if◌then◌else◌, arith, Bool-cases,
}
use perun_ckb_backend.Ckb.{Sdk}
use perun_ckb_backend.Asset.{Asset, PAsset, plain, new_ckbytes_asset, is_compatible_asset}
use perun_ckb_backend.Perun.{State, GoPerun}
use perun_ckb_backend.Encoding.State.{PackedState, pack_allocation, pack_channel_state}
use perun_ckb_backend.Encoding.State.Commitment.{pack_channel_state-eq_ok, StoresUint128}
use perun_ckb_backend.Client.Versions.{to_int64, ckbytes_at, update_assets, update_state}
use perun_ckb_backend.Client.Versions.Update.{
  HasRow, HaveRows, RowAfter, RowsAfter, HaveRows-from, RowsAfter-at, update_assets-Loop,
  get_elem?-set,
}
use perun_ckb_backend.Client.Versions.Stored.{
  LoadsUint128, OneCkbytes, allocation-at, sudt_packed, ckbytes_packed,
}

higher_cases : (m n : ℕ) → ((if ltb m n then n else m) ≡ m) ⊎ ((if ltb m n then n else m) ≡ n)
higher_cases m n = ground arith

module _ (sdk : Sdk) (perun : GoPerun) (load : List ℕ → ℕ) where
  -- An amount as the code reads it: CKBytes pass through a signed number of 64 bits.
  abbrev pub as_read : Asset → ℕ → ℤ
  as_read a n = if a.is_ckbytes then to_int64 n else pos n

  -- A state after `updateState` with what another state was packed into.
  pub record TakesOver (s s' t : State) : Type 0 where
    pub is_final : t.is_final ≡ s'.is_final
    pub not_older : (s.version ≤ t.version) × (s'.version ≤ t.version)
    pub version : (t.version ≡ s.version) ⊎ (t.version ≡ s'.version)
    pub rows :
        (i : ℕ) (p : PAsset) (a : Asset)
        → get_elem? s.assets i ≡ some p
        → is_compatible_asset p ≡ some a
        → (m n : ℕ) × (perun.balance s' 0 (plain a) ≡ pos m)
          × (perun.balance s' 1 (plain a) ≡ pos n)
          × (get_elem? t.balances i ≡ some (as_read a m ∷ as_read a n ∷ []))

  -- What holds of two states of one channel with CKBytes at the index `k`.
  pub record Settling (k : ℕ) (s s' : State) : Type 0 where
    pub same_assets : s'.assets ≡ s.assets
    pub one_row_each : length s.balances ≡ length s.assets
    pub indexed :
        (r : State) → r.assets ≡ s.assets → perun.asset_index r (plain new_ckbytes_asset) ≡ some k
    pub ckbytes :
        (p : PAsset) × (a : Asset) × (get_elem? s.assets k ≡ some p)
        × (is_compatible_asset p ≡ some a)
    pub assets : OneCkbytes sdk perun load k s.assets

  read_as :
      (new : List (List ℤ)) (i : ℕ) (a : Asset) (m n : ℕ) (b : Bool)
      → a.is_ckbytes ≡ b
      → get_elem? new i
        ≡ some ((if b then to_int64 m else pos m) ∷ (if b then to_int64 n else pos n) ∷ [])
      → get_elem? new i ≡ some (as_read a m ∷ as_read a n ∷ [])
  read_as new i a m n b e row =
      subst
        (λ z.
          get_elem? new i
          ≡ some ((if z then to_int64 m else pos m) ∷ (if z then to_int64 n else pos n) ∷ []))
        (sym e) row

  get_elem?-lt : (ps : List PAsset) (i : ℕ) (p : PAsset) → get_elem? ps i ≡ some p → i < length ps
  get_elem?-lt [] i p h = absurd (ground arith)
  get_elem?-lt (q ∷ ps) zero p h = omega arith
  get_elem?-lt (q ∷ ps) (suc i) p h = omega (arith, get_elem?-lt ps i p h)

  stores : LoadsUint128 sdk perun load → StoresUint128 sdk
  stores loads m n a b e = sym (loads m a) ∙ ap load e ∙ loads n b

  module _ (loads : LoadsUint128 sdk perun load) (k : ℕ) (s s' : State) (packed : PackedState)
      (h : Settling k s s')
      (allocated : pack_allocation sdk perun s' s.assets ≡ ok packed.allocation) where
    -- What is packed for the CKBytes.
    ckbytes_row :
        (p : PAsset) (a : Asset)
        → get_elem? s.assets k ≡ some p
        → is_compatible_asset p ≡ some a
        → (m n : ℕ) × (ckbytes_at packed.allocation k ≡ ok (m, n))
          × (perun.balance s' 0 (plain a) ≡ pos m)
          × (perun.balance s' 1 (plain a) ≡ pos n)
    unfolding ckbytes_at
    ckbytes_row p a at c =
        let (valid, here) = h.assets k p a at c in
        let (row, has, packs) =
          allocation-at sdk perun load s' s.assets packed.allocation k p allocated at in
        let (m, n, is, x, y) =
          ckbytes_packed sdk perun load s' p a row c valid (here.1 refl) packs in
        (m, n, ground arith, x, y)

    have_rows : HaveRows load packed 0 s.assets
    have_rows = HaveRows-from load packed s.assets 0 (λ j p at.
        subst (λ z. HasRow load packed z p) {x = j} {y = 0 + j} (omega arith)
          (λ a c. (
            (h.assets j p a at c).0,
            λ other.
                let (row, has, packs) =
                  allocation-at sdk perun load s' s.assets packed.allocation j p allocated at in
                let (x, is, _, _) =
                  sudt_packed sdk perun load loads s' p a row c (h.assets j p a at c).0 other
                    packs in
                (x, has ∙ ap some is),
          )))

    rows_read :
        (m n : ℕ) (new : List (List ℤ)) (p₀ : PAsset) (a₀ : Asset)
        → get_elem? s.assets k ≡ some p₀
        → is_compatible_asset p₀ ≡ some a₀
        → perun.balance s' 0 (plain a₀) ≡ pos m
        → perun.balance s' 1 (plain a₀) ≡ pos n
        → k < length s.balances
        → RowsAfter load packed 0 s.assets (set s.balances k (to_int64 m ∷ to_int64 n ∷ [])) new
        → (i : ℕ) (p : PAsset) (a : Asset) → get_elem? s.assets i ≡ some p
        → is_compatible_asset p ≡ some a
        → (m n : ℕ) × (perun.balance s' 0 (plain a) ≡ pos m)
          × (perun.balance s' 1 (plain a) ≡ pos n)
          × (get_elem? new i ≡ some (as_read a m ∷ as_read a n ∷ []))
    rows_read m n new p₀ a₀ at₀ c₀ x y l r i p a at c =
        let after : RowAfter load packed i p (set s.balances k (to_int64 m ∷ to_int64 n ∷ [])) new =
          subst
            (λ z. RowAfter load packed z p (set s.balances k (to_int64 m ∷ to_int64 n ∷ [])) new)
            {x = 0 + i} {y = i} (omega arith)
            (RowsAfter-at load packed s.assets 0 i p _ new r at) in
        elim (Bool-cases a.is_ckbytes) [
          | inl ck ↦
              let same : i ≡ k = (h.assets i p a at c).1.0 ck in
              let one : a₀ ≡ a = ground arith in
              let row : get_elem? new i ≡ some (to_int64 m ∷ to_int64 n ∷ []) =
                after.1 a c ck
                ∙ subst
                    (λ z.
                      get_elem? (set s.balances k (to_int64 m ∷ to_int64 n ∷ [])) z
                      ≡ some (to_int64 m ∷ to_int64 n ∷ []))
                    (sym same) (get_elem?-set s.balances k (to_int64 m ∷ to_int64 n ∷ []) l) in
              (
                m,
                n,
                subst (λ z. perun.balance s' 0 (plain z) ≡ pos m) one x,
                subst (λ z. perun.balance s' 1 (plain z) ≡ pos n) one y,
                read_as new i a m n true ck row,
              )
          | inr other ↦
              let (q, has, packs) =
                allocation-at sdk perun load s' s.assets packed.allocation i p allocated at in
              let (z, is, u, v) =
                sudt_packed sdk perun load loads s' p a q c (h.assets i p a at c).0 other packs in
              (
                load z.nth0,
                load z.nth1,
                sym u,
                sym v,
                read_as new i a (load z.nth0) (load z.nth1) false other
                    (after.0 a c other z (has ∙ ap some is)),
              )
        ]

  update_state-runs :
      (s : State) (packed : PackedState) (k m n : ℕ) (new : List (List ℤ))
      → perun.asset_index
          (record s {
            version = if ltb s.version packed.version then packed.version else s.version;
            is_final = packed.is_final;
          })
          (plain new_ckbytes_asset)
        ≡ some k
      → ckbytes_at packed.allocation k ≡ ok (m, n)
      → k < length s.balances
      → update_assets load packed 0 s.assets (set s.balances k (to_int64 m ∷ to_int64 n ∷ []))
        ≡ ok new
      → update_state load packed perun s
        ≡ ok (record s {
          version = if ltb s.version packed.version then packed.version else s.version;
          is_final = packed.is_final;
          balances = new;
        })
  unfolding update_state
  update_state-runs s packed k m n new i c l u = ground arith

  -- With CKBytes at one index, and the other assets of this backend valid SUDTs, a state takes over what
  -- another state of its channel was packed into: the call succeeds, the version is the higher one of
  -- the two, the final flag and both parties' balances of each SUDT are those of the packed state, and
  -- so are their CKBytes, read as signed numbers of 64 bits.
  pub update_state-TakesOver :
      (k : ℕ) (s s' : State) (packed : PackedState)
      → LoadsUint128 sdk perun load
      → Settling k s s'
      → pack_channel_state sdk perun s' ≡ ok packed
      → (t : State) × (update_state load packed perun s ≡ ok t) × TakesOver s s' t
  update_state-TakesOver k s s' packed loads h e =
      let r = pack_channel_state-eq_ok sdk (stores loads) perun s' packed e in
      let allocated : pack_allocation sdk perun s' s.assets ≡ ok packed.allocation =
        subst (λ z. pack_allocation sdk perun s' z ≡ ok packed.allocation) h.same_assets r.3 in
      let (p, a, at, c) = h.ckbytes in
      let (m, n, row, x, y) = ckbytes_row loads k s s' packed h allocated p a at c in
      let l : k < length s.balances = omega (arith, h.one_row_each, get_elem?-lt s.assets k p at) in
      let written = set s.balances k (to_int64 m ∷ to_int64 n ∷ []) in
      let loop =
        update_assets-Loop load packed 0 s.assets written
          (have_rows loads k s s' packed h allocated)
          (omega (arith, h.one_row_each, length-set s.balances k (to_int64 m ∷ to_int64 n ∷ []))) in
      let higher = if ltb s.version packed.version then packed.version else s.version in
      (
        record s { version = higher; is_final = packed.is_final; balances = loop.new },
        update_state-runs s packed k m n loop.new
            (h.indexed (record s { version = higher; is_final = packed.is_final }) refl) row l
            loop.succeeds,
        record {
          is_final = sym r.2;
          not_older = ground (arith, r.1);
          version = elim (higher_cases s.version packed.version) [
            | inl q ↦ inl q
            | inr q ↦ inr (q ∙ sym r.1)
          ];
          rows = rows_read loads k s s' packed h allocated m n loop.new p a at c x y l loop.rows;
        },
      )

  -- CKBytes of at least 2 ^ 63 of the first party become a negative balance.
  pub update_state-negative :
      (k : ℕ) (s s' t : State) (packed : PackedState) (p : PAsset) (a : Asset) (m : ℕ)
      → LoadsUint128 sdk perun load
      → Settling k s s'
      → pack_channel_state sdk perun s' ≡ ok packed
      → get_elem? s.assets k ≡ some p
      → is_compatible_asset p ≡ some a
      → perun.balance s' 0 (plain a) ≡ pos m
      → 2 ^ 63 ≤ m
      → update_state load packed perun s ≡ ok t
      → (x y : ℤ) × (get_elem? t.balances k ≡ some (x ∷ y ∷ [])) × (is_negative x ≡ true)
  unfolding to_int64
  update_state-negative k s s' t packed p a m loads h e at c b large u =
      let (r, v, over) = update_state-TakesOver k s s' packed loads h e in
      let (i, j, x, y, row) = over.rows k p a at c in
      let ck : a.is_ckbytes ≡ true = (h.assets k p a at c).1.1 refl in
      (
        as_read a i,
        as_read a j,
        subst (λ (z : State). get_elem? z.balances k ≡ some (as_read a i ∷ as_read a j ∷ []))
            {x = r} {y = t} (ground arith) row,
        ground arith,
      )
