-- ===== src/Client/Versions/Update.antt =====
-- `updateState` takes over the version and the balances of a packed state.
use perun_ckb_backend.Prelude.{
  ℕ, zero, suc, ◌+◌, ◌≤◌, ◌<◌, ◌≡◌, ◌≢◌, refl, ap, ◌∙◌, subst, inl, inr, true, false, some, List,
  [], ◌∷◌, length, length-set, get_elem?, set, ℤ, pos, ok, arith, Option-cases, Bool-cases,
}
use perun_ckb_backend.Asset.{
  Sudt, Asset, PAsset, plain, is_compatible_asset, is_invalid, is_sudt_asset,
}
use perun_ckb_backend.Encoding.State.{AnyBalances, SudtBalances, PackedState}
use perun_ckb_backend.Client.Versions.{update_sudt, update_asset, update_assets}

pub get_elem?-set {ℓ} :
    {A : Type ℓ} (xs : List A) (i : ℕ) (v : A) → i < length xs → get_elem? (set xs i v) i ≡ some v
get_elem?-set [] i v h = absurd (omega arith)
get_elem?-set (x ∷ xs) zero v h = refl
get_elem?-set (x ∷ xs) (suc i) v h = get_elem?-set xs i v (omega arith)

get_elem?-set-other {ℓ} :
    {A : Type ℓ} (xs : List A) (i j : ℕ) (v : A) → i ≢ j → get_elem? (set xs i v) j ≡ get_elem? xs j
get_elem?-set-other [] i j v h = refl
get_elem?-set-other (x ∷ xs) zero zero v h = absurd (h refl)
get_elem?-set-other (x ∷ xs) zero (suc j) v h = refl
get_elem?-set-other (x ∷ xs) (suc i) zero v h = refl
get_elem?-set-other (x ∷ xs) (suc i) (suc j) v h = get_elem?-set-other xs i j v (λ e. h (ap suc e))

module _ (load : List ℕ → ℕ) (packed : PackedState) where
  -- The row that the loop writes for an SUDT.
  abbrev pub sudt_row : SudtBalances → List ℤ
  sudt_row x = pos (load x.nth0) ∷ pos (load x.nth1) ∷ []

  -- What the loop needs of an asset: it is valid, and an SUDT has a row of its own.
  abbrev pub HasRow : ℕ → PAsset → Type 0
  HasRow i p =
      (a : Asset)
      → is_compatible_asset p ≡ some a
      → (is_invalid a ≡ false)
        × (a.is_ckbytes ≡ false
            → (x : SudtBalances) × (get_elem? packed.allocation i
                ≡ some (AnyBalances.sudt_balances x)))

  abbrev pub HaveRows : ℕ → List PAsset → Type 0
  HaveRows i [] = Unit {0}
  HaveRows i (p ∷ ps) = HasRow i p × HaveRows (i + 1) ps

  -- A row after one round: rewritten for an SUDT, and as before otherwise.
  abbrev pub RowAfter : ℕ → PAsset → List (List ℤ) → List (List ℤ) → Type 0
  RowAfter i p old new =
      ((a : Asset)
        → is_compatible_asset p ≡ some a
        → a.is_ckbytes ≡ false
        → (x : SudtBalances) → get_elem? packed.allocation i ≡ some (AnyBalances.sudt_balances x)
        → get_elem? new i ≡ some (sudt_row x))
      × ((a : Asset)
          → is_compatible_asset p ≡ some a
          → a.is_ckbytes ≡ true
          → get_elem? new i ≡ get_elem? old i)

  is_sudt_asset-ok :
      (a : Asset)
      → is_invalid a ≡ false
      → a.is_ckbytes ≡ false
      → (s : Sudt) × (is_sudt_asset (plain a) ≡ ok s)
  unfolding is_invalid is_sudt_asset
  is_sudt_asset-ok a v k = elim (Option-cases a.sudt) [
    | inl e ↦ absurd (ground arith)
    | inr (s, e) ↦ (s, ground arith)
  ]

  update_sudt-ok :
      (i : ℕ) (a : Asset) (x : SudtBalances) (s : Sudt) (old : List (List ℤ))
      → is_sudt_asset (plain a) ≡ ok s
      → get_elem? packed.allocation i ≡ some (AnyBalances.sudt_balances x)
      → i < length old
      → update_sudt load packed i a old ≡ ok (set old i (sudt_row x))
  unfolding update_sudt
  update_sudt-ok i a x s old q at l = ground arith

  -- The result of a round that succeeded.
  record Round (i : ℕ) (p : PAsset) (old : List (List ℤ)) : Type 0 where
    pub new : List (List ℤ)
    pub succeeds : update_asset load packed i p old ≡ ok new
    long : length new ≡ length old
    others : (j : ℕ) → i ≢ j → get_elem? new j ≡ get_elem? old j
    row : RowAfter i p old new

  update_asset-Round :
      (i : ℕ) (p : PAsset) (old : List (List ℤ)) → HasRow i p → i < length old → Round i p old
  unfolding update_asset
  update_asset-Round i p old h l = elim (Option-cases (is_compatible_asset p)) [
    | inl e ↦ record {
      new = old;
      succeeds = ground arith;
      long = refl;
      others = λ j n. refl;
      row = ((λ a c k x g. absurd (ground arith)), λ a c k. refl);
    }
    | inr (a, e) ↦ elim (Bool-cases a.is_ckbytes) [
      | inl k ↦
          let valid = (h a e).0 in
          record {
            new = old;
            succeeds = ground arith;
            long = refl;
            others = λ j n. refl;
            row = ((λ b c m x g. absurd (ground arith)), λ b c m. refl);
          }
      | inr k ↦
          let (valid, rows) = h a e in
          let (x, at) = rows k in
          let (s, q) = is_sudt_asset-ok a valid k in
          record {
            new = set old i (sudt_row x);
            succeeds = ground (arith, update_sudt-ok i a x s old q at l);
            long = length-set old i (sudt_row x);
            others = λ j n. get_elem?-set-other old i j (sudt_row x) n;
            row = (
              (λ b c m y g.
                  get_elem?-set old i (sudt_row x) l
                  ∙ ap (λ z. some (sudt_row z)) {x = x} {y = y} (cc)),
              λ b c m. absurd (ground arith),
            );
          }
    ]
  ]

  -- The rows after the loop.
  abbrev pub RowsAfter : ℕ → List PAsset → List (List ℤ) → List (List ℤ) → Type 0
  RowsAfter i [] old new = Unit {0}
  RowsAfter i (p ∷ ps) old new = RowAfter i p old new × RowsAfter (i + 1) ps old new

  pub record Loop (i : ℕ) (ps : List PAsset) (old : List (List ℤ)) : Type 0 where
    pub new : List (List ℤ)
    pub succeeds : update_assets load packed i ps old ≡ ok new
    pub before : (j : ℕ) → j < i → get_elem? new j ≡ get_elem? old j
    pub rows : RowsAfter i ps old new

  RowsAfter-from :
      (i k : ℕ) (ps : List PAsset) (old mid new : List (List ℤ))
      → i < k
      → ((j : ℕ) → i ≢ j → get_elem? mid j ≡ get_elem? old j)
      → RowsAfter k ps mid new
      → RowsAfter k ps old new
  RowsAfter-from i k [] old mid new l e r = tt
  RowsAfter-from i k (p ∷ ps) old mid new l e r = (
    (r.0.0, λ a c m. r.0.1 a c m ∙ e k (λ q. absurd (omega (arith, q)))),
    RowsAfter-from i (k + 1) ps old mid new (omega arith) e r.1,
  )

  pub update_assets-Loop :
      (i : ℕ) (ps : List PAsset) (old : List (List ℤ))
      → HaveRows i ps
      → i + length ps ≤ length old
      → Loop i ps old
  unfolding update_assets
  update_assets-Loop i [] old h l = record {
    new = old;
    succeeds = refl;
    before = λ j m. refl;
    rows = tt;
  }
  update_assets-Loop i (p ∷ ps) old h l =
      let r = update_asset-Round i p old h.0 (omega arith) in
      let t = update_assets-Loop (i + 1) ps r.new h.1 (omega (arith, r.long)) in
      record {
        new = t.new;
        succeeds = rw r.succeeds t.succeeds;
        before = λ j m. t.before j (omega arith) ∙ r.others j (λ q. absurd (omega (arith, q)));
        rows = (
          (
            (λ a c m x g. t.before i (omega arith) ∙ r.row.0 a c m x g),
            λ a c m. t.before i (omega arith) ∙ r.row.1 a c m,
          ),
          RowsAfter-from i (i + 1) ps old r.new t.new (omega arith) r.others t.rows,
        );
      }

  pub HaveRows-from :
      (ps : List PAsset) (i : ℕ)
      → ((j : ℕ) (p : PAsset) → get_elem? ps j ≡ some p → HasRow (i + j) p)
      → HaveRows i ps
  HaveRows-from [] i h = tt
  HaveRows-from (p ∷ ps) i h = (
    subst (λ n. HasRow n p) {x = i + 0} {y = i} (omega arith) (h 0 p refl),
    HaveRows-from ps (i + 1) (λ j q e.
        subst (λ n. HasRow n q) {x = i + suc j} {y = i + 1 + j} (omega arith) (h (suc j) q e)),
  )

  pub RowsAfter-at :
      (ps : List PAsset) (i j : ℕ) (p : PAsset) (old new : List (List ℤ))
      → RowsAfter i ps old new
      → get_elem? ps j ≡ some p
      → RowAfter (i + j) p old new
  RowsAfter-at [] i j p old new r e = absurd (ground arith)
  RowsAfter-at (q ∷ ps) i zero p old new r e =
      subst (λ n. RowAfter n p old new) {x = i} {y = i + 0} (omega arith)
        (subst (λ z. RowAfter i z old new) {x = q} {y = p} (ground arith) r.0)
  RowsAfter-at (q ∷ ps) i (suc j) p old new r e =
      subst (λ n. RowAfter n p old new) {x = i + 1 + j} {y = i + suc j} (omega arith)
        (RowsAfter-at ps (i + 1) j p old new r.1 e)
