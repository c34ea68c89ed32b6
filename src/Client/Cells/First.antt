-- ===== src/Client/Cells/First.antt =====
-- Which cell the search by a channel's id returns.
use perun_ckb_backend.Prelude.{
  ℕ, ◌≡◌, refl, ap, ◌↔◌, inl, inr, none, some, List, [], ◌∷◌, ◌++◌, All, ok, err, arith,
  Option-cases, true,
}
use perun_ckb_backend.Ckb.{Script}
use perun_ckb_backend.Deployment.{Deployment}
use perun_ckb_backend.Transaction.Handler.{ChannelStatus}
use perun_ckb_backend.Client.{ClientError, LiveCell, Formats}
use perun_ckb_backend.Client.Calls.{type_script_of}
use perun_ckb_backend.Client.Cells.{
  is_valid_channel_live_cell, channel_status_of, get_first_channel_live_cell_with_id,
}

module _ (f : Formats) (d : Deployment) (id : ℕ) where
  -- A cell of the channel with the id: its type script has the code of the contract, and its data are a
  -- status of the channel.
  pub record IsChannelCell (cell : LiveCell) (status : ChannelStatus) : Type 0 where
    pub script : Script
    pub typed : type_script_of cell ≡ some script
    pub code_hash : script.code_hash ≡ d.pcts_code_hash
    pub hash_type : script.hash_type ≡ d.pcts_hash_type
    pub parsed : f.parse_status cell.output_data ≡ some status
    pub identified : status.state.channel_id ≡ id

  -- The tests of a round of the loop fail.
  abbrev pub IsSkipped : LiveCell → Type 0
  IsSkipped cell = (status : ChannelStatus) → ¬ IsChannelCell cell status

  valid-typed :
      (cell : LiveCell)
      → is_valid_channel_live_cell d cell ≡ true
      → (s : Script) × (type_script_of cell ≡ some s)
        × (s.code_hash ≡ d.pcts_code_hash)
        × (s.hash_type ≡ d.pcts_hash_type)
  unfolding is_valid_channel_live_cell type_script_of
  valid-typed cell h = elim (Option-cases cell.output) [
    | inl e ↦ absurd (ground arith)
    | inr (o, e) ↦ elim (Option-cases o.type_script) [
      | inl n ↦ absurd (ground arith)
      | inr (s, n) ↦ (s, ground arith, ground arith, ground arith)
    ]
  ]

  typed-valid :
      (cell : LiveCell) (s : Script)
      → type_script_of cell ≡ some s
      → s.code_hash ≡ d.pcts_code_hash
      → s.hash_type ≡ d.pcts_hash_type
      → is_valid_channel_live_cell d cell ≡ true
  unfolding is_valid_channel_live_cell type_script_of
  typed-valid cell s t c h = elim (Option-cases cell.output) [
    | inl e ↦ absurd (ground arith)
    | inr (o, e) ↦ ground arith
  ]

  pub channel_status_of-IsChannelCell :
      (cell : LiveCell) (status : ChannelStatus)
      → channel_status_of f d id cell ≡ some status
      → IsChannelCell cell status
  unfolding channel_status_of
  channel_status_of-IsChannelCell cell status h =
      let valid : is_valid_channel_live_cell d cell ≡ true = ground arith in
      let (s, t, c, k) = valid-typed cell valid in
      elim (Option-cases (f.parse_status cell.output_data)) [
        | inl e ↦ absurd (ground arith)
        | inr (x, e) ↦ record {
          script = s;
          typed = t;
          code_hash = c;
          hash_type = k;
          parsed = ground arith;
          identified = ground arith;
        }
      ]

  pub IsChannelCell-channel_status_of :
      (cell : LiveCell) (status : ChannelStatus)
      → IsChannelCell cell status
      → channel_status_of f d id cell ≡ some status
  unfolding channel_status_of
  IsChannelCell-channel_status_of cell status m =
      ground (arith, typed-valid cell m.script m.typed m.code_hash m.hash_type)

  -- Where a search found a cell.
  pub record Finds (cells : List LiveCell) (cell : LiveCell) (status : ChannelStatus) : Type 0 where
    pub before : List LiveCell
    pub after : List LiveCell
    pub split : cells ≡ before ++ cell ∷ after
    pub skipped : All IsSkipped before
    pub taken : IsChannelCell cell status

  none-IsSkipped : (cell : LiveCell) → channel_status_of f d id cell ≡ none → IsSkipped cell
  none-IsSkipped cell h status m = cc (IsChannelCell-channel_status_of cell status m)

  found :
      (cells : List LiveCell) (cell : LiveCell) (status : ChannelStatus)
      → get_first_channel_live_cell_with_id f d id cells ≡ ok (cell, status)
      → Finds cells cell status
  unfolding get_first_channel_live_cell_with_id
  found [] cell status h = absurd (ground arith)
  found (c ∷ cells) cell status h = elim (Option-cases (channel_status_of f d id c)) [
    | inl e ↦
        let r = found cells cell status (ground arith) in
        record {
          before = c ∷ r.before;
          after = r.after;
          split = ap (◌∷◌ c) r.split;
          skipped = (none-IsSkipped c e, r.skipped);
          taken = r.taken;
        }
    | inr (s, e) ↦ record {
      before = [];
      after = cells;
      split = ground arith;
      skipped = tt;
      taken = channel_status_of-IsChannelCell cell status (ground arith);
    }
  ]

  first :
      (before after : List LiveCell) (cell : LiveCell) (status : ChannelStatus)
      → All IsSkipped before
      → IsChannelCell cell status
      → get_first_channel_live_cell_with_id f d id (before ++ cell ∷ after) ≡ ok (cell, status)
  unfolding get_first_channel_live_cell_with_id
  first [] after cell status s m = ground (arith, IsChannelCell-channel_status_of cell status m)
  first (c ∷ before) after cell status s m = elim (Option-cases (channel_status_of f d id c)) [
    | inl e ↦ ground (arith, first before after cell status s.1 m)
    | inr (x, e) ↦ absurd (s.0 x (channel_status_of-IsChannelCell c x e))
  ]

  -- The search by an id returns a cell with a status exactly if the cell is one of the channel with
  -- that status, and every cell before it is not a cell of the channel.
  pub get_first_channel_live_cell_with_id-Finds :
      (cells : List LiveCell) (cell : LiveCell) (status : ChannelStatus)
      → (get_first_channel_live_cell_with_id f d id cells ≡ ok (cell, status))
        ↔ Finds cells cell status
  get_first_channel_live_cell_with_id-Finds cells cell status = (
    found cells cell status,
    λ r. rw r.split (first r.before r.after cell status r.skipped r.taken),
  )

  -- It fails, with the error for a channel that is not found, exactly if no cell is one of the channel.
  pub get_first_channel_live_cell_with_id-fails :
      (cells : List LiveCell)
      → (get_first_channel_live_cell_with_id f d id cells ≡ err ClientError.no_channel_live_cell)
        ↔ All IsSkipped cells
  unfolding get_first_channel_live_cell_with_id
  get_first_channel_live_cell_with_id-fails [] = ((λ h. tt), (λ h. refl))
  get_first_channel_live_cell_with_id-fails (c ∷ cells) =
      elim (Option-cases (channel_status_of f d id c)) [
        | inl e ↦
            let (to, from) = get_first_channel_live_cell_with_id-fails cells in
            ((λ h. (none-IsSkipped c e, to (ground arith))), (λ s. ground (arith, from s.1)))
        | inr (x, e) ↦ (
          (λ h. absurd (ground arith)),
          (λ s. absurd (s.0 x (channel_status_of-IsChannelCell c x e))),
        )
      ]
