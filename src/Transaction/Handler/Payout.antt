-- ===== src/Transaction/Handler/Payout.antt =====
-- The outputs that pay a party in transaction/handler.go: one for its CKBytes, and one for each SUDT.
use perun_ckb_backend.Prelude.{
  ℕ, zero, suc, ◌+◌, ◌==◌, leb, if◌then◌else◌, Option, none, some, List, [], ◌∷◌, get_elem?, Result,
  ok, err, ◌>>=◌,
}
use perun_ckb_backend.Prelude.GoMap
use perun_ckb_backend.Prelude.Words.{add64}
use perun_ckb_backend.Ckb.{Script, CellOutput, Sdk}
use perun_ckb_backend.Asset.{Sudt, new_ckbytes_nervos_asset, ckb_backend_id}
use perun_ckb_backend.Perun.{State, Part, GoPerun}
use perun_ckb_backend.Wallet.Address.{as_participant}
use perun_ckb_backend.Encoding.State.{SudtDistribution, to_uint64, get_sudt_balances}
use perun_ckb_backend.Transaction.Funds.{TxError}
use perun_ckb_backend.Transaction.Handler.{Call, add_output, encoded, mk_payment_output}

-- The number in a column of a row of balances; out of range panics, and a number that does not fit
-- into 64 bits is an error.
unfoldable pub balance_at : State → ℕ → ℕ → Result TxError ℕ
unfolding to_uint64
balance_at s row column = elim (get_elem? s.balances row) [
  | none ↦ err TxError.panic
  | some bals ↦ elim (get_elem? bals column) [
    | none ↦ err TxError.panic
    | some bal ↦ elim (to_uint64 bal) [ none ↦ err TxError.not_uint64 | some n ↦ ok n ]
  ]
]

-- `balances.Distribution[index]`, of an array of two.
unfoldable pub distribution_at : SudtDistribution → ℕ → Option ℕ
distribution_at d zero = some d.first
distribution_at d (suc zero) = some d.second
distribution_at d (suc (suc i)) = none

-- `AsParticipant(addr[CKBBackendID]).PaymentScript`
unfoldable pub payment_script : Part → Result TxError Script
unfolding as_participant
payment_script part = elim (as_participant (GoMap.lookup ckb_backend_id part)) [
  | none ↦ err TxError.panic
  | some p ↦ ok p.payment_script
]

-- The first party gets the capacity of the channel's cell on top of its balance.
unfoldable pub party_funds : ℕ → ℕ → ℕ → ℕ
party_funds channel_capacity i balance = if i == 0 then add64 balance channel_capacity else balance

module _ (sdk : Sdk) where
  -- `mkAssetOutput`: the cell and its data.
  unfoldable pub mk_asset_output : Script → Sudt → ℕ → ℕ → CellOutput × List ℕ
  mk_asset_output lock asset amount additional = (
    record {
      capacity = add64 asset.max_capacity additional;
      lock = lock;
      type_script = some asset.type_script;
    },
    sdk.store_little_endian amount,
  )

  -- The loop of `AddAssetsToOutputs`: the additional balance goes into the first output.
  unfoldable pub add_asset_outputs :
      List SudtDistribution → ℕ → Script → ℕ → List Call → Result TxError (List Call)
  unfolding distribution_at mk_asset_output add_output
  add_asset_outputs [] index lock additional calls = ok calls
  add_asset_outputs (d ∷ ds) index lock additional calls = elim (distribution_at d index) [
    | none ↦ err TxError.index_range
    | some amount ↦
        let (cell, bytes) = mk_asset_output lock d.asset amount additional in
        add_asset_outputs ds index lock 0 (add_output cell bytes calls)
  ]

  -- The CKBytes of a party: an output of their own if they can pay for it, else what is left for
  -- the next output.
  unfoldable pub pay_ckbytes : Script → ℕ → List Call → ℕ × List Call
  unfolding add_output mk_payment_output
  pay_ckbytes lock balance calls =
      if leb (sdk.script_occupied_capacity lock) balance
      then (0, add_output (mk_payment_output lock balance) [] calls)
      else (balance, calls)

  module _ (perun : GoPerun) where
    -- `GetCKByteBalance`
    unfoldable pub get_ckbyte_balance : ℕ → State → Result TxError ℕ
    unfolding balance_at
    get_ckbyte_balance index s = elim (perun.asset_index s new_ckbytes_nervos_asset) [
      | none ↦ ok 0
      | some row ↦ balance_at s row index
    ]

    -- `GetCKByteBalanceFromVirtualChannel`
    unfoldable pub get_ckbyte_balance_from_virtual_channel : ℕ → State → List ℕ → Result TxError ℕ
    unfolding balance_at
    get_ckbyte_balance_from_virtual_channel index s index_map =
        elim (perun.asset_index s new_ckbytes_nervos_asset) [
          | none ↦ ok 0
          | some row ↦ elim (get_elem? index_map index) [
            | none ↦ err TxError.panic
            | some column ↦ balance_at s row column
          ]
        ]

    -- `AddAssetsToOutputs`
    unfoldable pub add_assets_to_outputs :
        State → ℕ → Script → ℕ → List Call → Result TxError (List Call)
    unfolding add_asset_outputs
    add_assets_to_outputs s index lock additional calls = do
      ds ← encoded (get_sudt_balances sdk perun s s.assets)
      add_asset_outputs ds index lock additional calls

    -- The outputs of a party with some CKBytes, by its payment script.
    unfoldable pub pay_funds : State → ℕ → Script → ℕ → List Call → Result TxError (List Call)
    unfolding pay_ckbytes add_assets_to_outputs
    pay_funds s i lock funds calls =
        let (additional, calls) = pay_ckbytes lock funds calls in
        add_assets_to_outputs s i lock additional calls

    -- The body of the loops over the parties in `buildCloseTransaction` and
    -- `buildForceCloseTransaction`; in `buildAbortTransaction` it stands for the first party alone.
    unfoldable pub pay_party : State → ℕ → ℕ → Part → List Call → Result TxError (List Call)
    unfolding payment_script get_ckbyte_balance party_funds pay_funds
    pay_party s channel_capacity i part calls = do
      lock ← payment_script part
      balance ← get_ckbyte_balance i s
      pay_funds s i lock (party_funds channel_capacity i balance) calls

    -- The loop over the parties, from the index of the first part given.
    unfoldable pub pay_parties : State → ℕ → ℕ → List Part → List Call → Result TxError (List Call)
    unfolding pay_party
    pay_parties s channel_capacity i [] calls = ok calls
    pay_parties s channel_capacity i (part ∷ parts) calls = do
      calls ← pay_party s channel_capacity i part calls
      pay_parties s channel_capacity (i + 1) parts calls

  -- The output of one asset in `AddAssetsToOutputsWithVirtualChannel`: a plain one if nothing of the
  -- asset is paid.
  unfoldable pub mk_merged_output : Script → Sudt → ℕ → ℕ → CellOutput × List ℕ
  unfolding mk_asset_output mk_payment_output
  mk_merged_output lock asset total additional =
      if total == 0
      then (mk_payment_output lock (add64 asset.max_capacity additional), [])
      else mk_asset_output lock asset total additional

  -- The loop of `AddAssetsToOutputsWithVirtualChannel`; an asset for which the virtual channel has no
  -- entry has no balance there.
  unfoldable pub add_merged_outputs :
      List SudtDistribution
      → List SudtDistribution
      → ℕ
      → ℕ
      → Script
      → ℕ
      → List Call
      → Result TxError (List Call)
  unfolding distribution_at mk_merged_output add_output
  add_merged_outputs [] vs index mapped lock additional calls = ok calls
  add_merged_outputs (d ∷ ds) vs index mapped lock additional calls =
      let v : SudtDistribution = elim vs [
        | [] ↦ record { asset = d.asset; first = 0; second = 0 }
        | v ∷ rest ↦ v
      ] in
      let rest : List SudtDistribution = elim vs [ [] ↦ [] | v ∷ rest ↦ rest ] in
      elim (distribution_at d mapped) [
        | none ↦ err TxError.index_range
        | some parent ↦ elim (distribution_at v index) [
          | none ↦ err TxError.panic
          | some virtual ↦
              let (cell, bytes) =
                mk_merged_output lock d.asset (sdk.add_uint128 parent virtual) additional in
              add_merged_outputs ds rest index mapped lock 0 (add_output cell bytes calls)
        ]
      ]
