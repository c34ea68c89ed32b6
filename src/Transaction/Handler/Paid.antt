-- ===== src/Transaction/Handler/Paid.antt =====
-- What the outputs of transaction/handler.go pay out.
use perun_ckb_backend.Prelude.{
  ℕ, suc, ◌+◌, ◌*◌, ◌%◌, ◌==◌, ◌≡◌, refl, ◌⊎◌, inl, inr, if◌then◌else◌, true, false, List, [], ◌∷◌,
  ◌++◌, ok, err, >>=-eq-ok, arith, Bool-cases, Option-cases, subst, leb, length,
}
use mathlib.Core.List.{cons≢nil}
use perun_ckb_backend.Prelude.Words.{u64_mod}
use perun_ckb_backend.Ckb.{Script, CellOutput, Sdk}
use perun_ckb_backend.Perun.{State, Part, GoPerun}
use perun_ckb_backend.Encoding.State.{SudtDistribution, get_sudt_balances}
use perun_ckb_backend.Transaction.Handler.{
  Call, cell_dep, header_dep, input_cell, output_cell, witness, add_output, encoded,
  mk_payment_output,
}
use perun_ckb_backend.Transaction.Handler.Payout.{
  distribution_at, mk_asset_output, add_asset_outputs, add_assets_to_outputs, pay_ckbytes,
  party_funds, pay_funds, pay_party, pay_parties, payment_script, get_ckbyte_balance,
}

-- The capacity of the outputs among some calls.
unfoldable pub paid : List Call → ℕ
paid [] = 0
paid (output_cell cell bytes ∷ calls) = cell.capacity + paid calls
paid (cell_dep d ∷ calls) = paid calls
paid (header_dep h ∷ calls) = paid calls
paid (input_cell x ∷ calls) = paid calls
paid (witness i bytes ∷ calls) = paid calls

-- The capacity that the cells of some SUDTs are given.
unfoldable pub reserved : List SudtDistribution → ℕ
reserved [] = 0
reserved (d ∷ ds) = d.asset.max_capacity + reserved ds

-- CKBytes that no output takes: less than a cell of the script needs, and no asset's cell.
unfoldable pub lost : Sdk → List SudtDistribution → Script → ℕ → ℕ
lost sdk (d ∷ ds) lock funds = 0
lost sdk [] lock funds = if leb (sdk.script_occupied_capacity lock) funds then 0 else funds

module _ (sdk : Sdk) (perun : GoPerun) (s : State) (channel_capacity : ℕ) where
  -- What a party is owed in CKBytes: its balance, and for the first party the channel's capacity.
  unfoldable pub credit : ℕ → ℕ
  credit i = elim (get_ckbyte_balance sdk perun i s) [
    | err e ↦ 0
    | ok n ↦ if i == 0 then n + channel_capacity else n
  ]

  -- What a party is owed and no output takes.
  unfoldable pub dropped : List SudtDistribution → ℕ → Part → ℕ
  unfolding lost
  dropped ds i part = elim (payment_script part) [
    | err e ↦ 0
    | ok lock ↦ elim (get_ckbyte_balance sdk perun i s) [
      | err e ↦ 0
      | ok n ↦ lost sdk ds lock (party_funds channel_capacity i n)
    ]
  ]

  -- The sums over the parties, the first of them at an index.
  unfoldable pub credits : ℕ → List Part → ℕ
  unfolding credit
  credits i [] = 0
  credits i (part ∷ parts) = credit i + credits (i + 1) parts

  unfoldable pub all_dropped : List SudtDistribution → ℕ → List Part → ℕ
  unfolding dropped
  all_dropped ds i [] = 0
  all_dropped ds i (part ∷ parts) = dropped ds i part + all_dropped ds (i + 1) parts

pub paid-append : (xs ys : List Call) → paid (xs ++ ys) ≡ paid xs + paid ys
unfolding paid
paid-append [] ys = omega arith
paid-append (output_cell cell bytes ∷ xs) ys = omega (arith, paid-append xs ys)
paid-append (cell_dep d ∷ xs) ys = paid-append xs ys
paid-append (header_dep h ∷ xs) ys = paid-append xs ys
paid-append (input_cell x ∷ xs) ys = paid-append xs ys
paid-append (witness i bytes ∷ xs) ys = paid-append xs ys

pub paid-add_output :
    (cell : CellOutput) (bytes : List ℕ) (calls : List Call)
    → paid (add_output cell bytes calls) ≡ paid calls + cell.capacity
unfolding add_output paid
paid-add_output cell bytes calls = omega (arith, paid-append calls (output_cell cell bytes ∷ []))

reserved_more : (n c : ℕ) → suc n * c ≡ c + n * c
reserved_more n c = omega arith

party_funds-mod :
    (channel_capacity i balance : ℕ)
    → party_funds channel_capacity i balance % u64_mod
      ≡ (if i == 0 then balance + channel_capacity else balance) % u64_mod
unfolding party_funds
party_funds-mod channel_capacity i balance = elim (Bool-cases (i == 0)) [
  | inl e ↦ rw e (omega arith)
  | inr e ↦ rw e refl
]

module _ (sdk : Sdk) where
  -- The additional balance is paid out if there is an asset.
  pub add_asset_outputs-paid :
      (ds : List SudtDistribution) (index : ℕ) (lock : Script) (additional : ℕ)
      (calls r : List Call)
      → add_asset_outputs sdk ds index lock additional calls ≡ ok r
      → (additional ≡ 0) ⊎ ¬ (ds ≡ [])
      → paid r % u64_mod ≡ (paid calls + reserved ds + additional) % u64_mod
  unfolding add_asset_outputs reserved mk_asset_output
  add_asset_outputs-paid [] index lock additional calls r h a = elim a [
    | inl e ↦ ground arith
    | inr n ↦ absurd (n refl)
  ]
  add_asset_outputs-paid (d ∷ ds) index lock additional calls r h a =
      elim (Option-cases (distribution_at d index)) [
        | inl e ↦ absurd (ground arith)
        | inr (amount, e) ↦
            let (cell, bytes) = mk_asset_output sdk lock d.asset amount additional in
            let rest =
              add_asset_outputs-paid ds index lock 0 (add_output cell bytes calls) r (ground arith)
                (inl refl) in
            omega (arith, rest, paid-add_output cell bytes calls)
      ]

  pub paid-payment :
      (lock : Script) (funds : ℕ) (calls : List Call)
      → paid (add_output (mk_payment_output lock funds) [] calls) ≡ paid calls + funds
  unfolding mk_payment_output
  paid-payment lock funds calls = paid-add_output (mk_payment_output lock funds) [] calls

  lost-none :
      (ds : List SudtDistribution) (lock : Script) (funds : ℕ)
      → leb (sdk.script_occupied_capacity lock) funds ≡ true
      → lost sdk ds lock funds ≡ 0
  unfolding lost
  lost-none [] lock funds e = rw e refl
  lost-none (d ∷ ds) lock funds e = refl

  -- What an asset's cell takes, where the CKBytes are too few for a cell of their own.
  left_over :
      (ds : List SudtDistribution) (i : ℕ) (lock : Script) (funds : ℕ) (calls r : List Call)
      → add_asset_outputs sdk ds i lock funds calls ≡ ok r
      → leb (sdk.script_occupied_capacity lock) funds ≡ false
      → (paid r + lost sdk ds lock funds) % u64_mod ≡ (paid calls + funds + reserved ds) % u64_mod
  unfolding add_asset_outputs reserved lost
  left_over [] i lock funds calls r h e = ground arith
  left_over (d ∷ ds) i lock funds calls r h e = omega (
    arith,
    add_asset_outputs-paid (d ∷ ds) i lock funds calls r h (inr (cons≢nil {x = d} {xs = ds})),
  )

  -- A party's outputs, its assets' ones given by their distributions.
  pay_distributions-paid :
      (ds : List SudtDistribution) (i : ℕ) (lock : Script) (funds : ℕ) (calls r : List Call)
      → add_asset_outputs sdk ds i lock
          (pay_ckbytes sdk lock funds calls).0
          (pay_ckbytes sdk lock funds calls).1
        ≡ ok r
      → (paid r + lost sdk ds lock funds) % u64_mod ≡ (paid calls + funds + reserved ds) % u64_mod
  unfolding pay_ckbytes lost
  pay_distributions-paid ds i lock funds calls r h =
      elim (Bool-cases (leb (sdk.script_occupied_capacity lock) funds)) [
        | inl e ↦
            let cell = mk_payment_output lock funds in
            let same =
              add_asset_outputs-paid ds i lock 0 (add_output cell [] calls) r
                (rw (e, pay_ckbytes) at h) (inl refl) in
            omega (arith, same, paid-payment lock funds calls, lost-none ds lock funds e)
        | inr e ↦ left_over ds i lock funds calls r (rw (e, pay_ckbytes) at h) e
      ]

  module _ (perun : GoPerun) (s : State) (channel_capacity : ℕ) (ds : List SudtDistribution) where
    pay_funds-paid :
        (i : ℕ) (lock : Script) (funds : ℕ) (calls r : List Call)
        → encoded (get_sudt_balances sdk perun s s.assets) ≡ ok ds
        → pay_funds sdk perun s i lock funds calls ≡ ok r
        → (paid r + lost sdk ds lock funds) % u64_mod ≡ (paid calls + funds + reserved ds) % u64_mod
    unfolding pay_funds add_assets_to_outputs
    pay_funds-paid i lock funds calls r d h =
        let (es, e, f) = >>=-eq-ok (encoded (get_sudt_balances sdk perun s s.assets)) _ h in
        subst
          (λ xs.
            (paid r + lost sdk xs lock funds) % u64_mod
            ≡ (paid calls + funds + reserved xs) % u64_mod)
          {x = es} {y = ds} (ground arith) (pay_distributions-paid es i lock funds calls r f)

    pub pay_party-paid :
        (i : ℕ) (part : Part) (calls r : List Call)
        → encoded (get_sudt_balances sdk perun s s.assets) ≡ ok ds
        → pay_party sdk perun s channel_capacity i part calls ≡ ok r
        → (paid r + dropped sdk perun s channel_capacity ds i part) % u64_mod
          ≡ (paid calls + credit sdk perun s channel_capacity i + reserved ds) % u64_mod
    unfolding pay_party dropped credit
    pay_party-paid i part calls r d h =
        let (lock, e, f) = >>=-eq-ok (payment_script part) _ h in
        let (balance, g, k) = >>=-eq-ok (get_ckbyte_balance sdk perun i s) _ f in
        let funds = party_funds channel_capacity i balance in
        let settled = pay_funds-paid i lock funds calls r d k in
        let owns : credit sdk perun s channel_capacity i
            ≡ (if i == 0 then balance + channel_capacity else balance) =
          ground arith in
        let drops : dropped sdk perun s channel_capacity ds i part ≡ lost sdk ds lock funds =
          ground arith in
        omega (arith, settled, owns, drops, party_funds-mod channel_capacity i balance)

    -- All the parties.
    pub pay_parties-paid :
        (i : ℕ) (parts : List Part) (calls r : List Call)
        → encoded (get_sudt_balances sdk perun s s.assets) ≡ ok ds
        → pay_parties sdk perun s channel_capacity i parts calls ≡ ok r
        → (paid r + all_dropped sdk perun s channel_capacity ds i parts) % u64_mod
          ≡ (paid calls + credits sdk perun s channel_capacity i parts + length parts * reserved ds)
            % u64_mod
    unfolding pay_parties all_dropped credits
    pay_parties-paid i [] calls r d h = ground arith
    pay_parties-paid i (part ∷ parts) calls r d h =
        let (m, e, f) = >>=-eq-ok (pay_party sdk perun s channel_capacity i part calls) _ h in
        omega (
          arith,
          pay_party-paid i part calls m d e,
          pay_parties-paid (i + 1) parts m r d f,
          reserved_more (length parts) (reserved ds),
        )
