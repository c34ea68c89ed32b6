-- ===== src/Transaction/Handler/Settle.antt =====
-- The capacity of the outputs of the transactions of a ledger channel in transaction/handler.go.
use perun_ckb_backend.Prelude.{
  ℕ, ◌+◌, ◌*◌, ◌%◌, ◌≤◌, ◌==◌, ◌≡◌, refl, ◌∙◌, ◌⊎◌, inl, inr, ◌||◌, List, [], ◌∷◌, ◌++◌, ok,
  >>=-eq-ok, arith, Bool-cases, subst, leb, length, check,
}
use perun_ckb_backend.Prelude.Words.{u64_mod}
use perun_ckb_backend.Ckb.{Script, CellInput, Sdk}
use perun_ckb_backend.Perun.{State, GoPerun}
use perun_ckb_backend.Encoding.Signature.{Curve}
use perun_ckb_backend.Encoding.State.{SudtDistribution, get_sudt_balances}
use perun_ckb_backend.Transaction.Funds.{TxError}
use perun_ckb_backend.Transaction.Handler.{
  Call, cell_dep, header_dep, input_cell, witness, Collector, PerunScriptHandler, Molecule,
  ChannelWitness, add_cell_dep, add_header_dep, add_output, add_input, add_inputs, add_cell_deps,
  add_header_deps, set_witness, add_omni_deps, mk_payment_output, encoded,
}
use perun_ckb_backend.Transaction.Handler.Payout.{
  get_ckbyte_balance, add_assets_to_outputs, pay_parties,
}
use perun_ckb_backend.Transaction.Handler.Ledger.{
  CloseInfo, spend_channel, mk_witness_close, build_close_transaction,
  build_force_close_transaction, lock_funds,
}
use perun_ckb_backend.Transaction.Handler.Paid.{
  paid, reserved, credits, all_dropped, paid-append, paid-payment, add_asset_outputs-paid,
  pay_parties-paid,
}

-- A call that adds no output.
paid-other :
    (call : Call) (calls : List Call)
    → paid (call ∷ []) ≡ 0
    → paid (calls ++ call ∷ []) ≡ paid calls
paid-other call calls h = omega (arith, paid-append calls (call ∷ []), h)

pub paid-add_cell_dep : (d : ℕ) (calls : List Call) → paid (add_cell_dep d calls) ≡ paid calls
unfolding add_cell_dep paid
paid-add_cell_dep d calls = paid-other (cell_dep d) calls refl

pub paid-add_header_dep : (h : ℕ) (calls : List Call) → paid (add_header_dep h calls) ≡ paid calls
unfolding add_header_dep paid
paid-add_header_dep h calls = paid-other (header_dep h) calls refl

pub paid-add_input : (x : CellInput) (calls : List Call) → paid (add_input x calls) ≡ paid calls
unfolding add_input paid
paid-add_input x calls = paid-other (input_cell x) calls refl

pub paid-add_cell_deps :
    (ds : List ℕ) (calls : List Call) → paid (add_cell_deps ds calls) ≡ paid calls
unfolding add_cell_deps
paid-add_cell_deps [] calls = refl
paid-add_cell_deps (d ∷ ds) calls =
    paid-add_cell_deps ds (add_cell_dep d calls) ∙ paid-add_cell_dep d calls

pub paid-add_header_deps :
    (hs : List ℕ) (calls : List Call) → paid (add_header_deps hs calls) ≡ paid calls
unfolding add_header_deps
paid-add_header_deps [] calls = refl
paid-add_header_deps (h ∷ hs) calls =
    paid-add_header_deps hs (add_header_dep h calls) ∙ paid-add_header_dep h calls

pub paid-add_inputs :
    (xs : List CellInput) (calls : List Call) → paid (add_inputs xs calls) ≡ paid calls
unfolding add_inputs
paid-add_inputs [] calls = refl
paid-add_inputs (x ∷ xs) calls = paid-add_inputs xs (add_input x calls) ∙ paid-add_input x calls

pub paid-add_omni_deps :
    (ds : List ℕ) (calls r : List Call) → add_omni_deps ds calls ≡ ok r → paid r ≡ paid calls
unfolding add_omni_deps
paid-add_omni_deps [] calls r h = ground arith
paid-add_omni_deps (d ∷ []) calls r h = absurd (ground arith)
paid-add_omni_deps (d ∷ e ∷ ds) calls r h =
    subst (λ xs. paid xs ≡ paid calls) {x = add_cell_dep e (add_cell_dep d calls)} {y = r}
      (ground arith) (paid-add_cell_dep e (add_cell_dep d calls) ∙ paid-add_cell_dep d calls)

pub paid-set_witness :
    (c : Collector) (i : ℕ) (bytes : List ℕ) (calls r : List Call)
    → set_witness c i bytes calls ≡ ok r
    → paid r ≡ paid calls
unfolding set_witness paid
paid-set_witness c i bytes calls r h = elim (Bool-cases (c.has_witness calls i)) [
  | inl e ↦
      subst (λ xs. paid xs ≡ paid calls) {x = calls ++ witness i bytes ∷ []} {y = r} (ground arith)
        (paid-other (witness i bytes) calls refl)
  | inr e ↦ absurd (ground arith)
]

module _ (sdk : Sdk) (perun : GoPerun) (mol : Molecule) (psh : PerunScriptHandler)
    (c : Collector) where
  pub paid-spend_channel :
      (info : CloseInfo) (calls r : List Call) (i : ℕ)
      → spend_channel sdk perun mol psh c info calls ≡ ok (i, r)
      → paid r ≡ paid calls
  unfolding spend_channel
  paid-spend_channel info calls r i h =
      let (m, e, f) = >>=-eq-ok (add_omni_deps psh.omni_lock_script_dep calls) _ h in
      let deps =
        add_cell_dep psh.pfls_dep (add_cell_dep psh.pcls_dep (add_cell_dep psh.pcts_dep m)) in
      let spent = add_input info.channel_input (add_cell_deps psh.sudt_deps deps) in
      subst (λ xs. paid xs ≡ paid calls)
        {x = add_header_deps info.headers (add_inputs info.asset_inputs spent)} {y = r} (cc)
        (paid-add_header_deps info.headers (add_inputs info.asset_inputs spent)
          ∙ paid-add_inputs info.asset_inputs spent
          ∙ paid-add_input info.channel_input (add_cell_deps psh.sudt_deps deps)
          ∙ paid-add_cell_deps psh.sudt_deps deps
          ∙ paid-add_cell_dep psh.pfls_dep (add_cell_dep psh.pcls_dep (add_cell_dep psh.pcts_dep m))
          ∙ paid-add_cell_dep psh.pcls_dep (add_cell_dep psh.pcts_dep m)
          ∙ paid-add_cell_dep psh.pcts_dep m
          ∙ paid-add_omni_deps psh.omni_lock_script_dep calls m e)

  -- If a close transaction is built, the capacity of its outputs, with what is dropped, is what the
  -- parties are owed in CKBytes with the capacity of the channel's cell, and each party's cells for
  -- the SUDTs, modulo 2 ^ 64.
  pub build_close_transaction-paid :
      (curve : Curve) (info : CloseInfo) (ds : List SudtDistribution) (r : List Call)
      → encoded (get_sudt_balances sdk perun info.state info.state.assets) ≡ ok ds
      → build_close_transaction sdk perun mol psh c curve info [] ≡ ok r
      → (paid r + all_dropped sdk perun info.state info.channel_capacity ds 0 info.params.parts)
          % u64_mod
        ≡ (credits sdk perun info.state info.channel_capacity 0 info.params.parts
            + length info.params.parts * reserved ds)
          % u64_mod
  unfolding build_close_transaction paid
  build_close_transaction-paid curve info ds r d h =
      let (spent, e, f) = >>=-eq-ok (spend_channel sdk perun mol psh c info []) _ h in
      let (m, g, k) =
        >>=-eq-ok
          (pay_parties sdk perun info.state info.channel_capacity 0 info.params.parts spent.1) _
          f in
      let (bytes, n, q) =
        >>=-eq-ok (mk_witness_close sdk perun mol psh c curve info.state info.padded_signatures) _
          k in
      omega (
        arith,
        paid-spend_channel info [] spent.1 spent.0 e,
        pay_parties-paid sdk perun info.state info.channel_capacity ds 0 info.params.parts spent.1 m
            d g,
        paid-set_witness c spent.0 bytes m r q,
      )

  -- If a force-close transaction is built, the capacity of its outputs, with what is dropped, is what
  -- the parties are owed in CKBytes with the capacity of the channel's cell, and each party's cells
  -- for the SUDTs, modulo 2 ^ 64.
  pub build_force_close_transaction-paid :
      (info : CloseInfo) (ds : List SudtDistribution) (r : List Call)
      → encoded (get_sudt_balances sdk perun info.state info.state.assets) ≡ ok ds
      → build_force_close_transaction sdk perun mol psh c info [] ≡ ok r
      → (paid r + all_dropped sdk perun info.state info.channel_capacity ds 0 info.params.parts)
          % u64_mod
        ≡ (credits sdk perun info.state info.channel_capacity 0 info.params.parts
            + length info.params.parts * reserved ds)
          % u64_mod
  unfolding build_force_close_transaction paid
  build_force_close_transaction-paid info ds r d h =
      let (spent, e, f) = >>=-eq-ok (spend_channel sdk perun mol psh c info []) _ h in
      let (m, g, k) =
        >>=-eq-ok
          (pay_parties sdk perun info.state info.channel_capacity 0 info.params.parts spent.1) _
          f in
      omega (
        arith,
        paid-spend_channel info [] spent.1 spent.0 e,
        pay_parties-paid sdk perun info.state info.channel_capacity ds 0 info.params.parts spent.1 m
            d g,
        paid-set_witness c spent.0 (mol.witness_bytes ChannelWitness.force_close) m r k,
      )

  -- If a party's funds are locked, its balance is nothing or at least the minimum, and the outputs
  -- grow by that balance and the capacity of its cells for the SUDTs, modulo 2 ^ 64.
  pub lock_funds-paid :
      (s : State) (index : ℕ) (lock : Script) (ds : List SudtDistribution) (calls r : List Call)
      → encoded (get_sudt_balances sdk perun s s.assets) ≡ ok ds
      → lock_funds sdk perun mol psh c s index lock calls ≡ ok r
      → (balance : ℕ) × (get_ckbyte_balance sdk perun index s ≡ ok balance)
        × ((balance ≡ 0) ⊎ (psh.pfls_min_capacity ≤ balance))
        × (paid r % u64_mod ≡ (paid calls + balance + reserved ds) % u64_mod)
  unfolding lock_funds add_assets_to_outputs
  lock_funds-paid s index lock ds calls r d h =
      let (balance, e, f) = >>=-eq-ok (get_ckbyte_balance sdk perun index s) _ h in
      let (_, g, k) =
        >>=-eq-ok (check (leb psh.pfls_min_capacity balance || balance == 0) TxError.below_minimum)
          _ f in
      let (es, q, t) = >>=-eq-ok (encoded (get_sudt_balances sdk perun s s.assets)) _ k in
      let same : es ≡ ds = ground arith in
      let out =
        add_asset_outputs-paid sdk es index lock 0
          (add_output (mk_payment_output lock balance) [] calls) r t (inl refl) in
      (
        balance,
        e,
        at_least balance g,
        subst (λ xs. paid r % u64_mod ≡ (paid calls + balance + reserved xs) % u64_mod) same
            (omega (arith, out, paid-payment sdk lock balance calls)),
      )
    where
      at_least :
          (n : ℕ)
          → check (leb psh.pfls_min_capacity n || n == 0) TxError.below_minimum ≡ ok tt
          → (n ≡ 0) ⊎ (psh.pfls_min_capacity ≤ n)
      at_least n h = elim (Bool-cases (n == 0)) [
        | inl e ↦ inl (ground arith)
        | inr e ↦ inr (ground arith)
      ]
