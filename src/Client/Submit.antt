-- ===== src/Client/Submit.antt =====
-- How client/ckbclient.go makes a builder with its iterators, takes a channel token, and submits.
pub mod Awaits
use perun_ckb_backend.Prelude.{
  ℕ, zero, suc, ◌==◌, not, Bool, true, false, Option, none, some, List, [], ◌∷◌, ◌++◌, Result, ok,
  err, if◌then◌else◌,
}
use perun_ckb_backend.Prelude.GoMap
use perun_ckb_backend.Prelude.GoMap.{GoMap}
use perun_ckb_backend.Ckb.{Script, OutPoint, CellOutput, TransactionInput}
use perun_ckb_backend.CellIterator.{
  Base, CellIterator, ckb_only, filtered, new_filtered_cell_iterator, has_next, next, size,
}
use perun_ckb_backend.Transaction.Funds.{TxError, zero_hash}
use perun_ckb_backend.Transaction.Builder.{Builder}
use perun_ckb_backend.Transaction.Build.{Built, new_transaction_builder, build}
use perun_ckb_backend.Transaction.Handler.{Call}
use perun_ckb_backend.Client.{
  Context, ClientError, Rpc, SearchKey, lock_script, type_script, exact, prefix,
  TransactionWithStatus, TransactionStatus, World, M, pure, fail, ◌>>=◌, ◌>>◌, give, deref,
}
use perun_ckb_backend.Client.Config.{Client}
use perun_ckb_backend.Client.Calls.{rpc, after_call}

-- An error of the builder, passed on.
unfoldable pub built : {A : Type 0} → Result TxError A → Result ClientError A
built (ok a) = ok a
built (err e) = err (ClientError.building e)

module _ {W T C : Type 0} (cl : Client W T C) (ctx : Context) where
  -- A call of this client's node.
  unfoldable pub ask : {A : Type 0} → Rpc W A → M W T A
  ask call = rpc cl.sdk cl.node cl.others ctx call

  -- What is read from the node when an object of the SDK is made.
  unfoldable pub observe : {A : Type 0} → (W → A) → M W T A
  observe read w = (ok (read w.node_state), w)

  -- `mkMyCKBCellIterator`, without the hash that its callers drop.
  unfoldable pub mk_my_ckb_cell_iterator : M W T CellIterator
  unfolding observe
  mk_my_ckb_cell_iterator = do
    base ← observe (
        cl.collectors.live_cell_iterator
          (record { script = cl.signer.address; script_type = lock_script; search_mode = exact }))
    pure (ckb_only base)

  -- The iterators for UDTs in `iteratorsForDeployment`: cells that the sender's lock script guards.
  unfoldable pub udt_iterators : GoMap Script → GoMap CellIterator → W → GoMap CellIterator
  udt_iterators [] iters v = iters
  udt_iterators ((_, udt) ∷ udts) iters v =
      let base =
        cl.collectors.live_cell_iterator
          (record { script = udt; script_type = type_script; search_mode = prefix }) v in
      let owned = λ (cell : CellOutput).
        cl.sdk.script_hash cell.lock == cl.sdk.script_hash cl.signer.address in
      udt_iterators udts
        (GoMap.insert (cl.sdk.script_hash udt) (filtered (new_filtered_cell_iterator base owned))
          iters)
        v

  -- `iteratorsForDeployment` from the iterator of the sender's cells.
  unfoldable pub iterators_from : Option Base → M W T (GoMap CellIterator)
  unfolding observe udt_iterators
  iterators_from none = fail ClientError.encoding_failed
  iterators_from (some base) =
      observe (udt_iterators cl.deployment.sudts ((zero_hash, ckb_only base) ∷ []))

  -- `iteratorsForDeployment` from the text form of the sender's address.
  unfoldable pub iterators_for_address : Option (List ℕ) → M W T (GoMap CellIterator)
  unfolding observe iterators_from
  iterators_for_address none = fail ClientError.encoding_failed
  iterators_for_address (some text) =
      observe (cl.collectors.iterator_from_address text) >>= iterators_from

  -- `iteratorsForDeployment`
  unfoldable pub iterators_for_deployment : M W T (GoMap CellIterator)
  unfolding iterators_for_address
  iterators_for_deployment = iterators_for_address cl.signer.encoded_address

  -- The loop of `newPerunTransactionBuilder` over the iterators that override.
  unfoldable pub override_iterators : GoMap CellIterator → GoMap CellIterator → GoMap CellIterator
  override_iterators [] iters = iters
  override_iterators ((hash, iter) ∷ rest) iters =
      override_iterators rest (GoMap.insert hash iter iters)

  -- `newPerunTransactionBuilder`
  unfoldable pub new_perun_transaction_builder : GoMap CellIterator → M W T Builder
  unfolding iterators_for_deployment override_iterators built
  new_perun_transaction_builder given = do
    iters ← iterators_for_deployment
    let omni = not (cl.signer.address.code_hash == cl.deployment.default_lock_script.code_hash)
    give (
        built (
          new_transaction_builder cl.deployment (override_iterators given iters) cl.signer.address
            omni))

  -- `builder.Build(c.signer.Contexts())` after the calls of the handler.
  unfoldable pub build_transaction : List Call → Builder → M W T Built
  unfolding observe built
  build_transaction calls b = do
    live ← observe cl.collectors.live_cell
    give (
        built (
          build cl.sdk cl.collectors.script_handlers live cl.collectors.order
            (cl.signer.contexts ∷ []) (cl.collectors.assemble calls b)))

  -- The wait for the next tick in `sendAndAwait`, which says whether the context ended.
  unfoldable pub tick : M W T Bool
  tick w =
      let (ended, v) = cl.node.wait ctx w.node_state in (ok ended, after_call cl.sdk cl.others v w)

  -- A round of the loop of `sendAndAwait`, with the poll that may follow. A missing reason panics.
  unfoldable pub await_round : M W T (Unit {0}) → TransactionStatus → M W T (Unit {0})
  unfolding tick
  await_round poll TransactionStatus.committed = pure tt
  await_round poll (TransactionStatus.rejected reason) =
      deref reason >>= λ r. fail ClientError.rejected
  await_round poll TransactionStatus.pending =
      tick >>= λ ended. if ended then fail ClientError.context_done else poll

  -- The loop of `sendAndAwait`. The fuel bounds its rounds.
  unfoldable pub await : ℕ → ℕ → TransactionWithStatus → M W T (Unit {0})
  unfolding await_round ask
  await zero hash s = fail ClientError.out_of_fuel
  await (suc fuel) hash s =
      await_round (ask (cl.node.get_transaction ctx hash) >>= await fuel hash) s.status

  -- The transaction is handed to the node.
  unfoldable pub log_sent : T → M W T (Unit {0})
  log_sent tx w = (ok tt, record w { sent = w.sent ++ tx ∷ [] })

  -- `sendAndAwait`
  unfoldable pub send_and_await : T → M W T (Unit {0})
  unfolding log_sent ask await
  send_and_await tx = do
    log_sent tx
    hash ← ask (cl.node.send_transaction ctx tx)
    status ← ask (cl.node.get_transaction ctx hash)
    await cl.await_fuel hash status

  -- `submitTx` after signing.
  unfoldable pub submit_signed : Option T → M W T (Unit {0})
  unfolding send_and_await
  submit_signed none = fail ClientError.sign_failed
  submit_signed (some signed) = send_and_await signed

  -- `submitTx`
  unfoldable pub submit_tx : Built → M W T (Unit {0})
  unfolding submit_signed
  submit_tx tx = submit_signed (cl.signer.sign_transaction tx)

  -- A builder is made, the handler makes its calls, and the transaction is built and submitted.
  unfoldable pub submit_calls : GoMap CellIterator → Result TxError (List Call) → M W T (Unit {0})
  unfolding new_perun_transaction_builder built build_transaction submit_tx
  submit_calls given calls = do
    b ← new_perun_transaction_builder given
    calls ← give (built calls)
    tx ← build_transaction calls b
    submit_tx tx

  -- `GetLiveCell` with its retries in `createOrGetChannelToken`, whose errors are skipped.
  unfoldable pub try_live_cell : OutPoint → M W T (Option CellOutput)
  unfolding ask
  try_live_cell o w =
      let (r, v) = ask (cl.node.get_live_cell ctx o) w in
      (ok (elim r [ ok cell ↦ cell | err e ↦ none ]), v)

  -- Is the cell guarded by the signer's lock script?
  unfoldable pub is_own : Option CellOutput → Bool
  is_own none = false
  is_own (some cell) = cl.sdk.script_hash cell.lock == cl.sdk.script_hash cl.signer.address

  -- The loop of `createOrGetChannelToken`: the out point of the first own cell, and what is left of the
  -- iterator. The fuel bounds its rounds.
  unfoldable pub find_token : ℕ → CellIterator → M W T (OutPoint × CellIterator)
  unfolding try_live_cell is_own
  find_token zero iter = fail ClientError.out_of_fuel
  find_token (suc fuel) iter =
      let (more, iter) = has_next iter in
      let (cell, iter) = next iter in
      let later = find_token fuel iter in
      if more
      then (do
        input ← deref cell
        live ← try_live_cell input.out_point
        if is_own live then pure (input.out_point, iter) else later)
      else fail ClientError.no_token

  -- `createOrGetChannelToken`
  unfoldable pub create_or_get_channel_token : CellIterator → M W T (OutPoint × CellIterator)
  unfolding find_token
  create_or_get_channel_token iter =
      let (more, iter) = has_next iter in
      if more then find_token (suc (size iter)) iter else fail ClientError.no_funds
