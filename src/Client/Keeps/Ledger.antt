-- ===== src/Client/Keeps/Ledger.antt =====
-- The methods for ledger channels forget no script of the caches, nor do those that submit.
use perun_ckb_backend.Prelude.{ℕ, zero, suc, Option, none, some, List, [], ◌∷◌, Result}
use perun_ckb_backend.Prelude.GoMap.{GoMap}
use perun_ckb_backend.Ckb.{Script, OutPoint}
use perun_ckb_backend.CellIterator.{Base, CellIterator, has_next, next, size}
use perun_ckb_backend.Perun.{State, Params}
use perun_ckb_backend.Transaction.Funds.{TxError}
use perun_ckb_backend.Transaction.Builder.{Builder}
use perun_ckb_backend.Transaction.Build.{Built}
use perun_ckb_backend.Transaction.Handler.{Call, ChannelStatus}
use perun_ckb_backend.Client.{
  Context, ClientError, Rpc, LiveCell, TransactionWithStatus, TransactionStatus, M,
}
use perun_ckb_backend.Client.Config.{Client}
use perun_ckb_backend.Client.Stable.{
  Grows-refl, Keeps, pure-Keeps, fail-Keeps, deref-Keeps, bind-Keeps, if-Keeps, rpc-Keeps,
  after_call-Grows, keeping,
}
use perun_ckb_backend.Client.Cells.Keeps.{
  get_exact_channel_live_cell-Keeps, get_channel_live_cell_with_cache-Keeps,
}
use perun_ckb_backend.Client.Submit.{
  ask, observe, mk_my_ckb_cell_iterator, iterators_from, iterators_for_address,
  iterators_for_deployment, new_perun_transaction_builder, build_transaction, tick, await_round,
  await, log_sent, send_and_await, submit_signed, submit_tx, submit_calls, try_live_cell, is_own,
  find_token, create_or_get_channel_token,
}
use perun_ckb_backend.Client.Channel.{
  tip_header, exact_cell, cached_cell, two_signatures, get_assets, start, fund, dispute_newer,
  dispute, gather, close, block_of, force_close, abort,
}

module _ {W T C : Type 0} (cl : Client W T C) (ctx : Context) where
  pub ask-Keeps : {A : Type 0} (call : Rpc W A) → Keeps (ask cl ctx call)
  unfolding ask
  ask-Keeps call = rpc-Keeps cl.sdk cl.others cl.node ctx call

  observe-Keeps : {A : Type 0} (read : W → A) → Keeps (observe cl ctx read)
  unfolding observe
  observe-Keeps read = record { grows = Grows-refl }

  mk_my_ckb_cell_iterator-Keeps : Keeps (mk_my_ckb_cell_iterator cl ctx)
  unfolding mk_my_ckb_cell_iterator
  mk_my_ckb_cell_iterator-Keeps = search (keeping, observe-Keeps)

  iterators_from-Keeps : (base : Option Base) → Keeps (iterators_from cl ctx base)
  unfolding iterators_from
  iterators_from-Keeps none = search keeping
  iterators_from-Keeps (some base) = observe-Keeps _

  iterators_for_address-Keeps : (text : Option (List ℕ)) → Keeps (iterators_for_address cl ctx text)
  unfolding iterators_for_address
  iterators_for_address-Keeps none = search keeping
  iterators_for_address-Keeps (some text) = search (keeping, observe-Keeps, iterators_from-Keeps)

  iterators_for_deployment-Keeps : Keeps (iterators_for_deployment cl ctx)
  unfolding iterators_for_deployment
  iterators_for_deployment-Keeps = iterators_for_address-Keeps cl.signer.encoded_address

  pub new_perun_transaction_builder-Keeps :
      (given : GoMap CellIterator) → Keeps (new_perun_transaction_builder cl ctx given)
  unfolding new_perun_transaction_builder
  new_perun_transaction_builder-Keeps given = search (keeping, iterators_for_deployment-Keeps)

  pub build_transaction-Keeps :
      (calls : List Call) (b : Builder) → Keeps (build_transaction cl ctx calls b)
  unfolding build_transaction
  build_transaction-Keeps calls b = search (keeping, observe-Keeps)

  tick-Keeps : Keeps (tick cl ctx)
  unfolding tick
  tick-Keeps = record { grows = λ w. after_call-Grows cl.sdk cl.others _ w }

  log_sent-Keeps : (tx : T) → Keeps (log_sent cl ctx tx)
  unfolding log_sent
  log_sent-Keeps tx = record {
    grows = λ w. record { channels = λ j t h. h; virtual_channels = λ j t h. h };
  }

  await_round-Keeps :
      (poll : M W T (Unit {0})) (s : TransactionStatus)
      → Keeps poll
      → Keeps (await_round cl ctx poll s)
  unfolding await_round
  await_round-Keeps poll TransactionStatus.committed k = search keeping
  await_round-Keeps poll (TransactionStatus.rejected reason) k = search keeping
  await_round-Keeps poll TransactionStatus.pending k =
      bind-Keeps _ _ tick-Keeps (λ ended. if-Keeps ended _ _ (fail-Keeps _) k)

  await-Keeps : (fuel hash : ℕ) (s : TransactionWithStatus) → Keeps (await cl ctx fuel hash s)
  unfolding await
  await-Keeps zero hash s = search keeping
  await-Keeps (suc fuel) hash s =
      await_round-Keeps _ s.status (bind-Keeps _ _ (ask-Keeps _) (λ t. await-Keeps fuel hash t))

  send_and_await-Keeps : (tx : T) → Keeps (send_and_await cl ctx tx)
  unfolding send_and_await
  send_and_await-Keeps tx = search (keeping, log_sent-Keeps, ask-Keeps, await-Keeps)

  submit_signed-Keeps : (t : Option T) → Keeps (submit_signed cl ctx t)
  unfolding submit_signed
  submit_signed-Keeps none = search keeping
  submit_signed-Keeps (some t) = send_and_await-Keeps t

  pub submit_tx-Keeps : (tx : Built) → Keeps (submit_tx cl ctx tx)
  unfolding submit_tx
  submit_tx-Keeps tx = submit_signed-Keeps (cl.signer.sign_transaction tx)

  pub submit_calls-Keeps :
      (given : GoMap CellIterator) (calls : Result TxError (List Call))
      → Keeps (submit_calls cl ctx given calls)
  unfolding submit_calls
  submit_calls-Keeps given calls =
      search
        (keeping, new_perun_transaction_builder-Keeps, build_transaction-Keeps, submit_tx-Keeps)

  try_live_cell-Keeps : (o : OutPoint) → Keeps (try_live_cell cl ctx o)
  unfolding try_live_cell
  try_live_cell-Keeps o = record { grows = λ w. (ask-Keeps (cl.node.get_live_cell ctx o)).grows w }

  find_token-Keeps : (fuel : ℕ) (iter : CellIterator) → Keeps (find_token cl ctx fuel iter)
  unfolding find_token
  find_token-Keeps zero iter = search keeping
  find_token-Keeps (suc fuel) iter =
      let rest = (next (has_next iter).1).1 in
      let later = find_token-Keeps fuel rest in
      if-Keeps (has_next iter).0 _ _
        (bind-Keeps _ _ (deref-Keeps _) (λ input.
          bind-Keeps _ _ (try_live_cell-Keeps input.out_point)
            (λ live. if-Keeps (is_own cl ctx live) _ _ (pure-Keeps _) later)))
        (fail-Keeps ClientError.no_token)

  create_or_get_channel_token-Keeps :
      (iter : CellIterator) → Keeps (create_or_get_channel_token cl ctx iter)
  unfolding create_or_get_channel_token
  create_or_get_channel_token-Keeps iter =
      if-Keeps (has_next iter).0 _ _
        (find_token-Keeps (suc (size (has_next iter).1)) (has_next iter).1)
        (fail-Keeps ClientError.no_funds)

  pub start-Keeps : (params : Params) (state : State) → Keeps (start cl ctx params state)
  unfolding start
  start-Keeps params state = search (
    keeping, mk_my_ckb_cell_iterator-Keeps, create_or_get_channel_token-Keeps, submit_calls-Keeps,
  )

  pub tip_header-Keeps : Keeps (tip_header cl ctx)
  unfolding tip_header
  tip_header-Keeps = ask-Keeps _

  exact_cell-Keeps : (pcts : Script) → Keeps (exact_cell cl ctx pcts)
  unfolding exact_cell
  exact_cell-Keeps pcts =
      get_exact_channel_live_cell-Keeps cl.sdk cl.formats cl.deployment cl.node cl.others ctx pcts

  pub cached_cell-Keeps : (id : ℕ) → Keeps (cached_cell cl ctx id)
  unfolding cached_cell
  cached_cell-Keeps id =
      get_channel_live_cell_with_cache-Keeps cl.sdk cl.formats cl.deployment cl.node cl.others ctx
        id

  pub two_signatures-Keeps : (sigs : List (List ℕ)) → Keeps (two_signatures cl ctx sigs)
  unfolding two_signatures
  two_signatures-Keeps [] = search keeping
  two_signatures-Keeps (a ∷ []) = search keeping
  two_signatures-Keeps (a ∷ b ∷ []) = search keeping
  two_signatures-Keeps (a ∷ b ∷ c ∷ rest) = search keeping

  pub get_assets-Keeps : (pcts : Script) → Keeps (get_assets cl ctx pcts)
  unfolding get_assets
  get_assets-Keeps pcts = ask-Keeps _

  pub block_of-Keeps : (cell : LiveCell) → Keeps (block_of cl ctx cell)
  unfolding block_of
  block_of-Keeps cell = search (keeping, ask-Keeps)

  gather-Keeps : (cell : LiveCell) → Keeps (gather cl ctx cell)
  unfolding gather
  gather-Keeps cell = search (keeping, get_assets-Keeps, tip_header-Keeps)

  pub fund-Keeps :
      (pcts : Script) (state : State) (params : Params) → Keeps (fund cl ctx pcts state params)
  unfolding fund
  fund-Keeps pcts state params =
      search (keeping, exact_cell-Keeps, tip_header-Keeps, submit_calls-Keeps)

  dispute_newer-Keeps :
      (found : LiveCell × ChannelStatus) (header : ℕ) (sigs : List ℕ × List ℕ) (state : State)
      → Keeps (dispute_newer cl ctx found header sigs state)
  unfolding dispute_newer
  dispute_newer-Keeps found header sigs state = search (keeping, submit_calls-Keeps)

  pub dispute-Keeps :
      (id : ℕ) (state : State) (sigs : List (List ℕ)) (params : Params)
      → Keeps (dispute cl ctx id state sigs params)
  unfolding dispute
  dispute-Keeps id state sigs params =
      search
        (
          keeping, cached_cell-Keeps, tip_header-Keeps, two_signatures-Keeps, if-Keeps,
          dispute_newer-Keeps,
        )
        depth 9

  pub close-Keeps :
      (id : ℕ) (state : State) (sigs : List (List ℕ)) (params : Params)
      → Keeps (close cl ctx id state sigs params)
  unfolding close
  close-Keeps id state sigs params =
      search (keeping, cached_cell-Keeps, gather-Keeps, submit_calls-Keeps)

  pub force_close-Keeps :
      (id : ℕ) (state : State) (params : Params) → Keeps (force_close cl ctx id state params)
  unfolding force_close
  force_close-Keeps id state params =
      search (keeping, cached_cell-Keeps, gather-Keeps, block_of-Keeps, submit_calls-Keeps)

  pub abort-Keeps :
      (script : Script) (params : Params) (state : State) → Keeps (abort cl ctx script params state)
  unfolding abort
  abort-Keeps script params state =
      search (keeping, exact_cell-Keeps, gather-Keeps, submit_calls-Keeps)
