-- ===== src/Client/Submit/Awaits.antt =====
-- The wait of `sendAndAwait` for a transaction.
use perun_ckb_backend.Prelude.{
  ℕ, zero, suc, ◌<◌, ◌≡◌, refl, ◌∙◌, subst, ◌↔◌, ◌⊎◌, inl, inr, false, ok, arith, Bool-cases,
}
use perun_ckb_backend.Client.{
  Context, TransactionWithStatus, TransactionStatus, World, M, pure, fail, deref,
}
use perun_ckb_backend.Client.Config.{Client}
use perun_ckb_backend.Client.Steps.{>>=-eq-ok, >>=-run, pure-eq-ok}
use perun_ckb_backend.Client.Submit.{ask, tick, await, await_round}

module _ {W T C : Type 0} (cl : Client W T C) (ctx : Context) (hash : ℕ) where
  -- A number of rounds in which the transaction was pending, the next tick came before the end of the
  -- context, and the node answered, from one status to another.
  pub data Polls
      : ℕ → TransactionWithStatus → World W T → TransactionWithStatus → World W T → Type 0 where
    no_poll : {s : TransactionWithStatus} {w : World W T} → Polls zero s w s w
    poll :
        {n : ℕ} {s t r : TransactionWithStatus} {w u x v : World W T}
        → s.status ≡ TransactionStatus.pending
        → tick cl ctx w ≡ (ok false, u)
        → ask cl ctx (cl.node.get_transaction ctx hash) u ≡ (ok t, x)
        → Polls n t x r v
        → Polls (suc n) s w r v

  -- What a round that succeeded was.
  round :
      (next : M W T (Unit {0})) (s : TransactionStatus) (w v : World W T)
      → await_round cl ctx next s w ≡ (ok tt, v)
      → ((s ≡ TransactionStatus.committed) × (w ≡ v))
        ⊎ ((u : World W T) × (s ≡ TransactionStatus.pending)
            × (tick cl ctx w ≡ (ok false, u))
            × (next u ≡ (ok tt, v)))
  unfolding await_round fail
  round next TransactionStatus.committed w v h = inl (refl, (pure-eq-ok tt w v tt h).1)
  round next (TransactionStatus.rejected reason) w v h =
      let (r, u, e, g) = >>=-eq-ok (deref reason) _ w v tt h in absurd (ground arith)
  round next TransactionStatus.pending w v h =
      let (ended, u, e, g) = >>=-eq-ok (tick cl ctx) _ w v tt h in
      elim (Bool-cases ended) [
        | inl b ↦ absurd (ground arith)
        | inr b ↦ inr (u, refl, rw b at e, ground arith)
      ]

  awaited :
      (fuel : ℕ) (s : TransactionWithStatus) (w v : World W T)
      → await cl ctx fuel hash s w ≡ (ok tt, v)
      → (k : ℕ) × (t : TransactionWithStatus) × (k < fuel)
        × Polls k s w t v
        × (t.status ≡ TransactionStatus.committed)
  unfolding await fail
  awaited zero s w v h = absurd (ground arith)
  awaited (suc fuel) s w v h = elim (round _ s.status w v h) [
    | inl (c, e) ↦ (0, s, omega arith, subst (Polls 0 s w s) e no_poll, c)
    | inr (u, p, e, g) ↦
        let (t, x, q, r) = >>=-eq-ok _ (await cl ctx fuel hash) u v tt g in
        let (k, z, l, polls, c) = awaited fuel t x v r in
        (suc k, z, omega arith, poll p e q polls, c)
  ]

  again :
      (next : M W T (Unit {0})) (s : TransactionStatus) (w u : World W T)
      → s ≡ TransactionStatus.pending
      → tick cl ctx w ≡ (ok false, u)
      → await_round cl ctx next s w ≡ next u
  unfolding await_round
  again next s w u p e = rw p (>>=-run (tick cl ctx) _ w u false e)

  done :
      (next : M W T (Unit {0})) (s : TransactionStatus) (w : World W T)
      → s ≡ TransactionStatus.committed
      → await_round cl ctx next s w ≡ (ok tt, w)
  unfolding await_round pure
  done next s w c = rw c refl

  commits :
      (fuel k : ℕ) (s t : TransactionWithStatus) (w v : World W T)
      → k < fuel
      → Polls k s w t v
      → t.status ≡ TransactionStatus.committed
      → await cl ctx fuel hash s w ≡ (ok tt, v)
  unfolding await
  commits zero k s t w v l p c = absurd (omega arith)
  commits (suc fuel) zero s t w v l no_poll c = done _ s.status w c
  commits (suc fuel) (suc k) s t w v l (poll p e q rest) c =
      again _ s.status w _ p e
      ∙ >>=-run _ (await cl ctx fuel hash) _ _ _ q
      ∙ commits fuel k _ t _ v (omega arith) rest c

  -- The wait succeeds exactly if some status of the transaction is that it is committed: the first one,
  -- or one that a later poll returned, after rounds in which it was pending, the next tick came before
  -- the end of the context, and the node answered. The rounds are fewer than the fuel.
  pub await-commits :
      (fuel : ℕ) (s : TransactionWithStatus) (w v : World W T)
      → (await cl ctx fuel hash s w ≡ (ok tt, v)) ↔ (
          (k : ℕ) × (t : TransactionWithStatus) × (k < fuel)
          × Polls k s w t v
          × (t.status ≡ TransactionStatus.committed))
  await-commits fuel s w v = (awaited fuel s w v, λ r. commits fuel r.0 s r.1 w v r.2 r.3 r.4)
