-- ===== src/Client/Silent.antt =====
-- A dispute hands a transaction to the node only for a newer state.
use perun_ckb_backend.Prelude.{
  ℕ, suc, zero, ◌<◌, ◌≡◌, ◌≢◌, refl, ◌∙◌, Bool, true, false, Option, none, some, List, [], ◌∷◌,
  Result, ok, err, Result-cases, Bool-cases, inl, inr, arith, if◌then◌else◌, ltb,
}
use perun_ckb_backend.Ckb.{Script, Sdk}
use perun_ckb_backend.Perun.{State, Params}
use perun_ckb_backend.Deployment.{Deployment}
use perun_ckb_backend.Transaction.Handler.{ChannelStatus}
use perun_ckb_backend.Client.{
  Context, ClientError, LiveCell, Rpc, Node, World, Formats, Others, M, pure, fail, next_step,
  ◌>>=◌, give, deref,
}
use perun_ckb_backend.Client.Config.{Client}
use perun_ckb_backend.Client.Calls.{after_call, rpc}
use perun_ckb_backend.Client.Versions.{check_version}
use perun_ckb_backend.Client.Cells.{
  get_exact_channel_live_cell, get_all_channel_live_cells, get_cached_channel_live_cell, get_script,
  set_script, find_channel_live_cell, channel_live_cell_for, get_channel_live_cell,
  get_channel_live_cell_with_cache,
}
use perun_ckb_backend.Client.Submit.{ask}
use perun_ckb_backend.Client.Channel.{cached_cell, tip_header, two_signatures, dispute}

module _ {W T : Type 0} where
  -- A method that hands no transaction to the node, whether it succeeds or fails.
  pub record Silent {A : Type 0} (m : M W T A) : Type 0 where
    pub silent : (w : World W T) → (m w).1.sent ≡ w.sent

  pure-Silent : {A : Type 0} (a : A) → Silent (pure a)
  unfolding pure
  pure-Silent a = record { silent = λ w. refl }

  fail-Silent : {A : Type 0} (e : ClientError) → Silent {A = A} (fail e)
  unfolding fail
  fail-Silent e = record { silent = λ w. refl }

  give-Silent : {A : Type 0} (r : Result ClientError A) → Silent (give r)
  unfolding give
  give-Silent r = record { silent = λ w. refl }

  deref-Silent : {A : Type 0} (p : Option A) → Silent (deref p)
  unfolding deref fail pure
  deref-Silent none = record { silent = λ w. refl }
  deref-Silent (some a) = record { silent = λ w. refl }

  next_step-Silent :
      {A B : Type 0} (f : A → M W T B) (r : Result ClientError A) (u v : World W T)
      → v.sent ≡ u.sent
      → ((a : A) → Silent (f a))
      → (next_step f r v).1.sent ≡ u.sent
  unfolding next_step
  next_step-Silent f (err e) u v g k = g
  next_step-Silent f (ok a) u v g k = (k a).silent v ∙ g

  bind-Silent :
      {A B : Type 0} (m : M W T A) (f : A → M W T B)
      → Silent m
      → ((a : A) → Silent (f a))
      → Silent (m >>= f)
  unfolding ◌>>=◌
  bind-Silent m f h k = record { silent = λ w. next_step-Silent f (m w).0 w (m w).1 (h.silent w) k }

  if-Silent :
      {A : Type 0} (b : Bool) (m k : M W T A) → Silent m → Silent k → Silent (if b then m else k)
  if-Silent true m k p q = p
  if-Silent false m k p q = q

  rpc-Silent :
      {A : Type 0} (sdk : Sdk) (others : Others W) (node : Node W T) (ctx : Context)
      (call : Rpc W A)
      → Silent (rpc sdk node others ctx call)
  unfolding rpc after_call
  rpc-Silent sdk others node ctx call = record { silent = λ w. refl }

ruleset quiet = (pure-Silent, fail-Silent, give-Silent, deref-Silent, bind-Silent, rpc-Silent)

module _ {W T : Type 0} (sdk : Sdk) (f : Formats) (d : Deployment) (node : Node W T)
    (others : Others W) (ctx : Context) where
  get_script-Silent : (id : ℕ) → Silent (get_script sdk f d node others ctx id)
  unfolding get_script
  get_script-Silent id = record { silent = λ w. refl }

  set_script-Silent : (id : ℕ) (s : Script) → Silent (set_script sdk f d node others ctx id s)
  unfolding set_script
  set_script-Silent id s = record { silent = λ w. refl }

  channel_live_cell_for-Silent :
      (again : M W T (LiveCell × ChannelStatus)) (id : ℕ) (script : Option Script)
      → Silent again
      → Silent (channel_live_cell_for sdk f d node others ctx again id script)
  unfolding channel_live_cell_for find_channel_live_cell get_cached_channel_live_cell
      get_exact_channel_live_cell get_all_channel_live_cells
  channel_live_cell_for-Silent again id (some s) k = search quiet depth 9
  channel_live_cell_for-Silent again id none k =
      bind-Silent _ _ (rpc-Silent sdk others node ctx _) (λ cells.
        bind-Silent _ _ (give-Silent _) (λ found. bind-Silent _ _ (deref-Silent _) (λ s.
          bind-Silent _ _ (set_script-Silent id s)
            (λ failed. if-Silent failed _ _ k (pure-Silent found)))))

  get_channel_live_cell-Silent :
      (fuel id : ℕ) → Silent (get_channel_live_cell sdk f d node others ctx fuel id)
  unfolding get_channel_live_cell
  get_channel_live_cell-Silent zero id = fail-Silent _
  get_channel_live_cell-Silent (suc fuel) id =
      bind-Silent _ _ (get_script-Silent id)
        (λ script. channel_live_cell_for-Silent _ id script (get_channel_live_cell-Silent fuel id))

module _ {W T C : Type 0} (cl : Client W T C) (ctx : Context) where
  cached_cell-Silent : (id : ℕ) → Silent (cached_cell cl ctx id)
  unfolding cached_cell get_channel_live_cell_with_cache
  cached_cell-Silent id =
      get_channel_live_cell-Silent cl.sdk cl.formats cl.deployment cl.node cl.others ctx 2 id

  two_signatures-Silent : (sigs : List (List ℕ)) → Silent (two_signatures cl ctx sigs)
  unfolding two_signatures
  two_signatures-Silent [] = fail-Silent _
  two_signatures-Silent (a ∷ []) = fail-Silent _
  two_signatures-Silent (a ∷ b ∷ []) = search quiet depth 9
  two_signatures-Silent (a ∷ b ∷ c ∷ sigs) = fail-Silent _

  bind-quiet :
      {A B : Type 0} (m : M W T A) (f : A → M W T B) (w : World W T)
      → Silent m
      → ((a : A) → (m w).0 ≡ ok a → Silent (f a))
      → ((m >>= f) w).1.sent ≡ w.sent
  unfolding ◌>>=◌ next_step
  bind-quiet m f w h k = elim (Result-cases (m w).0) [
    | inr (e, q) ↦ rw q (h.silent w)
    | inl (a, q) ↦ rw q ((k a q).silent (m w).1 ∙ h.silent w)
  ]

  not_newer :
      (s : State) (status : ChannelStatus)
      → ltb status.state.version s.version ≡ false
      → check_version s status none none ≡ some false
  unfolding check_version
  not_newer s status h = ground arith

  if_newer-Silent :
      (s : State) (status : ChannelStatus) (m : M W T (Unit {0}))
      → ltb status.state.version s.version ≡ false
      → Silent (deref (check_version s status none none) >>= λ newer. if newer then m else pure tt)
  unfolding deref pure ◌>>=◌ next_step
  if_newer-Silent s status m h = rw (not_newer s status h) (record { silent = λ w. refl })

  -- If a dispute of a ledger channel hands a transaction to the node, then the channel was found with a
  -- status whose version is lower than that of the state.
  pub dispute-sends :
      (id : ℕ) (s : State) (sigs : List (List ℕ)) (params : Params) (w : World W T)
      → (dispute cl ctx id s sigs params w).1.sent ≢ w.sent
      → (found : LiveCell × ChannelStatus) × ((cached_cell cl ctx id w).0 ≡ ok found)
        × (found.1.state.version < s.version)
  unfolding dispute tip_header ask
  dispute-sends id s sigs params w sent = elim (Result-cases (cached_cell cl ctx id w).0) [
    | inr (e, q) ↦ absurd (
        sent (
          bind-quiet (cached_cell cl ctx id) _ w (cached_cell-Silent id)
            (λ found r. absurd (ground arith))))
    | inl (x, q) ↦ elim (Bool-cases (ltb x.1.state.version s.version)) [
      | inl n ↦ (x, q, ground arith)
      | inr n ↦ absurd (
          sent (
            bind-quiet (cached_cell cl ctx id) _ w (cached_cell-Silent id) (λ found r.
              bind-Silent _ _ (rpc-Silent cl.sdk cl.others cl.node ctx _) (λ header.
                bind-Silent _ _ (two_signatures-Silent sigs)
                  (λ signatures. if_newer-Silent s found.1 _ (ground arith))))))
    ]
  ]
