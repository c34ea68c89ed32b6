-- ===== src/Client/Cells/Total.antt =====
-- A lookup calls itself once at most.
use perun_ckb_backend.Prelude.{
  ℕ, ◌≡◌, ◌≢◌, refl, inl, inr, true, Option, none, some, List, [], ◌∷◌, ok, err, arith,
  Option-cases, Bool-cases,
}
use perun_ckb_backend.Prelude.GoMap.{lookup}
use perun_ckb_backend.Ckb.{Script, Sdk}
use perun_ckb_backend.Deployment.{Deployment}
use perun_ckb_backend.Transaction.Handler.{ChannelStatus}
use perun_ckb_backend.Client.{
  Context, ClientError, LiveCell, Rpc, Node, World, Formats, Others, M, pure, ◌>>=◌, give, deref,
}
use perun_ckb_backend.Client.Retry.{retry_rpc-err}
use perun_ckb_backend.Client.Cache.{cache_get, cache_set}
use perun_ckb_backend.Client.Calls.{rpc}
use perun_ckb_backend.Client.Steps.{>>=-eq-err}
use perun_ckb_backend.Client.Cells.{
  exactly_one, parsed_status, get_exact_channel_live_cell, get_all_channel_live_cells,
  get_cached_channel_live_cell, get_script, set_script, find_channel_live_cell,
  channel_live_cell_for, get_channel_live_cell, get_channel_live_cell_with_cache,
  get_first_channel_live_cell_with_id,
}

-- A method that does not run out of fuel in a world.
abbrev Ends : {W T A : Type 0} → M W T A → World W T → Type 0
Ends m w = (m w).0 ≢ err ClientError.out_of_fuel

module _ {W T : Type 0} where
  bind-Ends :
      {A B : Type 0} (m : M W T A) (f : A → M W T B) (w : World W T)
      → Ends m w
      → ((a : A) (u : World W T) → m w ≡ (ok a, u) → Ends (f a) u)
      → Ends (m >>= f) w
  bind-Ends m f w h k e = elim (>>=-eq-err m f w ClientError.out_of_fuel e) [
    | inl p ↦ h p
    | inr (a, u, p, q) ↦ k a u p q
  ]

  pure-Ends : {A : Type 0} (a : A) (w : World W T) → Ends (pure a) w
  unfolding pure
  pure-Ends a w h = cc

  deref-Ends : {A : Type 0} (p : Option A) (w : World W T) → Ends (deref p) w
  unfolding deref
  deref-Ends none w h = ground arith
  deref-Ends (some a) w h = ground arith

  rpc-Ends :
      {A : Type 0} (sdk : Sdk) (node : Node W T) (others : Others W) (ctx : Context)
      (call : Rpc W A) (w : World W T)
      → Ends (rpc sdk node others ctx call) w
  unfolding rpc
  rpc-Ends sdk node others ctx call w h =
      elim (retry_rpc-err (node.wait ctx) call _ w.node_state ClientError.out_of_fuel h) [
        | inl e ↦ cc
        | inr e ↦ elim e [ inl p ↦ cc | inr p ↦ cc ]
      ]

exactly_one-ends : (cells : List LiveCell) → exactly_one cells ≢ err ClientError.out_of_fuel
unfolding exactly_one
exactly_one-ends [] h = ground arith
exactly_one-ends (c ∷ []) h = ground arith
exactly_one-ends (b ∷ c ∷ cells) h = ground arith

parsed_status-ends :
    (f : Formats) (cell : LiveCell) → parsed_status f cell ≢ err ClientError.out_of_fuel
unfolding parsed_status
parsed_status-ends f cell h = ground arith

get_first-ends :
    (f : Formats) (d : Deployment) (id : ℕ) (cells : List LiveCell)
    → get_first_channel_live_cell_with_id f d id cells ≢ err ClientError.out_of_fuel
unfolding get_first_channel_live_cell_with_id
get_first-ends f d id [] h = ground arith
get_first-ends f d id (c ∷ cells) h = ground (arith, get_first-ends f d id cells)

module _ {W T : Type 0} (sdk : Sdk) (f : Formats) (d : Deployment) (node : Node W T)
    (others : Others W) (ctx : Context) where
  cached-Ends :
      (t : Script) (w : World W T) → Ends (get_cached_channel_live_cell sdk f d node others ctx t) w
  unfolding get_cached_channel_live_cell get_exact_channel_live_cell give
  cached-Ends t w =
      bind-Ends _ _ w
        (bind-Ends _ _ w (rpc-Ends sdk node others ctx _ w) (λ cells u e. exactly_one-ends cells))
        (λ cell u e. bind-Ends _ _ u (parsed_status-ends f cell) (λ status v p. pure-Ends _ v))

  get_script-Ends : (id : ℕ) (w : World W T) → Ends (get_script sdk f d node others ctx id) w
  unfolding get_script
  get_script-Ends id w h = cc

  get_script-eq-ok :
      (id : ℕ) (w u : World W T) (script : Option Script)
      → get_script sdk f d node others ctx id w ≡ (ok script, u)
      → cache_get id w.cache ≡ script
  unfolding get_script
  get_script-eq-ok id w u script h = ground arith

  set_script-Ends :
      (id : ℕ) (s : Script) (w : World W T) → Ends (set_script sdk f d node others ctx id s) w
  unfolding set_script
  set_script-Ends id s w h = cc

  -- `Set` fails only where another script is cached.
  set_script-failed :
      (id : ℕ) (s : Script) (w v : World W T)
      → set_script sdk f d node others ctx id s w ≡ (ok true, v)
      → (t : Script) × (cache_get id v.cache ≡ some t)
  unfolding set_script cache_set cache_get
  set_script-failed id s w v h = elim (Option-cases (lookup id w.cache)) [
    | inl e ↦ absurd (ground arith)
    | inr (old, e) ↦ (old, ground arith)
  ]

  -- The call of itself is made only where a script is cached.
  find-Ends :
      (again : M W T (LiveCell × ChannelStatus)) (id : ℕ) (w : World W T)
      → ((u : World W T) (t : Script) → cache_get id u.cache ≡ some t → Ends again u)
      → Ends (find_channel_live_cell sdk f d node others ctx again id) w
  unfolding find_channel_live_cell get_all_channel_live_cells give
  find-Ends again id w k = bind-Ends _ _ w (rpc-Ends sdk node others ctx _ w) (λ cells u e.
      bind-Ends _ _ u (get_first-ends f d id cells) (λ found v p.
        bind-Ends _ _ v (deref-Ends _ v) (λ s x q.
          bind-Ends _ _ x (set_script-Ends id s x) (λ failed y r. elim (Bool-cases failed) [
            | inl b ↦ let (t, c) = set_script-failed id s x y (rw b at r) in rw b (k y t c)
            | inr b ↦ rw b (pure-Ends found y)
          ]))))

  channel_live_cell_for-Ends :
      (again : M W T (LiveCell × ChannelStatus)) (id : ℕ) (script : Option Script) (w : World W T)
      → (script ≡ none → Ends (find_channel_live_cell sdk f d node others ctx again id) w)
      → Ends (channel_live_cell_for sdk f d node others ctx again id script) w
  unfolding channel_live_cell_for
  channel_live_cell_for-Ends again id none w k = k refl
  channel_live_cell_for-Ends again id (some t) w k = cached-Ends t w

  -- Where a script is cached, one call is enough.
  known-Ends :
      (id : ℕ) (t : Script) (w : World W T)
      → cache_get id w.cache ≡ some t
      → Ends (get_channel_live_cell sdk f d node others ctx 1 id) w
  unfolding get_channel_live_cell
  known-Ends id t w c = bind-Ends _ _ w (get_script-Ends id w) (λ script u e.
      channel_live_cell_for-Ends _ id script u
        (λ n. absurd (ground (arith, get_script-eq-ok id w u script e))))

  -- The lookup of a channel with the cache ends: whatever the other callers set meanwhile, it calls
  -- itself once at most, since a call of `Set` that failed leaves a script for the next `Get`.
  pub get_channel_live_cell_with_cache-ends :
      (id : ℕ) (w : World W T)
      → (get_channel_live_cell_with_cache sdk f d node others ctx id w).0
        ≢ err ClientError.out_of_fuel
  unfolding get_channel_live_cell_with_cache get_channel_live_cell
  get_channel_live_cell_with_cache-ends id w = bind-Ends _ _ w (get_script-Ends id w) (λ script u e.
      channel_live_cell_for-Ends _ id script u
        (λ n. find-Ends _ id u (λ v t c. known-Ends id t v c)))
