-- ===== src/Client/Cells/Identity.antt =====
-- A channel keeps its type script for as long as a client lives.
use perun_ckb_backend.Prelude.{
  ℕ, zero, suc, ◌≡◌, refl, sym, ap, ◌∙◌, subst, ◌⊎◌, inl, inr, Bool, true, false, Option, none,
  some, List, [], ◌∷◌, All, Result, ok, err, arith, Bool-cases,
}
use perun_ckb_backend.Ckb.{Script, Sdk}
use perun_ckb_backend.Deployment.{Deployment}
use perun_ckb_backend.Transaction.Handler.{ChannelStatus, ChannelConstants}
use perun_ckb_backend.Client.{Context, ClientError, LiveCell, Node, World, Formats, Others, M, fail}
use perun_ckb_backend.Client.Cache.{cache_get, cache_set, set_answers}
use perun_ckb_backend.Client.Calls.{type_script_of, type_key, search_indexer_limit}
use perun_ckb_backend.Client.Stable.{Grows}
use perun_ckb_backend.Client.Steps.{>>=-eq-ok, give-eq-ok, pure-eq-ok, deref-eq-ok, rpc-eq-ok}
use perun_ckb_backend.Client.Cells.{
  exactly_one, get_exact_channel_live_cell, get_cached_channel_live_cell, get_script, set_script,
  find_channel_live_cell, channel_live_cell_for, get_channel_live_cell,
  get_channel_live_cell_with_cache, get_channel_with_id,
}
use perun_ckb_backend.Client.Cells.Keeps.{
  get_cached_channel_live_cell-Keeps, get_channel_with_id-Keeps,
}

module _ {W T : Type 0} (sdk : Sdk) (f : Formats) (d : Deployment) (node : Node W T)
    (others : Others W) (ctx : Context) where
  -- The script is the given one, or equal to it as `Script.Equals` tests.
  abbrev pub Same : Script → Script → Type 0
  Same t s = (t ≡ s) ⊎ (sdk.script_equals t s ≡ true)

  -- A cell with a type script that is the given one.
  abbrev pub HasScript : Script → LiveCell → Type 0
  HasScript t cell = (s : Script) × (type_script_of cell ≡ some s) × Same t s

  -- The node's documented answer to an exact search for a type script: cells that have it.
  pub record SearchesExactly : Type 0 where
    pub exactly :
        (script : Script) (limit : ℕ) (x y : W) (cells : List LiveCell)
        → node.get_cells ctx (type_key script) limit x ≡ (ok cells, y)
        → All (HasScript script) cells

  -- The script that is cached for a channel is the given one.
  abbrev pub IsCachedAs : ℕ → Script → World W T → Type 0
  IsCachedAs id s w = (t : Script) × (cache_get id w.cache ≡ some t) × Same t s

  exactly_one-HasScript :
      (t : Script) (cells : List LiveCell) (cell : LiveCell)
      → All (HasScript t) cells
      → exactly_one cells ≡ ok cell
      → HasScript t cell
  unfolding exactly_one
  exactly_one-HasScript t [] cell h e = absurd (ground arith)
  exactly_one-HasScript t (c ∷ []) cell h e =
      subst (HasScript t) {x = c} {y = cell} (ground arith) h.0
  exactly_one-HasScript t (b ∷ c ∷ cells) cell h e = absurd (ground arith)

  module _ (node_law : SearchesExactly) where
    cached-HasScript :
        (t : Script) (w v : World W T) (cell : LiveCell) (status : ChannelStatus)
        → get_cached_channel_live_cell sdk f d node others ctx t w ≡ (ok (cell, status), v)
        → HasScript t cell
    unfolding get_cached_channel_live_cell get_exact_channel_live_cell
    cached-HasScript t w v cell status h =
        let (c, u, e, g) = >>=-eq-ok _ _ w v (cell, status) h in
        let (cells, x, q, r) = >>=-eq-ok _ _ w u c e in
        let (y, z, answer, _) =
          rpc-eq-ok sdk node others ctx (node.get_cells ctx (type_key t) search_indexer_limit) w x
            cells q in
        let (one, _) = give-eq-ok (exactly_one cells) x u c r in
        let (s, a, k, p) = >>=-eq-ok _ _ u v (cell, status) g in
        let (same, _) = pure-eq-ok (c, s) a v (cell, status) p in
        subst (HasScript t) {x = c} {y = cell} (ap (λ z. z.0) same) (
          exactly_one-HasScript t cells c (node_law.exactly t search_indexer_limit y z cells answer)
            one)

    -- What a successful lookup leaves behind: the cell's script, and what is cached for the id.
    abbrev Known : ℕ → LiveCell → World W T → Type 0
    Known id cell v = (s : Script) × (type_script_of cell ≡ some s) × IsCachedAs id s v

    cached-Known :
        (id : ℕ) (t : Script) (w v : World W T) (cell : LiveCell) (status : ChannelStatus)
        → cache_get id w.cache ≡ some t
        → get_cached_channel_live_cell sdk f d node others ctx t w ≡ (ok (cell, status), v)
        → Known id cell v
    cached-Known id t w v cell status c h =
        let (s, e, same) = cached-HasScript t w v cell status h in
        let kept = (get_cached_channel_live_cell-Keeps sdk f d node others ctx t).grows w in
        let g : Grows w v = subst (Grows w) (ap (λ z. z.1) h) kept in
        (s, e, (t, g.channels id t c, same))

    accepted_of :
        (r : Result ClientError (Unit {0}))
        → ◌≡◌ {A = Result ClientError Bool} (ok (elim r [ ok _ ↦ false | err e ↦ true ])) (ok false)
        → r ≡ ok tt
    accepted_of (ok tt) h = refl
    accepted_of (err e) h = absurd (ground arith)

    set_script-IsCachedAs :
        (id : ℕ) (s : Script) (w v : World W T)
        → set_script sdk f d node others ctx id s w ≡ (ok false, v)
        → IsCachedAs id s v
    unfolding set_script
    set_script-IsCachedAs id s w v h =
        let accepted : (cache_set sdk id s w.cache).0 ≡ ok tt = accepted_of _ (ap (λ z. z.0) h) in
        let (t, e, which) = set_answers sdk id s w.cache accepted in
        (
          t,
          ap (λ (z : Result ClientError Bool × World W T). cache_get id z.1.cache) (sym h) ∙ e,
          elim which [ inl p ↦ inl p.1 | inr p ↦ inr p.1 ],
        )

    find-Known :
        (again : M W T (LiveCell × ChannelStatus)) (id : ℕ) (w v : World W T) (cell : LiveCell)
        (status : ChannelStatus)
        → ((u : World W T) → again u ≡ (ok (cell, status), v) → Known id cell v)
        → find_channel_live_cell sdk f d node others ctx again id w ≡ (ok (cell, status), v)
        → Known id cell v
    unfolding find_channel_live_cell
    find-Known again id w v cell status k h =
        let (cells, u, e, g) = >>=-eq-ok _ _ w v (cell, status) h in
        let (found, x, q, r) = >>=-eq-ok _ _ u v (cell, status) g in
        let (s, y, p, m) = >>=-eq-ok _ _ x v (cell, status) r in
        let (failed, z, a, b) = >>=-eq-ok _ _ y v (cell, status) m in
        let (typed, _) = deref-eq-ok _ x y s p in
        elim (Bool-cases failed) [
          | inl yes_failed ↦ k z (rw yes_failed at b)
          | inr not_failed ↦
              let (same, still) = pure-eq-ok found z v (cell, status) (rw not_failed at b) in
              (
                s,
                ap (λ c. type_script_of c) (ap (λ c. c.0) (sym same)) ∙ typed,
                subst (IsCachedAs id s) still (set_script-IsCachedAs id s y z (rw not_failed at a)),
              )
        ]

    get_script-eq-ok :
        (id : ℕ) (w u : World W T) (script : Option Script)
        → get_script sdk f d node others ctx id w ≡ (ok script, u)
        → cache_get id u.cache ≡ script
    unfolding get_script
    get_script-eq-ok id w u script h = ground arith

    channel_live_cell_for-Known :
        (again : M W T (LiveCell × ChannelStatus)) (id : ℕ) (script : Option Script)
        (w v : World W T) (cell : LiveCell) (status : ChannelStatus)
        → cache_get id w.cache ≡ script
        → ((u : World W T) → again u ≡ (ok (cell, status), v) → Known id cell v)
        → channel_live_cell_for sdk f d node others ctx again id script w ≡ (ok (cell, status), v)
        → Known id cell v
    unfolding channel_live_cell_for
    channel_live_cell_for-Known again id none w v cell status c k h =
        find-Known again id w v cell status k h
    channel_live_cell_for-Known again id (some t) w v cell status c k h =
        cached-Known id t w v cell status c h

    get_channel_live_cell-Known :
        (fuel id : ℕ) (w v : World W T) (cell : LiveCell) (status : ChannelStatus)
        → get_channel_live_cell sdk f d node others ctx fuel id w ≡ (ok (cell, status), v)
        → Known id cell v
    unfolding get_channel_live_cell fail
    get_channel_live_cell-Known zero id w v cell status h = absurd (ground arith)
    get_channel_live_cell-Known (suc fuel) id w v cell status h =
        let (script, u, e, g) = >>=-eq-ok _ _ w v (cell, status) h in
        channel_live_cell_for-Known _ id script u v cell status (get_script-eq-ok id w u script e)
          (λ x q. get_channel_live_cell-Known fuel id x v cell status q) g

    get_channel_with_id-IsCachedAs :
        (id : ℕ) (w v : World W T) (block : ℕ) (s : Script) (c : ChannelConstants)
        (status : ChannelStatus)
        → get_channel_with_id sdk f d node others ctx id w ≡ (ok (block, s, c, status), v)
        → IsCachedAs id s v
    unfolding get_channel_with_id get_channel_live_cell_with_cache
    get_channel_with_id-IsCachedAs id w v block s c status h =
        let (found, u, e, g) = >>=-eq-ok _ _ w v (block, s, c, status) h in
        let (t, x, p, k) = >>=-eq-ok _ _ u v (block, s, c, status) g in
        let (constants, y, q, m) = >>=-eq-ok _ _ x v (block, s, c, status) k in
        let (typed, a) = deref-eq-ok _ u x t p in
        let (_, b) = give-eq-ok _ x y constants q in
        let (same, z) = pure-eq-ok _ y v (block, s, c, status) m in
        let (o, has, cached) = get_channel_live_cell-Known 2 id w u found.0 found.1 e in
        subst (IsCachedAs id s) {x = u} {y = v} (a ∙ b ∙ z)
          (subst (λ r. IsCachedAs id r u) {x = o} {y = s} (cc) cached)

    -- Two lookups of a channel that succeed return the same type script, up to `Script.Equals` with the
    -- one script that the cache holds for the channel from the first lookup on, whatever happened on
    -- the chain and in the client meanwhile, as long as the caches lost no script.
    pub get_channel_with_id-Same :
        (id : ℕ) (w v u x : World W T) (block later : ℕ) (s t : Script) (b c : ChannelConstants)
        (status status' : ChannelStatus)
        → get_channel_with_id sdk f d node others ctx id w ≡ (ok (block, s, b, status), v)
        → Grows v u
        → get_channel_with_id sdk f d node others ctx id u ≡ (ok (later, t, c, status'), x)
        → (r : Script) × (cache_get id v.cache ≡ some r) × Same r s × Same r t
    get_channel_with_id-Same id w v u x block later s t b c status status' h g k =
        let (r, e, same) = get_channel_with_id-IsCachedAs id w v block s b status h in
        let (q, o, also) = get_channel_with_id-IsCachedAs id u x later t c status' k in
        let kept : cache_get id x.cache ≡ some r =
          (subst (Grows u) (ap (λ z. z.1) k)
              ((get_channel_with_id-Keeps sdk f d node others ctx id).grows u)).channels
            id r (g.channels id r e) in
        (r, e, same, subst (λ z. Same z t) {x = q} {y = r} (cc) also)
