-- ===== src/Client/Cells/Keeps.antt =====
-- The searches forget no script of the caches.
use perun_ckb_backend.Prelude.{ℕ, suc, zero, Option, none, some, List, [], ◌∷◌}
use perun_ckb_backend.Ckb.{Script, Sdk}
use perun_ckb_backend.Deployment.{Deployment}
use perun_ckb_backend.Transaction.Handler.{ChannelStatus, VirtualChannelStatus}
use perun_ckb_backend.Client.{Context, LiveCell, Node, Formats, Others, M, ◌>>◌}
use perun_ckb_backend.Client.Cache.{cache_set-Extends}
use perun_ckb_backend.Client.Stable.{
  Grows-refl, Keeps, pure-Keeps, fail-Keeps, give-Keeps, deref-Keeps, require-Keeps, bind-Keeps,
  once-Keeps, rpc-Keeps, if-Keeps, keeping,
}
use perun_ckb_backend.Client.Cells.{
  get_exact_channel_live_cell, get_all_channel_live_cells, get_cached_channel_live_cell, get_script,
  set_script, find_channel_live_cell, channel_live_cell_for, get_channel_live_cell,
  get_channel_live_cell_with_cache, get_channel_with_exact_pcts, get_channel_with_id,
  get_block_time,
}
use perun_ckb_backend.Client.Cells.Virtual.{
  get_all_virtual_channel_live_cells, get_exact_virtual_channel_live_cell,
  get_cached_virtual_channel_live_cell, get_vc_script, set_vc_script,
  find_virtual_channel_live_cell, virtual_channel_live_cell_for, get_virtual_channel_live_cell,
  get_virtual_channel_live_cell_with_cache,
}

module _ {W T : Type 0} (sdk : Sdk) (f : Formats) (d : Deployment) (node : Node W T)
    (others : Others W) (ctx : Context) where
  pub get_exact_channel_live_cell-Keeps :
      (pcts : Script) → Keeps (get_exact_channel_live_cell sdk f d node others ctx pcts)
  unfolding get_exact_channel_live_cell
  get_exact_channel_live_cell-Keeps pcts =
      bind-Keeps _ _ (rpc-Keeps sdk others node ctx _) (λ cells. give-Keeps _)

  get_all_channel_live_cells-Keeps : Keeps (get_all_channel_live_cells sdk f d node others ctx)
  unfolding get_all_channel_live_cells
  get_all_channel_live_cells-Keeps = rpc-Keeps sdk others node ctx _

  pub get_cached_channel_live_cell-Keeps :
      (s : Script) → Keeps (get_cached_channel_live_cell sdk f d node others ctx s)
  unfolding get_cached_channel_live_cell
  get_cached_channel_live_cell-Keeps s = search (keeping, get_exact_channel_live_cell-Keeps)

  get_script-Keeps : (id : ℕ) → Keeps (get_script sdk f d node others ctx id)
  unfolding get_script
  get_script-Keeps id = record { grows = Grows-refl }

  set_script-Keeps : (id : ℕ) (s : Script) → Keeps (set_script sdk f d node others ctx id s)
  unfolding set_script
  set_script-Keeps id s = record {
    grows = λ w. record {
      channels = cache_set-Extends sdk id s w.cache;
      virtual_channels = λ j t h. h;
    };
  }

  channel_live_cell_for-Keeps :
      (again : M W T (LiveCell × ChannelStatus)) (id : ℕ) (script : Option Script)
      → Keeps again
      → Keeps (channel_live_cell_for sdk f d node others ctx again id script)
  unfolding channel_live_cell_for find_channel_live_cell
  channel_live_cell_for-Keeps again id (some s) k = get_cached_channel_live_cell-Keeps s
  channel_live_cell_for-Keeps again id none k =
      bind-Keeps _ _ get_all_channel_live_cells-Keeps (λ cells.
        bind-Keeps _ _ (give-Keeps _) (λ found. bind-Keeps _ _ (deref-Keeps _) (λ s.
          bind-Keeps _ _ (set_script-Keeps id s)
            (λ failed. if-Keeps failed _ _ k (pure-Keeps found)))))

  pub get_channel_live_cell-Keeps :
      (fuel id : ℕ) → Keeps (get_channel_live_cell sdk f d node others ctx fuel id)
  unfolding get_channel_live_cell
  get_channel_live_cell-Keeps zero id = fail-Keeps _
  get_channel_live_cell-Keeps (suc fuel) id =
      bind-Keeps _ _ (get_script-Keeps id)
        (λ script. channel_live_cell_for-Keeps _ id script (get_channel_live_cell-Keeps fuel id))

  pub get_channel_live_cell_with_cache-Keeps :
      (id : ℕ) → Keeps (get_channel_live_cell_with_cache sdk f d node others ctx id)
  unfolding get_channel_live_cell_with_cache
  get_channel_live_cell_with_cache-Keeps id = get_channel_live_cell-Keeps 2 id

  pub get_channel_with_exact_pcts-Keeps :
      (pcts : Script) → Keeps (get_channel_with_exact_pcts sdk f d node others ctx pcts)
  unfolding get_channel_with_exact_pcts
  get_channel_with_exact_pcts-Keeps pcts = search (keeping, get_exact_channel_live_cell-Keeps)

  pub get_channel_with_id-Keeps : (id : ℕ) → Keeps (get_channel_with_id sdk f d node others ctx id)
  unfolding get_channel_with_id
  get_channel_with_id-Keeps id = search (keeping, get_channel_live_cell_with_cache-Keeps)

  get_vc_script-Keeps : (id : ℕ) → Keeps (get_vc_script sdk f d node others ctx id)
  unfolding get_vc_script
  get_vc_script-Keeps id = record { grows = Grows-refl }

  set_vc_script-Keeps : (id : ℕ) (s : Script) → Keeps (set_vc_script sdk f d node others ctx id s)
  unfolding set_vc_script
  set_vc_script-Keeps id s = record {
    grows = λ w. record {
      channels = λ j t h. h;
      virtual_channels = cache_set-Extends sdk id s w.vc_cache;
    };
  }

  virtual_channel_live_cell_for-Keeps :
      (again : M W T (List (LiveCell × VirtualChannelStatus))) (id : ℕ) (script : Option Script)
      → Keeps again
      → Keeps (virtual_channel_live_cell_for sdk f d node others ctx again id script)
  unfolding virtual_channel_live_cell_for find_virtual_channel_live_cell
      get_cached_virtual_channel_live_cell get_exact_virtual_channel_live_cell
      get_all_virtual_channel_live_cells
  virtual_channel_live_cell_for-Keeps again id (some s) k =
      bind-Keeps _ _ (bind-Keeps _ _ (rpc-Keeps sdk others node ctx _) (λ cells. give-Keeps _))
        (λ cells. give-Keeps _)
  virtual_channel_live_cell_for-Keeps again id none k =
      bind-Keeps _ _ (once-Keeps sdk others _) (λ cells. bind-Keeps _ _ (give-Keeps _) (λ found.
        bind-Keeps _ _ (deref-Keeps _) (λ s.
          bind-Keeps _ _ (set_vc_script-Keeps id s)
            (λ failed. if-Keeps failed _ _ k (pure-Keeps (found ∷ []))))))

  get_virtual_channel_live_cell-Keeps :
      (fuel id : ℕ) → Keeps (get_virtual_channel_live_cell sdk f d node others ctx fuel id)
  unfolding get_virtual_channel_live_cell
  get_virtual_channel_live_cell-Keeps zero id = fail-Keeps _
  get_virtual_channel_live_cell-Keeps (suc fuel) id =
      bind-Keeps _ _ (get_vc_script-Keeps id) (λ script.
        virtual_channel_live_cell_for-Keeps _ id script
          (get_virtual_channel_live_cell-Keeps fuel id))

  pub get_virtual_channel_live_cell_with_cache-Keeps :
      (id : ℕ) → Keeps (get_virtual_channel_live_cell_with_cache sdk f d node others ctx id)
  unfolding get_virtual_channel_live_cell_with_cache
  get_virtual_channel_live_cell_with_cache-Keeps id = get_virtual_channel_live_cell-Keeps 2 id

  pub get_block_time-Keeps : (block : ℕ) → Keeps (get_block_time sdk f d node others ctx block)
  unfolding get_block_time ◌>>◌
  get_block_time-Keeps block =
      bind-Keeps _ _ (rpc-Keeps sdk others node ctx _)
        (λ time. bind-Keeps _ _ (require-Keeps _ _) (λ done. pure-Keeps time))
