-- ===== src/Client/Cells/Virtual.antt =====
-- The searches for the cells of a virtual channel, of which there are two until they are merged.
use perun_ckb_backend.Prelude.{
  ℕ, zero, suc, ◌==◌, Bool, true, false, Option, none, some, List, [], ◌∷◌, Result, ok, err,
  if◌then◌else◌,
}
use perun_ckb_backend.Ckb.{Script, Sdk}
use perun_ckb_backend.Deployment.{Deployment}
use perun_ckb_backend.Transaction.Handler.{VirtualChannelStatus}
use perun_ckb_backend.Client.{
  Context, ClientError, LiveCell, type_script, prefix, Node, Formats, Others, M, pure, fail, ◌>>=◌,
  give, deref,
}
use perun_ckb_backend.Client.Cache.{cache_get, cache_set}
use perun_ckb_backend.Client.Calls.{
  has_type_code, type_script_of, type_key, search_indexer_limit, rpc, once,
}

-- `math.MaxUint32`
abbrev pub max_uint32 : ℕ
max_uint32 = 4294967295

-- `isValidVirtualChannelLiveCell`
unfoldable pub is_valid_virtual_channel_live_cell : Deployment → LiveCell → Bool
unfolding has_type_code
is_valid_virtual_channel_live_cell d = has_type_code d.vcts_code_hash d.vcts_hash_type

-- The tests of one round of the loop of `getFirstVirtualChannelLiveCellWithID`.
unfoldable pub virtual_status_of : Formats → Deployment → ℕ → LiveCell → Option VirtualChannelStatus
unfolding is_valid_virtual_channel_live_cell
virtual_status_of f d id cell =
    if is_valid_virtual_channel_live_cell d cell
    then elim (f.parse_vc_status cell.output_data) [
      | none ↦ none
      | some status ↦ if status.vc_state.channel_id == id then some status else none
    ]
    else none

-- `getFirstVirtualChannelLiveCellWithID`
unfoldable pub get_first_virtual_channel_live_cell_with_id :
    Formats → Deployment → ℕ → List LiveCell → Result ClientError (LiveCell × VirtualChannelStatus)
unfolding virtual_status_of
get_first_virtual_channel_live_cell_with_id f d id [] = err ClientError.no_channel_live_cell
get_first_virtual_channel_live_cell_with_id f d id (cell ∷ cells) =
    let later = get_first_virtual_channel_live_cell_with_id f d id cells in
    elim (virtual_status_of f d id cell) [ none ↦ later | some status ↦ ok (cell, status) ]

-- The cells that `getExactVirtualChannelLiveCell` accepts: one or two.
unfoldable pub one_or_two : List LiveCell → Result ClientError (List LiveCell)
one_or_two [] = err ClientError.no_channel_live_cell
one_or_two (a ∷ []) = ok (a ∷ [])
one_or_two (a ∷ b ∷ []) = ok (a ∷ b ∷ [])
one_or_two (a ∷ b ∷ c ∷ cells) = err ClientError.too_many_cells

-- The cells with the statuses in their data; an error at the first one without.
unfoldable pub parsed_vc_statuses :
    Formats → List LiveCell → Result ClientError (List (LiveCell × VirtualChannelStatus))
parsed_vc_statuses f [] = ok []
parsed_vc_statuses f (cell ∷ cells) =
    let later = parsed_vc_statuses f cells in
    elim (f.parse_vc_status cell.output_data) [
      | none ↦ err ClientError.bad_status
      | some status ↦ elim later [ err e ↦ err e | ok rest ↦ ok ((cell, status) ∷ rest) ]
    ]

module _ {W T : Type 0} (sdk : Sdk) (f : Formats) (d : Deployment) (node : Node W T)
    (others : Others W) (ctx : Context) where
  -- `getAllVirtualChannelLiveCells`, which is not tried again.
  unfoldable pub get_all_virtual_channel_live_cells : M W T (List LiveCell)
  unfolding once
  get_all_virtual_channel_live_cells = once sdk others (
      node.get_cells ctx
        (record {
          script = record {
            code_hash = d.vcts_code_hash;
            hash_type = d.vcts_hash_type;
            args = some [];
          };
          script_type = type_script;
          search_mode = prefix;
        })
        max_uint32)

  -- `getExactVirtualChannelLiveCell`
  unfoldable pub get_exact_virtual_channel_live_cell : Script → M W T (List LiveCell)
  unfolding rpc one_or_two
  get_exact_virtual_channel_live_cell vcts = do
    cells ← rpc sdk node others ctx (node.get_cells ctx (type_key vcts) search_indexer_limit)
    give (one_or_two cells)

  -- The branch of `getVirtualChannelLiveCellWithCache` for a script that is cached.
  unfoldable pub get_cached_virtual_channel_live_cell :
      Script → M W T (List (LiveCell × VirtualChannelStatus))
  unfolding get_exact_virtual_channel_live_cell parsed_vc_statuses
  get_cached_virtual_channel_live_cell script = do
    cells ← get_exact_virtual_channel_live_cell script
    give (parsed_vc_statuses f cells)

  -- `c.vccache.Get(id)`
  unfoldable pub get_vc_script : ℕ → M W T (Option Script)
  get_vc_script id w = (ok (cache_get id w.vc_cache), w)

  -- `c.vccache.Set(id, script)`, which says whether it failed.
  unfoldable pub set_vc_script : ℕ → Script → M W T Bool
  set_vc_script id script w =
      let (r, cache) = cache_set sdk id script w.vc_cache in
      (ok (elim r [ ok _ ↦ false | err e ↦ true ]), record w { vc_cache = cache })

  -- The rest of `getVirtualChannelLiveCellWithCache` after a miss, which leads to one cell at most.
  unfoldable pub find_virtual_channel_live_cell :
      M W T (List (LiveCell × VirtualChannelStatus))
      → ℕ
      → M W T (List (LiveCell × VirtualChannelStatus))
  unfolding get_all_virtual_channel_live_cells set_vc_script
  find_virtual_channel_live_cell again id = do
    cells ← get_all_virtual_channel_live_cells
    found ← give (get_first_virtual_channel_live_cell_with_id f d id cells)
    script ← deref (type_script_of found.0)
    failed ← set_vc_script id script
    if failed then again else pure (found ∷ [])

  -- The two branches on what `Get` answered.
  unfoldable pub virtual_channel_live_cell_for :
      M W T (List (LiveCell × VirtualChannelStatus))
      → ℕ
      → Option Script
      → M W T (List (LiveCell × VirtualChannelStatus))
  unfolding get_cached_virtual_channel_live_cell find_virtual_channel_live_cell
  virtual_channel_live_cell_for again id none = find_virtual_channel_live_cell again id
  virtual_channel_live_cell_for again id (some script) = get_cached_virtual_channel_live_cell script

  -- `getVirtualChannelLiveCellWithCache`. The fuel bounds its calls of itself.
  unfoldable pub get_virtual_channel_live_cell :
      ℕ → ℕ → M W T (List (LiveCell × VirtualChannelStatus))
  unfolding get_vc_script virtual_channel_live_cell_for
  get_virtual_channel_live_cell zero id = fail ClientError.out_of_fuel
  get_virtual_channel_live_cell (suc fuel) id =
      get_vc_script id >>= virtual_channel_live_cell_for (get_virtual_channel_live_cell fuel id) id

  unfoldable pub get_virtual_channel_live_cell_with_cache :
      ℕ → M W T (List (LiveCell × VirtualChannelStatus))
  unfolding get_virtual_channel_live_cell
  get_virtual_channel_live_cell_with_cache = get_virtual_channel_live_cell 2
