-- ===== src/Client/Cells.antt =====
-- The searches of client/ckbclient.go for the cells of channels and of virtual channels.
pub mod Virtual
pub mod Keeps
pub mod First
pub mod Identity
pub mod Total
use perun_ckb_backend.Prelude.{
  ℕ, zero, suc, ◌==◌, ◌-◌, ◌^◌, ltb, Bool, true, false, ◌&&◌, Option, none, some, List, [], ◌∷◌,
  length, Result, ok, err, if◌then◌else◌,
}
use perun_ckb_backend.Prelude.GoMap.{GoMap}
use perun_ckb_backend.Ckb.{Script, CellOutput, Sdk}
use perun_ckb_backend.Deployment.{Deployment}
use perun_ckb_backend.Transaction.Handler.{ChannelStatus, ChannelConstants}
use perun_ckb_backend.Client.{
  Context, ClientError, LiveCell, SearchKey, type_script, exact, prefix, Rpc, Node, World, Formats,
  Others, M, pure, fail, ◌>>=◌, ◌>>◌, require, give, deref,
}
use perun_ckb_backend.Client.Cache.{cache_get, cache_set}
use perun_ckb_backend.Client.Calls.{
  has_type_code, type_script_of, type_key, search_indexer_limit, rpc,
}

-- `isValidChannelLiveCell`
unfoldable pub is_valid_channel_live_cell : Deployment → LiveCell → Bool
unfolding has_type_code
is_valid_channel_live_cell d = has_type_code d.pcts_code_hash d.pcts_hash_type

-- The status of a cell that is taken for the channel with the id: the tests of one round of the loop of
-- `getFirstChannelLiveCellWithID`.
unfoldable pub channel_status_of : Formats → Deployment → ℕ → LiveCell → Option ChannelStatus
unfolding is_valid_channel_live_cell
channel_status_of f d id cell =
    if is_valid_channel_live_cell d cell
    then elim (f.parse_status cell.output_data) [
      | none ↦ none
      | some status ↦ if status.state.channel_id == id then some status else none
    ]
    else none

-- `getFirstChannelLiveCellWithID`
unfoldable pub get_first_channel_live_cell_with_id :
    Formats → Deployment → ℕ → List LiveCell → Result ClientError (LiveCell × ChannelStatus)
unfolding channel_status_of
get_first_channel_live_cell_with_id f d id [] = err ClientError.no_channel_live_cell
get_first_channel_live_cell_with_id f d id (cell ∷ cells) =
    let later = get_first_channel_live_cell_with_id f d id cells in
    elim (channel_status_of f d id cell) [ none ↦ later | some status ↦ ok (cell, status) ]

-- The status in a cell's data.
unfoldable pub parsed_status : Formats → LiveCell → Result ClientError ChannelStatus
parsed_status f cell = elim (f.parse_status cell.output_data) [
  | none ↦ err ClientError.bad_status
  | some status ↦ ok status
]

-- The constants in the arguments of a channel's type script.
unfoldable pub parsed_constants : Formats → Script → Result ClientError ChannelConstants
parsed_constants f script = elim (f.parse_constants script.args) [
  | none ↦ err ClientError.bad_constants
  | some constants ↦ ok constants
]

-- The one cell that `getExactChannelLiveCell` accepts.
unfoldable pub exactly_one : List LiveCell → Result ClientError LiveCell
exactly_one [] = err ClientError.no_channel_live_cell
exactly_one (cell ∷ []) = ok cell
exactly_one (cell ∷ next ∷ cells) = err ClientError.too_many_cells

module _ {W T : Type 0} (sdk : Sdk) (f : Formats) (d : Deployment) (node : Node W T)
    (others : Others W) (ctx : Context) where
  -- `getExactChannelLiveCell`
  unfoldable pub get_exact_channel_live_cell : Script → M W T LiveCell
  unfolding rpc exactly_one
  get_exact_channel_live_cell pcts = do
    cells ← rpc sdk node others ctx (node.get_cells ctx (type_key pcts) search_indexer_limit)
    give (exactly_one cells)

  -- `getAllChannelLiveCells`
  unfoldable pub get_all_channel_live_cells : M W T (List LiveCell)
  unfolding rpc
  get_all_channel_live_cells = rpc sdk node others ctx (
      node.get_cells ctx
        (record {
          script = record {
            code_hash = d.pcts_code_hash;
            hash_type = d.pcts_hash_type;
            args = some [];
          };
          script_type = type_script;
          search_mode = prefix;
        })
        search_indexer_limit)

  -- The branch of `getChannelLiveCellWithCache` for a script that is cached.
  unfoldable pub get_cached_channel_live_cell : Script → M W T (LiveCell × ChannelStatus)
  unfolding get_exact_channel_live_cell parsed_status
  get_cached_channel_live_cell script = do
    cell ← get_exact_channel_live_cell script
    status ← give (parsed_status f cell)
    pure (cell, status)

  -- `c.cache.Get(id)`
  unfoldable pub get_script : ℕ → M W T (Option Script)
  get_script id w = (ok (cache_get id w.cache), w)

  -- `c.cache.Set(id, script)`, which says whether it failed.
  unfoldable pub set_script : ℕ → Script → M W T Bool
  set_script id script w =
      let (r, cache) = cache_set sdk id script w.cache in
      (ok (elim r [ ok _ ↦ false | err e ↦ true ]), record w { cache = cache })

  -- The rest of `getChannelLiveCellWithCache` after a miss. If another caller set another script
  -- meanwhile, the method is called again.
  unfoldable pub find_channel_live_cell :
      M W T (LiveCell × ChannelStatus) → ℕ → M W T (LiveCell × ChannelStatus)
  unfolding get_all_channel_live_cells set_script
  find_channel_live_cell again id = do
    cells ← get_all_channel_live_cells
    found ← give (get_first_channel_live_cell_with_id f d id cells)
    script ← deref (type_script_of found.0)
    failed ← set_script id script
    if failed then again else pure found

  -- The two branches on what `Get` answered.
  unfoldable pub channel_live_cell_for :
      M W T (LiveCell × ChannelStatus) → ℕ → Option Script → M W T (LiveCell × ChannelStatus)
  unfolding get_cached_channel_live_cell find_channel_live_cell
  channel_live_cell_for again id none = find_channel_live_cell again id
  channel_live_cell_for again id (some script) = get_cached_channel_live_cell script

  -- `getChannelLiveCellWithCache`. The fuel bounds its calls of itself.
  unfoldable pub get_channel_live_cell : ℕ → ℕ → M W T (LiveCell × ChannelStatus)
  unfolding get_script channel_live_cell_for
  get_channel_live_cell zero id = fail ClientError.out_of_fuel
  get_channel_live_cell (suc fuel) id =
      get_script id >>= channel_live_cell_for (get_channel_live_cell fuel id) id

  -- The second call finds the script that the other caller set.
  unfoldable pub get_channel_live_cell_with_cache : ℕ → M W T (LiveCell × ChannelStatus)
  unfolding get_channel_live_cell
  get_channel_live_cell_with_cache = get_channel_live_cell 2

  -- `GetChannelWithExactPCTS`
  unfoldable pub get_channel_with_exact_pcts : Script → M W T (ℕ × ChannelStatus)
  unfolding get_exact_channel_live_cell
  get_channel_with_exact_pcts pcts = do
    cell ← get_exact_channel_live_cell pcts
    status ← give (parsed_status f cell)
    pure (cell.block_number, status)

  -- `GetChannelWithID`
  unfoldable pub get_channel_with_id : ℕ → M W T (ℕ × Script × ChannelConstants × ChannelStatus)
  unfolding get_channel_live_cell_with_cache parsed_constants
  get_channel_with_id id = do
    found ← get_channel_live_cell_with_cache id
    script ← deref (type_script_of found.0)
    constants ← give (parsed_constants f script)
    pure (found.0.block_number, script, constants, found.1)

  -- `GetBlockTime`, in milliseconds: a timestamp above `math.MaxInt64` is an error.
  unfoldable pub get_block_time : ℕ → M W T ℕ
  get_block_time block = do
    time ← rpc sdk node others ctx (node.get_block_timestamp ctx block)
    require (ltb time (2 ^ 63)) ClientError.timestamp
    pure time
