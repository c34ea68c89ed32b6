-- ===== src/Tests/Serving.antt =====
-- The client of the test node serves requests.
use perun_ckb_backend.Prelude.{
  ℕ, ◌<◌, ◌≡◌, ◌≢◌, refl, subst, ◌↔◌, ◌⊎◌, inl, true, none, some, List, [], ◌∷◌, All, ok, err,
  arith,
}
use perun_ckb_backend.Ckb.{Script}
use perun_ckb_backend.Client.{
  require, ◌>>◌, Context, ClientError, LiveCell, TransactionStatus, TransactionWithStatus, World,
  ◌>>=◌, next_step, pure, give, deref,
}
use perun_ckb_backend.Client.Retry.{retry_rpc, Failures, retry_rpc-ok}
use perun_ckb_backend.Client.Cache.{cache_get, cache_set, run_sets, cache_set-stable}
use perun_ckb_backend.Client.Calls.{type_script_of, rpc, after_call}
use perun_ckb_backend.Client.Cells.{
  get_first_channel_live_cell_with_id, get_channel_live_cell_with_cache, get_channel_with_id,
  find_channel_live_cell, get_all_channel_live_cells, set_script, parsed_constants, parsed_status,
}
use perun_ckb_backend.Client.Config.{new_client}
use perun_ckb_backend.Client.Cells.First.{
  Finds, IsSkipped, get_first_channel_live_cell_with_id-Finds,
  get_first_channel_live_cell_with_id-fails,
}
use perun_ckb_backend.Client.Cells.Identity.{HasScript, SearchesExactly, Same}
use perun_ckb_backend.Client.Cells.Total.{get_channel_live_cell_with_cache-ends}
use perun_ckb_backend.Client.Stable.{Grows}
use perun_ckb_backend.Client.Submit.{await}
use perun_ckb_backend.Client.Submit.Awaits.{Polls, await-commits}
use perun_ckb_backend.Client.History.{
  Request, channel_with_id, dispute_channel, block_time, run, run-Grows, run-Same,
}
use perun_ckb_backend.Tests.{sdk, script, state, params}
use perun_ckb_backend.Tests.Clients.{
  deployment, formats, others, node, cell_with, status, constants, client, world,
}

-- The first attempt fails, and the second one returns the tip.
retry_rpc-ok_example :
    (retry_rpc (node.wait Context.caller) (node.get_tip_header Context.caller) 3 0 ≡ (ok 77, 3)) ↔ (
      (k : ℕ) × (v : ℕ) × (k < 3)
      × Failures (node.wait Context.caller) (node.get_tip_header Context.caller) k 0 v
      × (node.get_tip_header Context.caller v ≡ (ok 77, 3)))
retry_rpc-ok_example =
    retry_rpc-ok (node.wait Context.caller) (node.get_tip_header Context.caller) 3 0 77 3

accepted : (cache_set sdk 7 (script 9) []).0 ≡ ok tt
unfolding cache_set
accepted = refl

-- Another caller tries to set another script.
cache_set-stable_example :
    (t : Script) × (cache_get 7
        (run_sets sdk ((7, script 8) ∷ []) (cache_set sdk 7 (script 9) []).1)
      ≡ some t)
    × (((cache_get 7 [] ≡ none) × (t ≡ script 9))
        ⊎ ((cache_get 7 [] ≡ some t) × (sdk.script_equals t (script 9) ≡ true)))
cache_set-stable_example = cache_set-stable sdk 7 (script 9) [] ((7, script 8) ∷ []) accepted

-- A cell of another contract comes first.
abbrev cells : List LiveCell
cells = cell_with (script 9) ∷ cell_with (script 101) ∷ []

get_first_channel_live_cell_with_id-Finds_example :
    (get_first_channel_live_cell_with_id formats deployment 7 cells
      ≡ ok (cell_with (script 101), status))
    ↔ Finds formats deployment 7 cells (cell_with (script 101)) status
get_first_channel_live_cell_with_id-Finds_example =
    get_first_channel_live_cell_with_id-Finds formats deployment 7 cells (cell_with (script 101))
      status

get_first_channel_live_cell_with_id-fails_example :
    (get_first_channel_live_cell_with_id formats deployment 6 cells
      ≡ err ClientError.no_channel_live_cell)
    ↔ All (IsSkipped formats deployment 6) cells
get_first_channel_live_cell_with_id-fails_example =
    get_first_channel_live_cell_with_id-fails formats deployment 6 cells

get_channel_live_cell_with_cache-ends_example :
    (get_channel_live_cell_with_cache sdk formats deployment node others Context.caller 7 world).0
    ≢ err ClientError.out_of_fuel
get_channel_live_cell_with_cache-ends_example =
    get_channel_live_cell_with_cache-ends sdk formats deployment node others Context.caller 7 world

abbrev requests : List Request
requests = channel_with_id 7 ∷ dispute_channel 7 state [] params ∷ block_time 9 ∷ []

run-Grows_example : Grows world (run client Context.caller requests world)
run-Grows_example = run-Grows client Context.caller requests world

node-SearchesExactly : SearchesExactly sdk formats deployment node others Context.caller
unfolding type_script_of
node-SearchesExactly = record {
  exactly = λ s limit x y cells h.
      subst (All (HasScript sdk formats deployment node others Context.caller s))
        {x = cell_with s ∷ []} {y = cells} (ground arith) ((s, refl, inl refl), tt);
}

abbrev found : World ℕ ℕ
unfolding get_channel_with_id
found = (get_channel_with_id sdk formats deployment node others Context.caller 7 world).1

abbrev served : World ℕ ℕ
unfolding run
served = run client Context.caller (block_time 9 ∷ channel_with_id 7 ∷ []) found

finds :
    get_channel_with_id sdk formats deployment node others Context.caller 7 world
    ≡ (ok (50, record { code_hash = 101; hash_type = 1; args = some [] }, constants, status), found)
unfolding get_channel_with_id ◌>>=◌ next_step pure give deref cache_get sdk new_client
    type_script_of find_channel_live_cell rpc after_call retry_rpc run_sets
    get_all_channel_live_cells set_script cache_set get_first_channel_live_cell_with_id
    parsed_constants parsed_status
finds = refl

finds_again :
    get_channel_with_id sdk formats deployment node others Context.caller 7
      (run client Context.caller (block_time 9 ∷ channel_with_id 7 ∷ []) found)
    ≡ (
      ok (50, record { code_hash = 101; hash_type = 1; args = some [] }, constants, status),
      (get_channel_with_id sdk formats deployment node others Context.caller 7 served).1,
    )
unfolding get_channel_with_id ◌>>=◌ next_step pure give deref cache_get sdk new_client
    type_script_of find_channel_live_cell rpc after_call retry_rpc run_sets
    get_all_channel_live_cells set_script cache_set get_first_channel_live_cell_with_id
    parsed_constants parsed_status run ◌>>◌ require
finds_again = refl

run-Same_example :
    (r : Script) × (cache_get 7 found.cache ≡ some r)
    × Same sdk formats deployment node others Context.caller r
        (record { code_hash = 101; hash_type = 1; args = some [] })
    × Same sdk formats deployment node others Context.caller r
        (record { code_hash = 101; hash_type = 1; args = some [] })
run-Same_example =
    run-Same client Context.caller 7 world found
      (get_channel_with_id sdk formats deployment node others Context.caller 7 served).1
      (block_time 9 ∷ channel_with_id 7 ∷ []) 50 50
      (record { code_hash = 101; hash_type = 1; args = some [] })
      (record { code_hash = 101; hash_type = 1; args = some [] }) constants constants status status
      node-SearchesExactly finds finds_again

abbrev pending : TransactionWithStatus
pending = record { status = TransactionStatus.pending; block_hash = none }

-- The transaction is pending in two rounds.
abbrev waited : World ℕ ℕ
unfolding new_client
waited = new_client 4

await-commits_example : (await client Context.caller 10 12 pending world ≡ (ok tt, waited)) ↔ (
    (k : ℕ) × (t : TransactionWithStatus) × (k < 10)
    × Polls client Context.caller 12 k pending world t waited
    × (t.status ≡ TransactionStatus.committed))
await-commits_example = await-commits client Context.caller 12 10 pending world waited

commits : await client Context.caller 10 12 pending world ≡ (ok tt, waited)
unfolding await ◌>>=◌ rpc retry_rpc waited pure run_sets
commits = refl
