-- ===== src/Tests/Disputing.antt =====
-- The client of the test node disputes its channel with a newer state.
use perun_ckb_backend.Prelude.{ℕ, ◌<◌, ◌≡◌, refl, List, [], ◌∷◌, ok, arith}
use perun_ckb_backend.Perun.{State}
use perun_ckb_backend.Transaction.Handler.{ChannelStatus}
use perun_ckb_backend.Client.{Context, LiveCell}
use perun_ckb_backend.Client.Channel.{cached_cell, dispute}
use perun_ckb_backend.Client.Silent.{dispute-sends}
use perun_ckb_backend.Client.{◌>>=◌, ◌>>◌, give, deref, pure, next_step}
use perun_ckb_backend.Client.Cache.{cache_get, cache_set, run_sets}
use perun_ckb_backend.Client.Retry.{retry_rpc}
use perun_ckb_backend.Client.Cells.{get_first_channel_live_cell_with_id}
use perun_ckb_backend.Client.Calls.{type_script_of}
use perun_ckb_backend.Encoding.Signature.{new_molecule_signature}
use perun_ckb_backend.Transaction.Build.{new_transaction_builder, build}
use perun_ckb_backend.Transaction.Handler.Ledger.{build_dispute_transaction}
use perun_ckb_backend.Transaction.Handler.{add_omni_deps, set_witness, encoded}
use perun_ckb_backend.Transaction.Handler.Status.{update_dispute}
use perun_ckb_backend.Encoding.State.{pack_channel_state, pack_ckbyte_distribution}
use perun_ckb_backend.Encoding.Bytes.{pack_uint128, to_uint128}
use perun_ckb_backend.Asset.{is_compatible_asset, is_invalid, is_sudt_asset}
use perun_ckb_backend.CellIterator.{has_next, next}
use perun_ckb_backend.Transaction.Builder.{
  initialize_script_groups, required_capacity, script_groups_for_hash, append_to_groups,
  add_or_update_change_cell, handle_ckb_fee,
}
use perun_ckb_backend.Transaction.Balance.{balance_transaction}
use perun_ckb_backend.Transaction.Funds.{
  add_values_from_output, equal_assets, new_asset_information, merge_with,
}
use perun_ckb_backend.Tests.{sdk, state, params}
use perun_ckb_backend.Tests.Clients.{client, world}

abbrev newer : State
newer = record state { version = 4 }

-- Two signatures that are encoded already.
abbrev sigs : List (List ℕ)
sigs = (48 ∷ 1 ∷ []) ∷ (48 ∷ 2 ∷ []) ∷ []

sends : (dispute client Context.caller 7 newer sigs params world).1.sent ≡ 12 ∷ []
unfolding dispute ◌>>=◌ ◌>>◌ cache_get retry_rpc give get_first_channel_live_cell_with_id deref
    type_script_of cache_set run_sets new_molecule_signature new_transaction_builder
    build_dispute_transaction add_omni_deps set_witness update_dispute encoded pack_channel_state
    is_compatible_asset is_invalid pack_ckbyte_distribution is_sudt_asset pack_uint128 to_uint128
    sdk pure next_step has_next next build initialize_script_groups balance_transaction
    add_values_from_output equal_assets new_asset_information required_capacity
    script_groups_for_hash append_to_groups merge_with add_or_update_change_cell handle_ckb_fee
sends = refl

dispute-sends_example :
    (found : LiveCell × ChannelStatus) × ((cached_cell client Context.caller 7 world).0 ≡ ok found)
    × (found.1.state.version < newer.version)
dispute-sends_example =
    dispute-sends client Context.caller 7 newer sigs params world (λ e. ground (arith, sends))
