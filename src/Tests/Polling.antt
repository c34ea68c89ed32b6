-- ===== src/Tests/Polling.antt =====
-- A channel is found, then missed three times with a failed poll in between.
use perun_ckb_backend.Prelude.{◌≡◌, refl, false, Option, none, some, List, [], ◌∷◌, leb}
use perun_ckb_backend.Transaction.Handler.{ChannelStatus}
use perun_ckb_backend.Adjudicator.{
  Chain, Run, Wake, polled, live_cell, no_live_cell, failed, run, start_run,
  conclude_miss_threshold,
}
use perun_ckb_backend.Adjudicator.Misses.{count, run-concluded}
use perun_ckb_backend.Tests.{script}

abbrev chain : Chain
chain = record {
  get_block_time = λ attempt block. some 1000;
  duration_of = λ args. some 60;
  status_bytes = λ s. s.vcts_hash ∷ [];
}

abbrev status : ChannelStatus
status = record {
  state = record { channel_id = 7; version = 0; is_final = false; allocation = []; locked = [] };
  funded = false;
  disputed = false;
  vc_disputed = false;
  vcts_hash = 0;
}

abbrev wakes : List Wake
wakes =
    polled (live_cell 5 (script 9) (some status))
    ∷ polled no_live_cell
    ∷ polled no_live_cell
    ∷ polled failed
    ∷ polled no_live_cell
    ∷ []

abbrev run_of : Option Run → Run
unfolding start_run
run_of none = start_run
run_of (some r) = r

runs : run chain wakes start_run ≡ some (run_of (run chain wakes start_run))
unfolding run start_run
runs = refl

open_run : (run_of (run chain wakes start_run)).closed ≡ none
unfolding run run_of
open_run = refl

run-concluded_example :
    ((run_of (run chain wakes start_run)).subscription.concluded
      ≡ leb conclude_miss_threshold (count (false, 0) wakes).1)
    × ((run_of (run chain wakes start_run)).subscription.found_live_cell_once
        ≡ (count (false, 0) wakes).0)
    × ((count (false, 0) wakes).0 ≡ false → (count (false, 0) wakes).1 ≡ 0)
run-concluded_example = run-concluded chain wakes (run_of (run chain wakes start_run)) runs open_run
