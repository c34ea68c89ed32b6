-- ===== src/Client/History.antt =====
-- A client over its life: requests one after the other, each of which may succeed or fail.
use perun_ckb_backend.Prelude.{ℕ, ◌≡◌, some, List, [], ◌∷◌, ok}
use perun_ckb_backend.Ckb.{Script}
use perun_ckb_backend.Perun.{State, Params}
use perun_ckb_backend.Transaction.Handler.{ChannelStatus, ChannelConstants}
use perun_ckb_backend.Client.{Context, World}
use perun_ckb_backend.Client.Config.{Client}
use perun_ckb_backend.Client.Cache.{cache_get}
use perun_ckb_backend.Client.Stable.{Grows, Grows-refl, Grows-trans}
use perun_ckb_backend.Client.Cells.{
  get_channel_with_exact_pcts, get_channel_with_id, get_block_time,
}
use perun_ckb_backend.Client.Cells.Keeps.{
  get_channel_with_exact_pcts-Keeps, get_channel_with_id-Keeps, get_block_time-Keeps,
}
use perun_ckb_backend.Client.Cells.Identity.{SearchesExactly, Same, get_channel_with_id-Same}
use perun_ckb_backend.Client.Channel.{start, fund, dispute, close, force_close, abort}
use perun_ckb_backend.Client.VirtualChannel.{VcRequest, dispute_vc}
use perun_ckb_backend.Client.VirtualClose.{force_close_with_vc}
use perun_ckb_backend.Client.Keeps.Ledger.{
  start-Keeps, fund-Keeps, dispute-Keeps, close-Keeps, force_close-Keeps, abort-Keeps,
}
use perun_ckb_backend.Client.Keeps.Virtual.{dispute_vc-Keeps, force_close_with_vc-Keeps}

-- The methods of `CKBClient`, with their arguments.
pub data Request : Type 0 where
  start_channel : Params → State → Request
  abort_channel : Script → Params → State → Request
  fund_channel : Script → State → Params → Request
  dispute_channel : ℕ → State → List (List ℕ) → Params → Request
  dispute_virtual : VcRequest → Request
  close_channel : ℕ → State → List (List ℕ) → Params → Request
  force_close_channel : ℕ → State → Params → Request
  force_close_virtual : ℕ → ℕ → State → State → List (List ℕ) → Params → List ℕ → Request
  channel_with_id : ℕ → Request
  channel_with_exact_pcts : Script → Request
  block_time : ℕ → Request

module _ {W T C : Type 0} (cl : Client W T C) (ctx : Context) where
  -- The world after a request.
  unfoldable pub perform : Request → World W T → World W T
  unfolding start abort fund dispute dispute_vc close force_close force_close_with_vc
      get_channel_with_id get_channel_with_exact_pcts get_block_time
  perform (start_channel params s) w = (start cl ctx params s w).1
  perform (abort_channel script params s) w = (abort cl ctx script params s w).1
  perform (fund_channel pcts s params) w = (fund cl ctx pcts s params w).1
  perform (dispute_channel id s sigs params) w = (dispute cl ctx id s sigs params w).1
  perform (dispute_virtual req) w = (dispute_vc cl ctx req w).1
  perform (close_channel id s sigs params) w = (close cl ctx id s sigs params w).1
  perform (force_close_channel id s params) w = (force_close cl ctx id s params w).1
  perform (force_close_virtual id vc_id s v sigs params index_map) w =
      (force_close_with_vc cl ctx id vc_id s v sigs params index_map w).1
  perform (channel_with_id id) w =
      (get_channel_with_id cl.sdk cl.formats cl.deployment cl.node cl.others ctx id w).1
  perform (channel_with_exact_pcts pcts) w =
      (get_channel_with_exact_pcts cl.sdk cl.formats cl.deployment cl.node cl.others ctx pcts w).1
  perform (block_time block) w =
      (get_block_time cl.sdk cl.formats cl.deployment cl.node cl.others ctx block w).1

  unfoldable pub run : List Request → World W T → World W T
  unfolding perform
  run [] w = w
  run (r ∷ rs) w = run rs (perform r w)

  perform-Grows : (r : Request) (w : World W T) → Grows w (perform r w)
  unfolding perform
  perform-Grows (start_channel params s) w = (start-Keeps cl ctx params s).grows w
  perform-Grows (abort_channel script params s) w = (abort-Keeps cl ctx script params s).grows w
  perform-Grows (fund_channel pcts s params) w = (fund-Keeps cl ctx pcts s params).grows w
  perform-Grows (dispute_channel id s sigs params) w =
      (dispute-Keeps cl ctx id s sigs params).grows w
  perform-Grows (dispute_virtual req) w = (dispute_vc-Keeps cl ctx req).grows w
  perform-Grows (close_channel id s sigs params) w = (close-Keeps cl ctx id s sigs params).grows w
  perform-Grows (force_close_channel id s params) w = (force_close-Keeps cl ctx id s params).grows w
  perform-Grows (force_close_virtual id vc_id s v sigs params index_map) w =
      (force_close_with_vc-Keeps cl ctx id vc_id s v sigs params index_map).grows w
  perform-Grows (channel_with_id id) w =
      (get_channel_with_id-Keeps cl.sdk cl.formats cl.deployment cl.node cl.others ctx id).grows w
  perform-Grows (channel_with_exact_pcts pcts) w =
      (get_channel_with_exact_pcts-Keeps cl.sdk cl.formats cl.deployment cl.node cl.others ctx
          pcts).grows
        w
  perform-Grows (block_time block) w =
      (get_block_time-Keeps cl.sdk cl.formats cl.deployment cl.node cl.others ctx block).grows w

  -- Whatever requests a client serves, and whatever its other callers do meanwhile, its caches hold
  -- every script that they held before, under the same id.
  pub run-Grows : (rs : List Request) (w : World W T) → Grows w (run rs w)
  unfolding run
  run-Grows [] w = Grows-refl w
  run-Grows (r ∷ rs) w = Grows-trans (perform-Grows r w) (run-Grows rs (perform r w))

  -- If the node answers an exact search with cells that have the script, two lookups of a channel that
  -- succeed return the same type script, up to `Script.Equals` with the one script that is cached for
  -- the channel from the first one on, whatever requests the client serves in between.
  pub run-Same :
      (id : ℕ) (w v x : World W T) (rs : List Request) (block later : ℕ) (s t : Script)
      (b c : ChannelConstants) (status status' : ChannelStatus)
      → SearchesExactly cl.sdk cl.formats cl.deployment cl.node cl.others ctx
      → get_channel_with_id cl.sdk cl.formats cl.deployment cl.node cl.others ctx id w
        ≡ (ok (block, s, b, status), v)
      → get_channel_with_id cl.sdk cl.formats cl.deployment cl.node cl.others ctx id (run rs v)
        ≡ (ok (later, t, c, status'), x)
      → (r : Script) × (cache_get id v.cache ≡ some r)
        × Same cl.sdk cl.formats cl.deployment cl.node cl.others ctx r s
        × Same cl.sdk cl.formats cl.deployment cl.node cl.others ctx r t
  run-Same id w v x rs block later s t b c status status' law first second =
      get_channel_with_id-Same cl.sdk cl.formats cl.deployment cl.node cl.others ctx law id w v
        (run rs v) x block later s t b c status status' first (run-Grows rs v) second
