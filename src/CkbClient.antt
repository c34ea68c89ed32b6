-- ===== src/CkbClient.antt =====
-- `CKBClient` of client/ckbclient.go: what the funder and the adjudicator call of a client. A method
-- runs on the state of the client with its chain, and returns a result or an error with the next state.
use perun_ckb_backend.Prelude.{ℕ, List, Result}
use perun_ckb_backend.Ckb.{Script}
use perun_ckb_backend.Perun.{State, Params}
use perun_ckb_backend.Transaction.Handler.{ChannelStatus, ChannelConstants}
use perun_ckb_backend.Client.{Context, ClientError}
use perun_ckb_backend.Client.VirtualChannel.{VcRequest}

abbrev pub Call : Type 0 → Type 0 → Type 0
Call S A = S → Result ClientError A × S

pub record CkbClient (S : Type 0) : Type 0 where
  pub start : Context → Params → State → Call S Script
  pub abort : Context → Script → Params → State → Call S (Unit {0})
  pub fund : Context → Script → State → Params → Call S (Unit {0})
  pub dispute : Context → ℕ → State → List (List ℕ) → Params → Call S (Unit {0})
  pub dispute_vc : Context → VcRequest → Call S (Unit {0})
  pub close : Context → ℕ → State → List (List ℕ) → Params → Call S (Unit {0})
  pub force_close : Context → ℕ → State → Params → Call S (Unit {0})
  pub force_close_with_vc :
      Context → ℕ → ℕ → State → State → List (List ℕ) → Params → List ℕ → Call S (Unit {0})
  pub get_channel_with_id : Context → ℕ → Call S (ℕ × Script × ChannelConstants × ChannelStatus)
  pub get_channel_with_exact_pcts : Context → Script → Call S (ℕ × ChannelStatus)
  pub get_block_time : Context → ℕ → Call S ℕ
