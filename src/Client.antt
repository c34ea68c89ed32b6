-- ===== src/Client.antt =====
-- client/: the client of a CKB node. The node is a state with the calls that the client makes; a method
-- takes that state with the two script caches, which all copies of a client share, and returns them
-- beside a result or an error.
pub mod Retry
pub mod Cache
pub mod Calls
pub mod Cells
pub mod Stable
pub mod Config
pub mod Submit
pub mod Channel
pub mod VirtualChannel
pub mod VirtualClose
pub mod Keeps
pub mod History
pub mod Silent
pub mod Interface
pub mod Versions
pub mod Steps
use perun_ckb_backend.Prelude.{
  ℕ, Bool, false, Option, none, some, List, ◌++◌, [], ◌∷◌, Result, ok, err, if◌then◌else◌,
}
use perun_ckb_backend.Prelude.GoMap.{GoMap}
use perun_ckb_backend.Ckb.{Script, OutPoint, CellOutput, Sdk}
use perun_ckb_backend.Deployment.{Deployment}
use perun_ckb_backend.Transaction.Funds.{TxError}
use perun_ckb_backend.Transaction.Handler.{ChannelStatus, VirtualChannelStatus, ChannelConstants}

-- A context of the caller, or the one with a timeout of its own under which a channel is aborted.
pub data Context : Type 0 where
  caller cleanup : Context

-- The errors that the retries tell apart.
pub data RpcError : Type 0 where
  canceled deadline_exceeded unavailable : RpcError

pub data ClientError : Type 0 where
  rpc_error : RpcError → ClientError
  rpc_canceled rpc_failed context_done : ClientError
  no_channel_live_cell too_many_cells bad_status bad_constants : ClientError
  signature_count encoding_failed same_parents parent_not_found old_parent : ClientError
  no_funds no_token rejected asset_not_found invalid_asset timestamp out_of_fuel : ClientError
  cache_rewrite sign_failed pcts_not_set panic : ClientError
  building : TxError → ClientError

-- `indexer.LiveCell`; `none` is an output that the node left out.
pub record LiveCell : Type 0 where
  pub block_number : ℕ
  pub out_point : OutPoint
  pub output : Option CellOutput
  pub output_data : List ℕ

pub data ScriptType : Type 0 where
  lock_script type_script : ScriptType

pub data SearchMode : Type 0 where
  exact prefix : SearchMode

-- `indexer.SearchKey`, without a filter.
pub record SearchKey : Type 0 where
  pub script : Script
  pub script_type : ScriptType
  pub search_mode : SearchMode

pub data TransactionStatus : Type 0 where
  committed pending : TransactionStatus
  rejected : Option (List ℕ) → TransactionStatus

-- `types.TransactionWithStatus`
pub record TransactionWithStatus : Type 0 where
  pub status : TransactionStatus
  pub block_hash : Option ℕ

-- `types.CellWithStatus`: the output of the cell, if there is one.
abbrev pub CellWithStatus : Type 0
CellWithStatus = Option CellOutput

-- The answer to a call, and the state of the node after it.
abbrev pub Rpc : Type 0 → Type 0 → Type 0
Rpc W A = W → Result RpcError A × W

-- `rpc.Client`: the calls that the client makes, for transactions of a type `T`. `wait` is a `select`
-- between the end of a context and a delay, and says whether the context ended first.
pub record Node (W T : Type 0) : Type 0 where
  pub get_cells : Context → SearchKey → ℕ → Rpc W (List LiveCell)
  pub get_tip_header : Context → Rpc W ℕ
  pub get_transaction : Context → ℕ → Rpc W TransactionWithStatus
  pub get_live_cell : Context → OutPoint → Rpc W CellWithStatus
  pub send_transaction : Context → T → Rpc W ℕ
  pub get_block_timestamp : Context → ℕ → Rpc W ℕ
  pub wait : Context → W → Bool × W

-- The state of the node, the two script caches, and the transactions that were handed to the node.
pub record World (W T : Type 0) : Type 0 where
  pub node_state : W
  pub cache : GoMap Script
  pub vc_cache : GoMap Script
  pub sent : List T

-- `ChannelStatusFromSlice` and its like, in molecule; `none` is an error.
pub record Formats : Type 0 where
  pub parse_status : List ℕ → Option ChannelStatus
  pub parse_vc_status : List ℕ → Option VirtualChannelStatus
  pub parse_constants : Option (List ℕ) → Option ChannelConstants

-- What the other callers of the same client set in its caches while a call of the node runs.
pub record Others (W : Type 0) : Type 0 where
  pub sets : W → List (ℕ × Script)
  pub vc_sets : W → List (ℕ × Script)

-- A method of the client.
abbrev pub M : Type 0 → Type 0 → Type 0 → Type 0
M W T A = World W T → Result ClientError A × World W T

module _ {W T : Type 0} where
  unfoldable pub pure : {A : Type 0} → A → M W T A
  pure a w = (ok a, w)

  unfoldable pub fail : {A : Type 0} → ClientError → M W T A
  fail e w = (err e, w)

  unfoldable pub next_step :
      {A B : Type 0}
      → (A → M W T B)
      → Result ClientError A
      → World W T
      → Result ClientError B × World W T
  next_step f (err e) w = (err e, w)
  next_step f (ok a) w = f a w

  infixl 5 ◌>>=◌ ◌>>◌
  unfoldable pub ◌>>=◌ : {A B : Type 0} → M W T A → (A → M W T B) → M W T B
  unfolding next_step
  ◌>>=◌ m f w = next_step f (m w).0 (m w).1

  unfoldable pub ◌>>◌ : {B : Type 0} → M W T (Unit {0}) → M W T B → M W T B
  unfolding ◌>>=◌
  m >> k = m >>= λ done. k

  -- Go's `if !b { return failure }`.
  unfoldable pub require : Bool → ClientError → M W T (Unit {0})
  unfolding pure fail
  require b e = if b then pure tt else fail e

  -- A result that needs no state.
  unfoldable pub give : {A : Type 0} → Result ClientError A → M W T A
  give r w = (r, w)

  -- The value of a pointer; a nil pointer panics.
  unfoldable pub deref : {A : Type 0} → Option A → M W T A
  unfolding pure fail
  deref none = fail panic
  deref (some a) = pure a
