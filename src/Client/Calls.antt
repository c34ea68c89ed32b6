-- ===== src/Client/Calls.antt =====
-- The calls of client/ckbclient.go to its node, and the parts of live cells that its searches read.
use perun_ckb_backend.Prelude.{ℕ, ◌==◌, Bool, false, ◌&&◌, Option, none, some, ok, err}
use perun_ckb_backend.Ckb.{Script, Sdk}
use perun_ckb_backend.Client.{
  Context, ClientError, LiveCell, SearchKey, type_script, exact, Rpc, Node, World, Others, M,
}
use perun_ckb_backend.Client.Retry.{retry_rpc}
use perun_ckb_backend.Client.Cache.{run_sets}

-- `SearchIndexerLimit`, the attempts of a call, and `math.MaxUint32`
abbrev pub search_indexer_limit : ℕ
search_indexer_limit = 1199

abbrev pub rpc_attempts : ℕ
rpc_attempts = 3

-- A cell whose type script has the code of a contract.
unfoldable pub has_type_code : ℕ → ℕ → LiveCell → Bool
has_type_code code_hash hash_type cell = elim cell.output [
  | none ↦ false
  | some output ↦ elim output.type_script [
    | none ↦ false
    | some t ↦ t.code_hash == code_hash && t.hash_type == hash_type
  ]
]

-- `cell.Output.Type`; nil pointers panic where they are followed.
unfoldable pub type_script_of : LiveCell → Option Script
type_script_of cell = elim cell.output [ none ↦ none | some output ↦ output.type_script ]

-- The key of a search for a type script.
abbrev pub type_key : Script → SearchKey
type_key script = record { script = script; script_type = type_script; search_mode = exact }

module _ {W T : Type 0} (sdk : Sdk) (others : Others W) where
  -- The world after a call that left the node in a state: other callers ran meanwhile.
  unfoldable pub after_call : W → World W T → World W T
  after_call v w = record w {
    node_state = v;
    cache = run_sets sdk (others.sets v) w.cache;
    vc_cache = run_sets sdk (others.vc_sets v) w.vc_cache;
  }

  -- A call that is not tried again.
  unfoldable pub once : {A : Type 0} → Rpc W A → M W T A
  unfolding after_call
  once call w =
      let (r, v) = call w.node_state in
      (elim r [ ok a ↦ ok a | err e ↦ err (ClientError.rpc_error e) ], after_call v w)

module _ {W T : Type 0} (sdk : Sdk) (node : Node W T) (others : Others W) (ctx : Context) where
  -- A call of the node with its retries.
  unfoldable pub rpc : {A : Type 0} → Rpc W A → M W T A
  unfolding after_call
  rpc call w =
      let (r, v) = retry_rpc (node.wait ctx) call rpc_attempts w.node_state in
      (r, after_call sdk others v w)
