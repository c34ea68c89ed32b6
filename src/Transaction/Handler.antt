-- ===== src/Transaction/Handler.antt =====
-- `PerunScriptHandler` of transaction/handler.go: what a transaction of a channel is made of. A
-- transaction under construction is the list of the calls on the builder, the last one at its end.
pub mod Status
pub mod Payout
pub mod Ledger
pub mod Virtual
pub mod Dispatch
pub mod Paid
pub mod Settle
use perun_ckb_backend.Prelude.{
  ℕ, Bool, Option, none, some, List, [], ◌∷◌, ◌++◌, Result, ok, err, if◌then◌else◌, ℤ,
}
use perun_ckb_backend.Ckb.{Script, CellInput, CellOutput, OutPoint, Sdk}
use perun_ckb_backend.Encoding.Bytes.{EncodeError}
use perun_ckb_backend.Encoding.State.{PackedState}
use perun_ckb_backend.Encoding.Params.{PackedParams}
use perun_ckb_backend.Encoding.Signature.{Curve}
use perun_ckb_backend.Wallet.Address.{PackedParticipant}
use perun_ckb_backend.Transaction.Funds.{TxError}

-- A call on `collector.TransactionBuilder`.
pub data Call : Type 0 where
  cell_dep : ℕ → Call
  header_dep : ℕ → Call
  input_cell : CellInput → Call
  output_cell : CellOutput → List ℕ → Call
  witness : ℕ → List ℕ → Call

-- What a builder answers after the calls so far: the index of the input that `AddInput` just added,
-- and whether `SetWitness` has a witness at an index.
pub record Collector : Type 0 where
  pub input_index : List Call → ℕ
  pub has_witness : List Call → ℕ → Bool

unfoldable pub add_cell_dep : ℕ → List Call → List Call
add_cell_dep d calls = calls ++ cell_dep d ∷ []

unfoldable pub add_header_dep : ℕ → List Call → List Call
add_header_dep h calls = calls ++ header_dep h ∷ []

unfoldable pub add_output : CellOutput → List ℕ → List Call → List Call
add_output cell bytes calls = calls ++ output_cell cell bytes ∷ []

unfoldable pub add_input : CellInput → List Call → List Call
add_input x calls = calls ++ input_cell x ∷ []

unfoldable pub add_cell_deps : List ℕ → List Call → List Call
unfolding add_cell_dep
add_cell_deps [] calls = calls
add_cell_deps (d ∷ ds) calls = add_cell_deps ds (add_cell_dep d calls)

unfoldable pub add_header_deps : List ℕ → List Call → List Call
unfolding add_header_dep
add_header_deps [] calls = calls
add_header_deps (h ∷ hs) calls = add_header_deps hs (add_header_dep h calls)

unfoldable pub add_inputs : List CellInput → List Call → List Call
unfolding add_input
add_inputs [] calls = calls
add_inputs (x ∷ xs) calls = add_inputs xs (add_input x calls)

unfoldable pub set_witness : Collector → ℕ → List ℕ → List Call → Result TxError (List Call)
set_witness c i bytes calls =
    if c.has_witness calls i then ok (calls ++ witness i bytes ∷ []) else err TxError.set_witness

-- The input of an out point that is not bound to a time.
unfoldable pub input_at : OutPoint → CellInput
input_at o = record { since = 0; previous_output = o }

-- `PerunScriptHandler`; `sudt_deps` stand in the order in which Go ranges over the map.
pub record PerunScriptHandler : Type 0 where
  pub pcts_dep : ℕ
  pub pcls_dep : ℕ
  pub pfls_dep : ℕ
  pub vcls_dep : ℕ
  pub vcts_dep : ℕ
  pub sudt_deps : List ℕ
  pub pcts_code_hash : ℕ
  pub pcts_hash_type : ℕ
  pub pcls_code_hash : ℕ
  pub pcls_hash_type : ℕ
  pub vcts_code_hash : ℕ
  pub vcts_hash_type : ℕ
  pub vcls_code_hash : ℕ
  pub vcls_hash_type : ℕ
  pub pfls_code_hash : ℕ
  pub pfls_hash_type : ℕ
  pub pfls_min_capacity : ℕ
  pub default_lock_script_dep : ℕ
  pub omni_lock_script_dep : List ℕ

-- The molecule `ChannelStatus`.
pub record ChannelStatus : Type 0 where
  pub state : PackedState
  pub funded : Bool
  pub disputed : Bool
  pub vc_disputed : Bool
  pub vcts_hash : ℕ

-- The molecule `ParentData`: how the parties of a virtual channel stand in one of its parents.
pub record ParentData : Type 0 where
  pub index0 : ℕ
  pub index1 : ℕ
  pub pcts_hash : ℕ

-- The molecule `VirtualChannelStatus`; its parents are read by the contract only.
pub record VirtualChannelStatus : Type 0 where
  pub vc_state : PackedState
  pub parents : List ParentData
  pub first_force_close : Bool
  pub owner : PackedParticipant

-- The molecule `VCDispute`.
pub record VcDispute : Type 0 where
  pub sig_a : List ℕ
  pub sig_b : List ℕ
  pub parent_sig_a : List ℕ
  pub parent_sig_b : List ℕ

-- The union `ChannelWitness`.
pub data ChannelWitness : Type 0 where
  fund : ChannelWitness
  abort : ChannelWitness
  force_close : ChannelWitness
  close : PackedState → List ℕ → List ℕ → ChannelWitness
  dispute : List ℕ → List ℕ → ChannelWitness
  vc_dispute : VcDispute → ChannelWitness

-- The molecule `ChannelConstants`.
pub record ChannelConstants : Type 0 where
  pub params : PackedParams
  pub pcls_code_hash : ℕ
  pub pcls_hash_type : ℕ
  pub pfls_code_hash : ℕ
  pub pfls_hash_type : ℕ
  pub pfls_min_capacity : ℕ
  pub thread_token : List ℕ

-- The molecule `VCChannelConstants`.
pub record VcChannelConstants : Type 0 where
  pub params : PackedParams
  pub vcls_code_hash : ℕ
  pub vcls_hash_type : ℕ

-- `AsSlice` of the molecule types, and the bytes of a hash.
pub record Molecule : Type 0 where
  pub status_bytes : ChannelStatus → List ℕ
  pub vc_status_bytes : VirtualChannelStatus → List ℕ
  pub witness_bytes : ChannelWitness → List ℕ
  pub constants_bytes : ChannelConstants → List ℕ
  pub vc_constants_bytes : VcChannelConstants → List ℕ
  pub hash_bytes : ℕ → List ℕ

-- An error of the encodings, passed on.
unfoldable pub encoded {ℓ} : {A : Type ℓ} → Result EncodeError A → Result TxError A
encoded (ok a) = ok a
encoded (err e) = err TxError.encoding

-- The cell dependencies of the omni lock, if it is deployed: its first two entries.
unfoldable pub add_omni_deps : List ℕ → List Call → Result TxError (List Call)
unfolding add_cell_dep
add_omni_deps [] calls = ok calls
add_omni_deps (d ∷ []) calls = err TxError.panic
add_omni_deps (d ∷ e ∷ ds) calls = ok (add_cell_dep e (add_cell_dep d calls))

-- `mkPaymentOutput`
unfoldable pub mk_payment_output : Script → ℕ → CellOutput
mk_payment_output lock bal = record { capacity = bal; lock = lock; type_script = none }

-- A cell whose capacity is what it occupies with its data.
unfoldable pub mk_occupied_cell : Sdk → Script → Option Script → List ℕ → CellOutput
mk_occupied_cell sdk lock type_script bytes =
    let cell : CellOutput = record { capacity = 0; lock = lock; type_script = type_script } in
    record cell { capacity = sdk.occupied_capacity cell bytes }
