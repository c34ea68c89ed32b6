-- ===== src/Funder.antt =====
-- channel/funder/funder.go: the two parties of a channel wait until it is funded on the chain.
pub mod Outcome
pub mod Verified
use perun_ckb_backend.Prelude.{
  ℕ, zero, suc, ◌==◌, ◌&&◌, ◌^◌, ltb, Bool, true, false, Option, none, some, List, [], ◌∷◌,
  get_elem?, Result, ok, err, ◌>>=◌, ◌>>◌, check, bytes_equal, if◌then◌else◌,
}
use perun_ckb_backend.Prelude.GoMap
use perun_ckb_backend.Ckb.{Script, Sdk}
use perun_ckb_backend.Asset.{ckb_backend_id}
use perun_ckb_backend.Perun.{State, Params, Part, GoPerun}
use perun_ckb_backend.Wallet.Address.{as_participant}
use perun_ckb_backend.Deployment.{Deployment}
use perun_ckb_backend.Encoding.State.{PackedState, pack_channel_state}
use perun_ckb_backend.Transaction.Handler.{ChannelStatus, ChannelConstants}
use perun_ckb_backend.Client.{Context, ClientError, caller, cleanup}
use perun_ckb_backend.CkbClient.{CkbClient}

pub data FundError : Type 0 where
  client_error : ClientError → FundError
  abort_failed : ClientError → FundError
  context_done not_participant invalid_index panic out_of_fuel : FundError
  bad_hash_type bad_constants bad_duration bad_encoding bad_state : FundError

-- `Funder`, with what it takes from the SDK, molecule and go-perun: the type of a hash from its byte, the
-- bytes of a packed state, and the id of a channel's parameters. `wait` is the `select` between the end of
-- the context and the polling interval, and says whether the context ended first.
pub record Funder (S : Type 0) : Type 0 where
  pub client : CkbClient S
  pub deployment : Deployment
  pub max_iterations_until_abort : ℕ
  pub wait : S → Bool × S
  pub sdk : Sdk
  pub perun : GoPerun
  pub deserialize_hash_type : ℕ → Option ℕ
  pub state_bytes : PackedState → List ℕ
  pub channel_id : Params → ℕ

-- `channel.FundingReq`
pub record FundingReq : Type 0 where
  pub params : Params
  pub state : State
  pub idx : ℕ

abbrev pub default_max_iterations_until_abort : ℕ
default_max_iterations_until_abort = 12

unfoldable pub passed : {A : Type 0} → Result ClientError A → Result FundError A
passed (ok a) = ok a
passed (err e) = err (client_error e)

-- What `fundPartyA` returns after an abort since the context ended.
unfoldable pub abort_error : Result ClientError (Unit {0}) → FundError
abort_error (ok done) = context_done
abort_error (err e) = abort_failed e

unfoldable pub hash_type_of : Option ℕ → Result FundError ℕ
hash_type_of none = err bad_hash_type
hash_type_of (some t) = ok t

-- `encoding.PackChannelState`, whose errors are passed on.
unfoldable pub packed_of : {E : Type 0} → Result E PackedState → Result FundError PackedState
packed_of (ok s) = ok s
packed_of (err e) = err bad_encoding

module _ {S : Type 0} (f : Funder S) where
  -- The loop of `fundPartyA`, from the number of iterations that are left.
  unfoldable pub poll_funded : ℕ → Script → FundingReq → S → Result FundError (Unit {0}) × S
  unfolding passed abort_error
  poll_funded zero script req s =
      let aborted = f.client.abort caller script req.params req.state s in
      (passed aborted.0, aborted.1)
  poll_funded (suc n) script req s =
      let waited = f.wait s in
      let aborted = f.client.abort cleanup script req.params req.state waited.1 in
      let found = f.client.get_channel_with_exact_pcts caller script waited.1 in
      let later = poll_funded n script req found.1 in
      if waited.0
      then (err (abort_error aborted.0), aborted.1)
      else elim found.0 [ err e ↦ later | ok x ↦ if x.1.funded then (ok tt, found.1) else later ]

  -- `fundPartyA`
  unfoldable pub fund_party_a : FundingReq → S → Result FundError (Unit {0}) × S
  unfolding poll_funded
  fund_party_a req s =
      let started = f.client.start caller req.params req.state s in
      elim started.0 [
        | err e ↦ (err (client_error e), started.1)
        | ok script ↦ poll_funded f.max_iterations_until_abort script req started.1
      ]

  -- The comparison of the constants on the chain with the deployment.
  unfoldable pub same_constants : ChannelConstants → ℕ → ℕ → Bool
  same_constants c pcls_type pfls_type =
      c.pcls_code_hash == f.deployment.pcls_code_hash
      && (pcls_type == f.deployment.pcls_hash_type
          && (c.pfls_code_hash == f.deployment.pfls_code_hash
              && (pfls_type == f.deployment.pfls_hash_type
                  && c.pfls_min_capacity == f.deployment.pfls_min_capacity)))

  -- `verifyChannelIntegrity`
  unfoldable pub verify_channel_integrity :
      FundingReq → ChannelConstants → ChannelStatus → Result FundError (Unit {0})
  unfolding hash_type_of same_constants pack_channel_state packed_of
  verify_channel_integrity req c status = do
    pcls_type ← hash_type_of (f.deserialize_hash_type c.pcls_hash_type)
    pfls_type ← hash_type_of (f.deserialize_hash_type c.pfls_hash_type)
    check (same_constants c pcls_type pfls_type) bad_constants
    check (ltb c.params.challenge_duration (2 ^ 63)) bad_duration
    packed ← packed_of (pack_channel_state f.sdk f.perun req.state)
    check (bytes_equal (f.state_bytes packed) (f.state_bytes status.state)) bad_state

  -- What `fundPartyB` does with a channel that it found.
  unfoldable pub fund_found :
      FundingReq
      → ℕ × Script × ChannelConstants × ChannelStatus
      → S
      → Result FundError (Unit {0}) × S
  unfolding verify_channel_integrity passed
  fund_found req x s =
      let funded = f.client.fund caller x.1 req.state req.params s in
      elim (verify_channel_integrity req x.2 x.3) [
        | err e ↦ (err e, s)
        | ok done ↦ if x.3.funded then (ok tt, s) else (passed funded.0, funded.1)
      ]

  -- `fundPartyB`. The fuel bounds its rounds.
  unfoldable pub fund_party_b : ℕ → FundingReq → S → Result FundError (Unit {0}) × S
  unfolding fund_found
  fund_party_b zero req s = (err out_of_fuel, s)
  fund_party_b (suc n) req s =
      let waited = f.wait s in
      let found = f.client.get_channel_with_id caller (f.channel_id req.params) waited.1 in
      let later = fund_party_b n req found.1 in
      if waited.0
      then (err context_done, waited.1)
      else elim found.0 [ err e ↦ later | ok x ↦ fund_found req x found.1 ]

  -- `address.IsParticipant` on a part; an index out of range panics.
  unfoldable pub check_part : Option Part → Result FundError (Unit {0})
  unfolding as_participant
  check_part none = err panic
  check_part (some part) = elim (as_participant (GoMap.lookup ckb_backend_id part)) [
    | none ↦ err not_participant
    | some p ↦ ok tt
  ]

  -- The switch of `Fund` on the index of the party.
  unfoldable pub fund_as : ℕ → ℕ → FundingReq → S → Result FundError (Unit {0}) × S
  unfolding fund_party_a fund_party_b
  fund_as fuel zero req s = fund_party_a req s
  fund_as fuel (suc zero) req s = fund_party_b fuel req s
  fund_as fuel (suc (suc i)) req s = (err invalid_index, s)

  -- `Fund`
  unfoldable pub fund : ℕ → FundingReq → S → Result FundError (Unit {0}) × S
  unfolding check_part fund_as
  fund fuel req s =
      let checked =
        check_part (get_elem? req.params.parts 0) >> check_part (get_elem? req.params.parts 1) in
      elim checked [ err e ↦ (err e, s) | ok done ↦ fund_as fuel req.idx req s ]
