-- ===== src/Encoding/Params.antt =====
-- encoding/channel_parameters.go: a channel's parameters as the molecule `ChannelParameters`. Its
-- app is always the default one.
pub mod Laws
use perun_ckb_backend.Prelude.{
  ℕ, Bool, not, Option, none, some, List, [], ◌∷◌, length, ◌==◌, Result, ok, err, ◌>>=◌, ◌>>◌,
  check,
}
use perun_ckb_backend.Prelude.GoMap
use perun_ckb_backend.Ckb.{Sdk}
use perun_ckb_backend.Asset.{ckb_backend_id}
use perun_ckb_backend.Wallet.Address.{
  Participant, PackedParticipant, Address, participant, other_address, pack_on_chain,
}
use perun_ckb_backend.Perun.{Params, Part}
use perun_ckb_backend.Encoding.Bytes.{EncodeError, pack_nonce}

pub record PackedParams : Type 0 where
  pub is_ledger_channel : Bool
  pub is_virtual_channel : Bool
  pub party_a : PackedParticipant
  pub party_b : PackedParticipant
  pub nonce : List ℕ
  pub challenge_duration : ℕ

module _ (sdk : Sdk) where
  -- `PackAddressToOnChainParticipant`; a nil address is not a participant either.
  unfoldable pub pack_address : Option Address → Result EncodeError PackedParticipant
  pack_address none = err EncodeError.not_participant
  pack_address (some other_address) = err EncodeError.not_participant
  pack_address (some (participant p)) = elim (pack_on_chain sdk p) [
    | err e ↦ err EncodeError.key_is_nil
    | ok packed ↦ ok packed
  ]

  -- `PackChannelParameters` of the two parts of a channel without an app.
  unfoldable pub pack_two_parties : Part → Part → Params → Result EncodeError PackedParams
  unfolding pack_address
  pack_two_parties first second params = do
    a ← pack_address (GoMap.lookup ckb_backend_id first)
    b ← pack_address (GoMap.lookup ckb_backend_id second)
    nonce ← pack_nonce params.nonce
    ok (record {
      is_ledger_channel = not params.virtual_channel;
      is_virtual_channel = params.virtual_channel;
      party_a = a;
      party_b = b;
      nonce = nonce;
      challenge_duration = params.challenge_duration;
    })

  -- The test of the app, before the parts are packed.
  unfoldable pub pack_without_app : Part → Part → Params → Result EncodeError PackedParams
  unfolding pack_two_parties
  pack_without_app first second params = do
    check params.no_app EncodeError.app_channel
    pack_two_parties first second params

  -- The test of the number of parts comes first.
  unfoldable pub pack_parts : List Part → Params → Result EncodeError PackedParams
  unfolding pack_without_app
  pack_parts (first ∷ second ∷ []) params = pack_without_app first second params
  pack_parts parts params = err EncodeError.not_two_parties

  -- `PackChannelParameters`
  unfoldable pub pack_channel_parameters : Params → Result EncodeError PackedParams
  unfolding pack_parts
  pack_channel_parameters params = pack_parts params.parts params
