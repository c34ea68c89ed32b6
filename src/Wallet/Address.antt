-- ===== src/Wallet/Address.antt =====
-- wallet/address/address.go: the participants of a channel, and their encoding on the chain. A
-- public key is the number that its compressed bytes spell, and `none` is Go's nil.
pub mod Laws
use perun_ckb_backend.Prelude.{
  ℕ, ◌==◌, ◌&&◌, if◌then◌else◌, Bool, false, Option, none, some, Result, ok, err, ◌>>=◌,
}
use perun_ckb_backend.Prelude.GoMap.{GoMap}
use perun_ckb_backend.Ckb.{Script, Sdk}

pub data AddressError : Type 0 where
  key_is_nil no_script bad_key : AddressError

pub record Participant : Type 0 where
  pub pub_key : Option ℕ
  pub payment_script : Script
  pub unlock_script : Script

-- The molecule `Participant`.
pub record PackedParticipant : Type 0 where
  pub pub_key : ℕ
  pub payment_script_hash : ℕ
  pub unlock_script_hash : ℕ

-- `Script.Pack` and `types.UnpackScript` of ckb-sdk-go, for molecule scripts of a type `P`.
pub record ScriptForm (P : Type 0) : Type 0 where
  pub pack : Script → P
  pub unpack : P → Script

-- The molecule `OffChainParticipant`, with its scripts in their molecule form.
pub record OffChainParticipant (P : Type 0) : Type 0 where
  pub pub_key : ℕ
  pub payment_script : P
  pub unlock_script : P

-- An address of a channel: a `*Participant`, or one of another backend's.
pub data Address : Type 0 where
  participant : Participant → Address
  other_address : Address

-- secp256k1 and the system scripts: `ParsePubKey` of the bytes of a key, `IsEqual`, and
-- `Secp256K1Blake160SignhashAllByPublicKey`.
pub record Keys : Type 0 where
  pub parse_pub_key : ℕ → Option ℕ
  pub is_equal : Option ℕ → Option ℕ → Bool
  pub sighash_all : ℕ → Option Script

-- `AsParticipant`; it panics on another address.
unfoldable pub as_participant : Option Address → Option Participant
as_participant none = none
as_participant (some other_address) = none
as_participant (some (participant p)) = some p

-- `PackSEC1EncodedPubKey`
unfoldable pub pack_pub_key : Option ℕ → Result AddressError ℕ
pack_pub_key none = err AddressError.key_is_nil
pack_pub_key (some key) = ok key

module _ {P : Type 0} (form : ScriptForm P) where
  -- `PackOffChainParticipant`
  unfoldable pub pack_off_chain : Participant → Result AddressError (OffChainParticipant P)
  unfolding pack_pub_key
  pack_off_chain p = do
    key ← pack_pub_key p.pub_key
    ok (record {
      pub_key = key;
      payment_script = form.pack p.payment_script;
      unlock_script = form.pack p.unlock_script;
    })

module _ (sdk : Sdk) where
  -- `PackOnChainParticipant`
  unfoldable pub pack_on_chain : Participant → Result AddressError PackedParticipant
  unfolding pack_pub_key
  pack_on_chain p = do
    key ← pack_pub_key p.pub_key
    ok (record {
      pub_key = key;
      payment_script_hash = sdk.script_hash p.payment_script;
      unlock_script_hash = sdk.script_hash p.unlock_script;
    })

module _ (keys : Keys) where
  -- `UnpackSEC1EncodedPubKey` of 33 bytes.
  unfoldable pub unpack_pub_key : ℕ → Result AddressError ℕ
  unpack_pub_key bytes = elim (keys.parse_pub_key bytes) [
    | none ↦ err AddressError.bad_key
    | some key ↦ ok key
  ]

  -- The lookup of the system script, with its error.
  unfoldable pub default_script : ℕ → Result AddressError Script
  default_script key = elim (keys.sighash_all key) [
    | none ↦ err AddressError.no_script
    | some script ↦ ok script
  ]

  -- `NewDefaultParticipant`
  unfoldable pub new_default_participant : Option ℕ → Result AddressError Participant
  unfolding default_script
  new_default_participant none = err AddressError.key_is_nil
  new_default_participant (some key) = do
    script ← default_script key
    ok (record { pub_key = some key; payment_script = script; unlock_script = script })

  -- `UnpackOnChainParticipant`: the packed hashes are not read.
  unfoldable pub unpack_on_chain : PackedParticipant → Result AddressError Participant
  unfolding unpack_pub_key default_script
  unpack_on_chain op = do
    key ← unpack_pub_key op.pub_key
    script ← default_script key
    ok (record { pub_key = some key; payment_script = script; unlock_script = script })

  -- `UnpackOffChainParticipant`
  unfoldable pub unpack_off_chain :
      {P : Type 0} → ScriptForm P → OffChainParticipant P → Result AddressError Participant
  unfolding unpack_pub_key
  unpack_off_chain form op = do
    key ← unpack_pub_key op.pub_key
    ok (record {
      pub_key = some key;
      payment_script = form.unpack op.payment_script;
      unlock_script = form.unpack op.unlock_script;
    })

  module _ (sdk : Sdk) where
    -- `Participant.Equal`
    unfoldable pub equal : Participant → Address → Bool
    equal p other_address = false
    equal p (participant other) =
        sdk.script_equals p.unlock_script other.unlock_script
        && keys.is_equal p.pub_key other.pub_key
        && sdk.script_equals p.payment_script other.payment_script
