-- ===== src/Encoding/Params/Laws.antt =====
-- The packed parameters of a channel determine what the contract relies on.
use perun_ckb_backend.Prelude.{
  ◌≡◌, refl, true, List, [], ◌∷◌, ok, >>=-eq-ok, inl, inr, Bool-cases, arith, subst, not,
}
use perun_ckb_backend.Prelude.GoMap
use perun_ckb_backend.Ckb.{Sdk}
use perun_ckb_backend.Asset.{ckb_backend_id}
use perun_ckb_backend.Perun.{Params, Part}
use perun_ckb_backend.Encoding.Bytes.{be_value, pack_nonce}
use perun_ckb_backend.Encoding.Bytes.Laws.{pack_nonce-value}
use perun_ckb_backend.Encoding.Params.{
  PackedParams, pack_address, pack_two_parties, pack_without_app, pack_parts,
  pack_channel_parameters,
}

-- What packed parameters say of the parameters they came from.
pub record Describes (sdk : Sdk) (params : Params) (packed : PackedParams) : Type 0 where
  pub first : Part
  pub second : Part
  pub two_parties : params.parts ≡ first ∷ second ∷ []
  pub no_app : params.no_app ≡ true
  pub virtual : packed.is_virtual_channel ≡ params.virtual_channel
  pub ledger : packed.is_ledger_channel ≡ not params.virtual_channel
  pub nonce : be_value packed.nonce ≡ params.nonce
  pub duration : packed.challenge_duration ≡ params.challenge_duration
  pub party_a : pack_address sdk (GoMap.lookup ckb_backend_id first) ≡ ok packed.party_a
  pub party_b : pack_address sdk (GoMap.lookup ckb_backend_id second) ≡ ok packed.party_b

module _ (sdk : Sdk) where
  pack_without_app-Describes :
      (first second : Part) (params : Params) (packed : PackedParams)
      → params.parts ≡ first ∷ second ∷ []
      → pack_without_app sdk first second params ≡ ok packed
      → Describes sdk params packed
  unfolding pack_without_app pack_two_parties
  pack_without_app-Describes first second params packed q h = elim (Bool-cases params.no_app) [
    | inr e ↦ absurd (ground arith)
    | inl e ↦
        let (a, ea, f) =
          >>=-eq-ok (pack_address sdk (GoMap.lookup ckb_backend_id first)) _
            (rw (e, pack_without_app, pack_two_parties) at h) in
        let (b, eb, g) = >>=-eq-ok (pack_address sdk (GoMap.lookup ckb_backend_id second)) _ f in
        let (nonce, en, k) = >>=-eq-ok (pack_nonce params.nonce) _ g in
        let result : PackedParams = record {
          is_ledger_channel = not params.virtual_channel;
          is_virtual_channel = params.virtual_channel;
          party_a = a;
          party_b = b;
          nonce = nonce;
          challenge_duration = params.challenge_duration;
        } in
        subst (Describes sdk params) {x = result} {y = packed} (ground arith) (record {
          first = first;
          second = second;
          two_parties = q;
          no_app = e;
          virtual = refl;
          ledger = refl;
          nonce = pack_nonce-value params.nonce nonce en;
          duration = refl;
          party_a = ea;
          party_b = eb;
        })
  ]

  pack_parts-Describes :
      (parts : List Part) (params : Params) (packed : PackedParams)
      → params.parts ≡ parts
      → pack_parts sdk parts params ≡ ok packed
      → Describes sdk params packed
  unfolding pack_parts
  pack_parts-Describes [] params packed q h = absurd (ground arith)
  pack_parts-Describes (first ∷ []) params packed q h = absurd (ground arith)
  pack_parts-Describes (first ∷ second ∷ []) params packed q h =
      pack_without_app-Describes first second params packed q h
  pack_parts-Describes (first ∷ second ∷ third ∷ more) params packed q h = absurd (ground arith)

  -- Parameters that are packed are those of a channel of two parties without an app, whose packed
  -- addresses, nonce, challenge duration and kind are the packed ones.
  pub pack_channel_parameters-Describes :
      (params : Params) (packed : PackedParams)
      → pack_channel_parameters sdk params ≡ ok packed
      → Describes sdk params packed
  unfolding pack_channel_parameters
  pack_channel_parameters-Describes params packed h =
      pack_parts-Describes params.parts params packed refl h
