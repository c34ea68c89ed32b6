-- ===== src/Funder/Verified.antt =====
-- When `fundPartyB` of channel/funder/funder.go succeeds.
use perun_ckb_backend.Prelude.{
  ℕ, zero, suc, ◌<◌, ◌≡◌, ◌^◌, ltb, subst, ◌↔◌, ◌⊎◌, inl, inr, true, false, some, ok, err, arith,
  Bool-cases, Result-cases, >>=-eq-ok, bytes_equal, bytes_equal_sound, bytes_equal_refl, check,
}
use perun_ckb_backend.Ckb.{Script}
use perun_ckb_backend.Encoding.State.{PackedState, pack_channel_state}
use perun_ckb_backend.Transaction.Handler.{ChannelStatus, ChannelConstants}
use perun_ckb_backend.Client.{ClientError, caller}
use perun_ckb_backend.Funder.{
  FundError, Funder, FundingReq, passed, hash_type_of, packed_of, same_constants,
  verify_channel_integrity, fund_found, fund_party_b,
}

module _ {S : Type 0} (f : Funder S) (req : FundingReq) where
  -- The channel on the chain is the one that was agreed on: its scripts are those of the deployment, its
  -- challenge duration is a signed number of 64 bits, and its state has the bytes of the requested one.
  pub record IsAgreed (c : ChannelConstants) (status : ChannelStatus) : Type 0 where
    pub pcls_hash_type : f.deserialize_hash_type c.pcls_hash_type ≡ some f.deployment.pcls_hash_type
    pub pfls_hash_type : f.deserialize_hash_type c.pfls_hash_type ≡ some f.deployment.pfls_hash_type
    pub pcls_code_hash : c.pcls_code_hash ≡ f.deployment.pcls_code_hash
    pub pfls_code_hash : c.pfls_code_hash ≡ f.deployment.pfls_code_hash
    pub min_capacity : c.pfls_min_capacity ≡ f.deployment.pfls_min_capacity
    pub duration : c.params.challenge_duration < 2 ^ 63
    pub packed : PackedState
    pub packs : pack_channel_state f.sdk f.perun req.state ≡ ok packed
    pub same_bytes : f.state_bytes packed ≡ f.state_bytes status.state

  same_constants-parts :
      (c : ChannelConstants) (t u : ℕ)
      → same_constants f c t u ≡ true
      → (c.pcls_code_hash ≡ f.deployment.pcls_code_hash)
        × (t ≡ f.deployment.pcls_hash_type)
        × (c.pfls_code_hash ≡ f.deployment.pfls_code_hash)
        × (u ≡ f.deployment.pfls_hash_type)
        × (c.pfls_min_capacity ≡ f.deployment.pfls_min_capacity)
  unfolding same_constants
  same_constants-parts c t u h = ground arith

  agreed :
      (c : ChannelConstants) (status : ChannelStatus)
      → verify_channel_integrity f req c status ≡ ok tt
      → IsAgreed c status
  unfolding verify_channel_integrity hash_type_of packed_of
  agreed c status h =
      let (t, a, h₁) = >>=-eq-ok (hash_type_of (f.deserialize_hash_type c.pcls_hash_type)) _ h in
      let (u, b, h₂) = >>=-eq-ok (hash_type_of (f.deserialize_hash_type c.pfls_hash_type)) _ h₁ in
      let (x, d, h₃) = >>=-eq-ok (check (same_constants f c t u) FundError.bad_constants) _ h₂ in
      let (y, e, h₄) =
        >>=-eq-ok (check (ltb c.params.challenge_duration (2 ^ 63)) FundError.bad_duration) _ h₃ in
      let (packed, g, h₅) =
        >>=-eq-ok (packed_of (pack_channel_state f.sdk f.perun req.state)) _ h₄ in
      let parts = same_constants-parts c t u (ground arith) in
      record {
        pcls_hash_type = ground arith;
        pfls_hash_type = ground arith;
        pcls_code_hash = parts.0;
        pfls_code_hash = parts.2;
        min_capacity = parts.4;
        duration = ground arith;
        packed = packed;
        packs = ground arith;
        same_bytes =
            bytes_equal_sound (f.state_bytes packed) (f.state_bytes status.state) (ground arith);
      }

  verifies :
      (c : ChannelConstants) (status : ChannelStatus)
      → IsAgreed c status
      → verify_channel_integrity f req c status ≡ ok tt
  unfolding verify_channel_integrity hash_type_of packed_of same_constants
  verifies c status r =
      let a = r.pcls_hash_type in
      let b = r.pfls_hash_type in
      let p = r.packs in
      let q : bytes_equal (f.state_bytes r.packed) (f.state_bytes status.state) ≡ true =
        subst (λ z. bytes_equal (f.state_bytes r.packed) z ≡ true) r.same_bytes
          (bytes_equal_refl (f.state_bytes r.packed)) in
      ground (arith, r.pcls_code_hash, r.pfls_code_hash, r.min_capacity, r.duration)

  -- A number of rounds in which the interval passed before the context ended, and the lookup failed.
  pub data Misses : ℕ → S → S → Type 0 where
    no_miss : {s : S} → Misses zero s s
    miss :
        {n : ℕ} {s v : S} {e : ClientError}
        → (f.wait s).0 ≡ false
        → (f.client.get_channel_with_id caller (f.channel_id req.params) (f.wait s).1).0 ≡ err e
        → Misses n (f.client.get_channel_with_id caller (f.channel_id req.params) (f.wait s).1).1 v
        → Misses (suc n) s v

  -- A round that finds the channel that was agreed on, and it is funded, or is funded now.
  pub record Funds (s w : S) : Type 0 where
    pub in_time : (f.wait s).0 ≡ false
    pub answer : ℕ × Script × ChannelConstants × ChannelStatus
    pub state_found : S
    pub found :
        f.client.get_channel_with_id caller (f.channel_id req.params) (f.wait s).1
        ≡ (ok answer, state_found)
    pub agrees : IsAgreed answer.2 answer.3
    pub funded :
        ((answer.3.funded ≡ true) × (state_found ≡ w))
        ⊎ ((answer.3.funded ≡ false)
            × (f.client.fund caller answer.1 req.state req.params state_found ≡ (ok tt, w)))

  fund_found-parts :
      (x : ℕ × Script × ChannelConstants × ChannelStatus) (u w : S)
      → fund_found f req x u ≡ (ok tt, w)
      → IsAgreed x.2 x.3
        × (((x.3.funded ≡ true) × (u ≡ w))
            ⊎ ((x.3.funded ≡ false)
                × (f.client.fund caller x.1 req.state req.params u ≡ (ok tt, w))))
  unfolding fund_found passed
  fund_found-parts x u w h = elim (Result-cases (verify_channel_integrity f req x.2 x.3)) [
    | inr (e, g) ↦ absurd (ground arith)
    | inl (done, g) ↦ elim (Bool-cases x.3.funded) [
      | inl b ↦ (agreed x.2 x.3 g, inl (b, ground arith))
      | inr b ↦ elim (Result-cases (f.client.fund caller x.1 req.state req.params u).0) [
        | inl (_, q) ↦ (agreed x.2 x.3 g, inr (b, ground arith))
        | inr (e, q) ↦ absurd (ground arith)
      ]
    ]
  ]

  found_funded :
      (n : ℕ) (s w : S)
      → fund_party_b f n req s ≡ (ok tt, w)
      → (k : ℕ) × (v : S) × (k < n) × Misses k s v × Funds v w
  unfolding fund_party_b
  found_funded zero s w h = absurd (ground arith)
  found_funded (suc n) s w h = elim (Bool-cases (f.wait s).0) [
    | inl t ↦ absurd (ground arith)
    | inr t ↦
        elim (Result-cases
          (f.client.get_channel_with_id caller (f.channel_id req.params) (f.wait s).1).0) [
            | inr (e, g) ↦
                let (k, v, l, m, r) = found_funded n _ w (ground arith) in
                (suc k, v, omega (arith, l), miss t g m, r)
            | inl (x, g) ↦
                let (a, b) = fund_found-parts x _ w (ground arith) in
                (
                  0,
                  s,
                  omega arith,
                  no_miss,
                  record {
                    in_time = t;
                    answer = x;
                    state_found =
                        (f.client.get_channel_with_id caller (f.channel_id req.params)
                          (f.wait s).1).1;
                    found = ground arith;
                    agrees = a;
                    funded = b;
                  },
                )
          ]
  ]

  funds :
      (x : ℕ × Script × ChannelConstants × ChannelStatus) (u w : S)
      → verify_channel_integrity f req x.2 x.3 ≡ ok tt
      → ((x.3.funded ≡ true) × (u ≡ w))
        ⊎ ((x.3.funded ≡ false) × (f.client.fund caller x.1 req.state req.params u ≡ (ok tt, w)))
      → fund_found f req x u ≡ (ok tt, w)
  unfolding fund_found passed
  funds x u w g r = elim r [ inl p ↦ ground arith | inr p ↦ ground arith ]

  funded_after :
      (n k : ℕ) (s v w : S) → k < n → Misses k s v → Funds v w → fund_party_b f n req s ≡ (ok tt, w)
  unfolding fund_party_b
  funded_after zero k s v w l m r = absurd (omega arith)
  funded_after (suc n) zero s v w l no_miss r =
      let t = r.in_time in
      let g = r.found in
      ground
        (arith, funds r.answer r.state_found w (verifies r.answer.2 r.answer.3 r.agrees) r.funded)
  funded_after (suc n) (suc k) s v w l (miss t g m) r =
      ground (arith, funded_after n k _ v w (omega (arith, l)) m r)

  -- The second party's funding succeeds exactly if one of its lookups, after some that failed, found the
  -- channel that was agreed on, with the deployment's scripts and the bytes of the requested state, and it
  -- was funded already or the call that funds it succeeded. The lookups are at most as many as the fuel.
  pub fund_party_b-Funds :
      (n : ℕ) (s w : S)
      → (fund_party_b f n req s ≡ (ok tt, w))
        ↔ ((k : ℕ) × (v : S) × (k < n) × Misses k s v × Funds v w)
  fund_party_b-Funds n s w = (found_funded n s w, λ r. funded_after n r.0 s r.1 w r.2 r.3 r.4)
