-- ===== src/Wallet/Address/Laws.antt =====
-- What survives the encodings of wallet/address/address.go, and what does not.
use perun_ckb_backend.Prelude.{
  ℕ, ◌≡◌, ◌≢◌, ◌↔◌, none, some, [], ok, ◌>>=◌, arith, Option-cases, inl, inr,
}
use perun_ckb_backend.Ckb.{Script, Sdk}
use perun_ckb_backend.Wallet.Address.{
  Participant, Keys, ScriptForm, pack_on_chain, unpack_on_chain, new_default_participant,
  pack_off_chain, unpack_off_chain, pack_pub_key, unpack_pub_key, default_script,
}

-- A participant whose public key is there and is read back from its bytes.
abbrev pub HasKey : Keys → Participant → Type 0
HasKey keys p = (key : ℕ) × (p.pub_key ≡ some key) × (keys.parse_pub_key key ≡ some key)

-- A script as `UnpackScript` leaves it: its args are a slice that is not nil.
abbrev pub with_args : Script → Script
with_args s = elim s.args [ none ↦ record s { args = some [] } | some args ↦ s ]

-- The documented behaviour of the SDK: `UnpackScript` reads what `Pack` wrote, and nil args as empty ones.
abbrev pub ReadsBack : {P : Type 0} → ScriptForm P → Type 0
ReadsBack form = (s : Script) → form.unpack (form.pack s) ≡ with_args s

abbrev pub HasArgs : Script → Type 0
HasArgs s = s.args ≢ none

-- What a participant is restored to: the key that its bytes spell, and each script in its own place.
pub record IsRestored (keys : Keys) (p q : Participant) : Type 0 where
  pub key : ℕ
  pub has_key : p.pub_key ≡ some key
  pub parsed : ℕ
  pub parses : keys.parse_pub_key key ≡ some parsed
  pub pub_key : q.pub_key ≡ some parsed
  pub payment_script : q.payment_script ≡ with_args p.payment_script
  pub unlock_script : q.unlock_script ≡ with_args p.unlock_script

with_args-HasArgs : (s : Script) → (s ≡ with_args s) ↔ HasArgs s
with_args-HasArgs s = elim (Option-cases s.args) [
  | inl e ↦ ((λ h. absurd (ground arith)), (λ h. absurd (h e)))
  | inr (args, e) ↦ ((λ h n. cc), (λ h. ground arith))
]

module _ (keys : Keys) {P : Type 0} (form : ScriptForm P) where
  restored :
      (p q : Participant)
      → ReadsBack form
      → (pack_off_chain form p >>= unpack_off_chain keys form) ≡ ok q
      → IsRestored keys p q
  unfolding pack_off_chain unpack_off_chain pack_pub_key unpack_pub_key
  restored p q reads h = elim (Option-cases p.pub_key) [
    | inl e ↦ absurd (ground arith)
    | inr (key, e) ↦ elim (Option-cases (keys.parse_pub_key key)) [
      | inl f ↦ absurd (ground arith)
      | inr (k, f) ↦ record {
        key = key;
        has_key = e;
        parsed = k;
        parses = f;
        pub_key = ground arith;
        payment_script = ground (arith, reads p.payment_script);
        unlock_script = ground (arith, reads p.unlock_script);
      }
    ]
  ]

  restores :
      (p q : Participant)
      → ReadsBack form
      → IsRestored keys p q
      → (pack_off_chain form p >>= unpack_off_chain keys form) ≡ ok q
  unfolding pack_off_chain unpack_off_chain pack_pub_key unpack_pub_key
  restores p q reads r = ground (
    arith,
    r.has_key,
    r.parses,
    r.pub_key,
    r.payment_script,
    r.unlock_script,
    reads p.payment_script,
    reads p.unlock_script,
  )

  -- If the SDK reads back a script that it packed, with nil args as empty ones, the off-chain encoding of
  -- a participant succeeds with exactly the participant that has the parsed key and both scripts, each in
  -- its place with args that are not nil. It gives back the same participant exactly if the key is read
  -- back from its bytes, and the args of neither script are nil.
  pub unpack_off_chain-pack_off_chain :
      (p q : Participant)
      → ReadsBack form
      → (((pack_off_chain form p >>= unpack_off_chain keys form) ≡ ok q) ↔ IsRestored keys p q)
        × (((pack_off_chain form p >>= unpack_off_chain keys form) ≡ ok p)
            ↔ (HasKey keys p × HasArgs p.payment_script × HasArgs p.unlock_script))
  unpack_off_chain-pack_off_chain p q reads = (
    (restored p q reads, restores p q reads),
    (
      (λ h.
          let r = restored p p reads h in
          (
            (r.key, r.has_key, ground (arith, r.has_key, r.parses, r.pub_key)),
            (with_args-HasArgs p.payment_script).0 r.payment_script,
            (with_args-HasArgs p.unlock_script).0 r.unlock_script,
          )),
      (λ h.
          let (key, e, f) = h.0 in
          restores p p reads (record {
            key = key;
            has_key = e;
            parsed = key;
            parses = f;
            pub_key = e;
            payment_script = (with_args-HasArgs p.payment_script).1 h.1;
            unlock_script = (with_args-HasArgs p.unlock_script).1 h.2;
          })),
    ),
  )

module _ (keys : Keys) (sdk : Sdk) where
  -- The on-chain encoding of a participant whose key parses gives back the default participant of
  -- that key: a payment script or unlock script of the participant's own is lost.
  pub unpack_on_chain-pack_on_chain :
      (p : Participant)
      → HasKey keys p
      → (pack_on_chain sdk p >>= unpack_on_chain keys) ≡ new_default_participant keys p.pub_key
  unfolding pack_on_chain unpack_on_chain pack_pub_key unpack_pub_key default_script
      new_default_participant
  unpack_on_chain-pack_on_chain p (key, h, parses) = ground arith
