-- ===== src/Funder/Outcome.antt =====
-- When `fundPartyA` of channel/funder/funder.go succeeds.
use perun_ckb_backend.Prelude.{
  ℕ, zero, suc, ◌<◌, ◌≡◌, refl, ◌↔◌, ◌⊎◌, inl, inr, true, false, Result, ok, arith, ◌∙◌, subst,
  Bool-cases, Result-cases,
}
use perun_ckb_backend.Ckb.{Script}
use perun_ckb_backend.Transaction.Handler.{ChannelStatus}
use perun_ckb_backend.Client.{ClientError, caller}
use perun_ckb_backend.Funder.{Funder, FundingReq, passed, poll_funded, fund_party_a}

module _ {S : Type 0} (f : Funder S) (script : Script) where
  -- A poll that did not see the channel funded: it failed, or the status says otherwise.
  abbrev pub IsUnfunded : Result ClientError (ℕ × ChannelStatus) → Type 0
  IsUnfunded r = (x : ℕ × ChannelStatus) → r ≡ ok x → x.1.funded ≡ false

  -- A number of rounds in which the interval passed before the context ended, and the poll did not see
  -- the channel funded.
  pub data Polls : ℕ → S → S → Type 0 where
    no_poll : {s : S} → Polls zero s s
    poll :
        {n : ℕ} {s v : S}
        → (f.wait s).0 ≡ false
        → IsUnfunded (f.client.get_channel_with_exact_pcts caller script (f.wait s).1).0
        → Polls n (f.client.get_channel_with_exact_pcts caller script (f.wait s).1).1 v
        → Polls (suc n) s v

  -- A round in which the poll sees the channel funded.
  pub record SeesFunded (s w : S) : Type 0 where
    pub in_time : (f.wait s).0 ≡ false
    pub answer : ℕ × ChannelStatus
    pub polled : f.client.get_channel_with_exact_pcts caller script (f.wait s).1 ≡ (ok answer, w)
    pub funded : answer.1.funded ≡ true

  -- The rounds end with one that sees the channel funded, or there are no more and the abort succeeds.
  abbrev pub Outcome : ℕ → FundingReq → S → S → Type 0
  Outcome n req s w =
      ((k : ℕ) × (v : S) × (k < n) × Polls k s v × SeesFunded v w)
      ⊎ ((v : S) × Polls n s v × (f.client.abort caller script req.params req.state v ≡ (ok tt, w)))

  further :
      (n : ℕ) (req : FundingReq) (s w : S)
      → (f.wait s).0 ≡ false
      → IsUnfunded (f.client.get_channel_with_exact_pcts caller script (f.wait s).1).0
      → Outcome n req (f.client.get_channel_with_exact_pcts caller script (f.wait s).1).1 w
      → Outcome (suc n) req s w
  further n req s w t u (inl r) = inl (suc r.0, r.1, omega (arith, r.2), poll t u r.3, r.4)
  further n req s w t u (inr r) = inr (r.0, poll t u r.1, r.2)

  polled :
      (n : ℕ) (req : FundingReq) (s w : S)
      → poll_funded f n script req s ≡ (ok tt, w)
      → Outcome n req s w
  unfolding poll_funded passed
  polled zero req s w h =
      elim (Result-cases (f.client.abort caller script req.params req.state s).0) [
        | inl (u, e) ↦ inr (s, no_poll, ground arith)
        | inr (x, e) ↦ absurd (ground arith)
      ]
  polled (suc n) req s w h = elim (Bool-cases (f.wait s).0) [
    | inl t ↦ absurd (ground arith)
    | inr t ↦
        elim (Result-cases (f.client.get_channel_with_exact_pcts caller script (f.wait s).1).0) [
          | inr (x, e) ↦
              further n req s w t (λ y q. absurd (ground arith)) (polled n req _ w (ground arith))
          | inl (x, e) ↦ elim (Bool-cases x.1.funded) [
            | inl b ↦ inl (
              0,
              s,
              omega arith,
              no_poll,
              record { in_time = t; answer = x; polled = ground arith; funded = b },
            )
            | inr b ↦ further n req s w t (λ y q. ground arith) (polled n req _ w (ground arith))
          ]
        ]
  ]

  goes_on :
      (n : ℕ) (req : FundingReq) (s : S)
      → (f.wait s).0 ≡ false
      → IsUnfunded (f.client.get_channel_with_exact_pcts caller script (f.wait s).1).0
      → poll_funded f (suc n) script req s
        ≡ poll_funded f n script req
            (f.client.get_channel_with_exact_pcts caller script (f.wait s).1).1
  unfolding poll_funded
  goes_on n req s t u =
      elim (Result-cases (f.client.get_channel_with_exact_pcts caller script (f.wait s).1).0) [
        | inr (x, e) ↦ ground arith
        | inl (x, e) ↦ let b = u x e in ground arith
      ]

  sees :
      (n : ℕ) (req : FundingReq) (s w : S)
      → SeesFunded s w
      → poll_funded f (suc n) script req s ≡ (ok tt, w)
  unfolding poll_funded
  sees n req s w r = let t = r.in_time in let e = r.polled in let b = r.funded in ground arith

  seen :
      (n k : ℕ) (req : FundingReq) (s v w : S)
      → k < n
      → Polls k s v
      → SeesFunded v w
      → poll_funded f n script req s ≡ (ok tt, w)
  seen zero k req s v w l p r = absurd (omega arith)
  seen (suc n) zero req s v w l no_poll r = sees n req s w r
  seen (suc n) (suc k) req s v w l (poll t u p) r =
      goes_on n req s t u ∙ seen n k req _ v w (omega arith) p r

  aborted :
      (n : ℕ) (req : FundingReq) (s v w : S)
      → Polls n s v
      → f.client.abort caller script req.params req.state v ≡ (ok tt, w)
      → poll_funded f n script req s ≡ (ok tt, w)
  unfolding poll_funded passed
  aborted zero req s v w no_poll e = rw e refl
  aborted (suc n) req s v w (poll t u p) e = goes_on n req s t u ∙ aborted n req _ v w p e

  pub poll_funded-Outcome :
      (n : ℕ) (req : FundingReq) (s w : S)
      → (poll_funded f n script req s ≡ (ok tt, w)) ↔ Outcome n req s w
  poll_funded-Outcome n req s w = (
    polled n req s w,
    λ r. elim r [
      | inl q ↦ seen n q.0 req s q.1 w q.2 q.3 q.4
      | inr q ↦ aborted n req s q.0 w q.1 q.2
    ],
  )

-- The first party's funding succeeds exactly if the channel was started, and then either one of the polls
-- that are allowed saw it funded, after polls that did not, or all of them did not and the channel was
-- aborted. In the second case the channel is gone, and the caller is told that it is funded.
pub fund_party_a-Outcome :
    {S : Type 0} (f : Funder S) (req : FundingReq) (s w : S)
    → (fund_party_a f req s ≡ (ok tt, w)) ↔ (
        (script : Script) × (v : S) × (f.client.start caller req.params req.state s
          ≡ (ok script, v))
        × Outcome f script f.max_iterations_until_abort req v w)
unfolding fund_party_a
fund_party_a-Outcome f req s w =
    elim (Result-cases (f.client.start caller req.params req.state s).0) [
      | inr (x, e) ↦ ((λ h. absurd (ground arith)), (λ r. absurd (let q = r.2 in ground arith)))
      | inl (script, e) ↦
          let (to, from) =
            poll_funded-Outcome f script f.max_iterations_until_abort req
              (f.client.start caller req.params req.state s).1 w in
          (
            (λ h. (
              script,
              (f.client.start caller req.params req.state s).1,
              ground arith,
              to (ground arith),
            )),
            (λ r.
                let (t, v, q, o) = r in
                let same : t ≡ script = ground arith in
                let there : v ≡ (f.client.start caller req.params req.state s).1 = ground arith in
                ground (
                  arith,
                  from (
                      subst
                        (λ z.
                          Outcome f z f.max_iterations_until_abort req
                            (f.client.start caller req.params req.state s).1 w)
                        same
                        (subst (λ z. Outcome f t f.max_iterations_until_abort req z w) there o)),
                )),
          )
    ]
