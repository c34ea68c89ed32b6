-- ===== src/Tests/Funding.antt =====
-- Two parties fund the test channel through a client whose state counts its calls.
use perun_ckb_backend.Encoding.Bytes.{pack_uint128, to_uint128}
use perun_ckb_backend.Encoding.State.{pack_ckbyte_distribution}
use perun_ckb_backend.Asset.{is_compatible_asset, is_invalid, is_sudt_asset}
use perun_ckb_backend.Prelude.{ℕ, suc, ◌<◌, ◌≡◌, refl, ◌↔◌, leb, false, some, [], ◌∷◌, ok}
use perun_ckb_backend.Ckb.{Script}
use perun_ckb_backend.Client.{Context}
use perun_ckb_backend.CkbClient.{CkbClient}
use perun_ckb_backend.Funder.{
  Funder, FundingReq, fund_party_a, fund_party_b, default_max_iterations_until_abort, passed,
}
use perun_ckb_backend.Funder.Outcome.{Outcome, fund_party_a-Outcome}
use perun_ckb_backend.Funder.Verified.{Misses, Funds, fund_party_b-Funds}
use perun_ckb_backend.Tests.{sdk, perun, script, state, params}
use perun_ckb_backend.Tests.Clients.{deployment, status, constants}

-- The channel is funded after twenty calls, which is too late for the first party.
abbrev chain : CkbClient ℕ
chain = record {
  start = λ ctx p s n. (ok (script 101), suc n);
  abort = λ ctx pcts p s n. (ok tt, suc n);
  fund = λ ctx pcts s p n. (ok tt, suc n);
  dispute = λ ctx id s sigs p n. (ok tt, suc n);
  dispute_vc = λ ctx req n. (ok tt, suc n);
  close = λ ctx id s sigs p n. (ok tt, suc n);
  force_close = λ ctx id s p n. (ok tt, suc n);
  force_close_with_vc = λ ctx id vc_id s v sigs p index_map n. (ok tt, suc n);
  get_channel_with_id = λ ctx id n. (ok (50, script 101, constants, status), suc n);
  get_channel_with_exact_pcts = λ ctx pcts n. (ok (50, record status { funded = leb 20 n }), suc n);
  get_block_time = λ ctx block n. (ok block, suc n);
}

abbrev funder : Funder ℕ
funder = record {
  client = chain;
  deployment = deployment;
  max_iterations_until_abort = default_max_iterations_until_abort;
  wait = λ n. (false, n);
  sdk = sdk;
  perun = perun;
  deserialize_hash_type = λ t. some t;
  state_bytes = λ s. s.channel_id ∷ [];
  channel_id = λ p. p.nonce;
}

abbrev req : FundingReq
req = record { params = params; state = state; idx = 0 }

-- The first party gives up after twelve polls, aborts the channel, and reports no error.
gives_up : fund_party_a funder req 0 ≡ (ok tt, 14)
unfolding fund_party_a passed
gives_up = refl

fund_party_a-Outcome_example : (fund_party_a funder req 0 ≡ (ok tt, 14)) ↔ (
    (pcts : Script) × (v : ℕ) × (chain.start Context.caller params state 0 ≡ (ok pcts, v))
    × Outcome funder pcts 12 req v 14)
fund_party_a-Outcome_example = fund_party_a-Outcome funder req 0 14

accepts : fund_party_b funder 3 req 0 ≡ (ok tt, 1)
unfolding fund_party_b is_compatible_asset is_invalid pack_ckbyte_distribution is_sudt_asset
    pack_uint128 to_uint128
accepts = refl

fund_party_b-Funds_example :
    (fund_party_b funder 3 req 0 ≡ (ok tt, 1))
    ↔ ((k : ℕ) × (v : ℕ) × (k < 3) × Misses funder req k 0 v × Funds funder req v 1)
fund_party_b-Funds_example = fund_party_b-Funds funder req 3 0 1
