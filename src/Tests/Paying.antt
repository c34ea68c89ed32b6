-- ===== src/Tests/Paying.antt =====
-- The channel of two parties is closed: the second one's 20 CKBytes go into the cell of its SUDT.
use perun_ckb_backend.Encoding.Signature.{new_molecule_signature}
use perun_ckb_backend.Encoding.Bytes.{pack_uint128, to_uint128}
use perun_ckb_backend.Asset.{is_compatible_asset, is_invalid, is_sudt_asset}
use perun_ckb_backend.Prelude.{
  ℕ, ◌+◌, ◌*◌, ◌%◌, ◌≡◌, ◌≤◌, ◌⊎◌, refl, List, [], ◌∷◌, Result, ok, err,
}
use perun_ckb_backend.Prelude.Words.{u64_mod}
use perun_ckb_backend.Encoding.State.{
  pack_channel_state, pack_ckbyte_distribution, SudtDistribution, get_sudt_balances,
}
use perun_ckb_backend.Transaction.Handler.{add_omni_deps, set_witness, Call, encoded}
use perun_ckb_backend.Transaction.Handler.Ledger.{
  CloseInfo, build_close_transaction, build_force_close_transaction, lock_funds,
}
use perun_ckb_backend.Transaction.Handler.Payout.{
  add_assets_to_outputs, pay_parties, get_ckbyte_balance,
}
use perun_ckb_backend.Transaction.Handler.Paid.{paid, reserved, credits, all_dropped}
use perun_ckb_backend.Transaction.Handler.Settle.{
  build_close_transaction-paid, build_force_close_transaction-paid, lock_funds-paid,
}
use perun_ckb_backend.Tests.{sdk, script, sudt, perun, state, params, collector, psh, mol, curve}

abbrev sudts : List SudtDistribution
sudts = record { asset = sudt; first = 5; second = 6 } ∷ []

abbrev info : CloseInfo
info = record {
  channel_capacity = 400;
  channel_input = record { since = 0; previous_output = record { tx_hash = 8; index = 0 } };
  asset_inputs = [];
  headers = 1 ∷ [];
  params = params;
  state = state;
  padded_signatures = (48 ∷ []) ∷ (48 ∷ 1 ∷ []) ∷ [];
}

-- The calls of a transaction that is built.
abbrev calls_of : Result perun_ckb_backend.Transaction.Funds.TxError (List Call) → List Call
calls_of (ok calls) = calls
calls_of (err e) = []

sudts-get : encoded (get_sudt_balances sdk perun state state.assets) ≡ ok sudts
unfolding encoded get_sudt_balances is_compatible_asset is_invalid is_sudt_asset to_uint128
sudts-get = refl

closes :
    build_close_transaction sdk perun mol psh collector curve info []
    ≡ ok (calls_of (build_close_transaction sdk perun mol psh collector curve info []))
unfolding build_close_transaction add_omni_deps pay_parties encoded get_sudt_balances
    is_compatible_asset is_invalid is_sudt_asset to_uint128 pack_channel_state
    pack_ckbyte_distribution pack_uint128 new_molecule_signature set_witness
closes = refl

force_closes :
    build_force_close_transaction sdk perun mol psh collector info []
    ≡ ok (calls_of (build_force_close_transaction sdk perun mol psh collector info []))
unfolding build_force_close_transaction add_omni_deps pay_parties encoded get_sudt_balances
    is_compatible_asset is_invalid is_sudt_asset to_uint128 set_witness
force_closes = refl

locks :
    lock_funds sdk perun mol psh collector state 0 (script 5) []
    ≡ ok (calls_of (lock_funds sdk perun mol psh collector state 0 (script 5) []))
unfolding lock_funds get_ckbyte_balance add_assets_to_outputs encoded get_sudt_balances
    is_compatible_asset is_invalid is_sudt_asset to_uint128
locks = refl

build_close_transaction-paid_example :
    (paid (calls_of (build_close_transaction sdk perun mol psh collector curve info []))
        + all_dropped sdk perun state 400 sudts 0 params.parts)
      % u64_mod
    ≡ (credits sdk perun state 400 0 params.parts + 2 * reserved sudts) % u64_mod
build_close_transaction-paid_example =
    build_close_transaction-paid sdk perun mol psh collector curve info sudts
      (calls_of (build_close_transaction sdk perun mol psh collector curve info [])) sudts-get
      closes

build_force_close_transaction-paid_example :
    (paid (calls_of (build_force_close_transaction sdk perun mol psh collector info []))
        + all_dropped sdk perun state 400 sudts 0 params.parts)
      % u64_mod
    ≡ (credits sdk perun state 400 0 params.parts + 2 * reserved sudts) % u64_mod
build_force_close_transaction-paid_example =
    build_force_close_transaction-paid sdk perun mol psh collector info sudts
      (calls_of (build_force_close_transaction sdk perun mol psh collector info [])) sudts-get
      force_closes

lock_funds-paid_example :
    (balance : ℕ) × (get_ckbyte_balance sdk perun 0 state ≡ ok balance)
    × ((balance ≡ 0) ⊎ (psh.pfls_min_capacity ≤ balance))
    × (paid (calls_of (lock_funds sdk perun mol psh collector state 0 (script 5) [])) % u64_mod
        ≡ (0 + balance + reserved sudts) % u64_mod)
unfolding reserved paid
lock_funds-paid_example =
    lock_funds-paid sdk perun mol psh collector state 0 (script 5) sudts []
      (calls_of (lock_funds sdk perun mol psh collector state 0 (script 5) [])) sudts-get locks
