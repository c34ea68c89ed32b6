-- ===== src/Transaction/Handler/Dispatch.antt =====
-- `BuildTransaction` of transaction/handler.go, which picks the transaction by the type of its context,
-- and `DisputeVC` of the builder in transaction/transaction.go.
use perun_ckb_backend.Prelude.{Bool, true, false, List, Result, ok, ◌>>=◌, if◌then◌else◌}
use perun_ckb_backend.Ckb.{Sdk}
use perun_ckb_backend.Perun.{GoPerun}
use perun_ckb_backend.Wallet.Address.{Keys}
use perun_ckb_backend.Encoding.Signature.{Curve}
use perun_ckb_backend.Transaction.Funds.{TxError}
use perun_ckb_backend.Transaction.Handler.{Call, Collector, PerunScriptHandler, Molecule}
use perun_ckb_backend.Transaction.Handler.Status.{DisputeInfo, VcDisputeInfo}
use perun_ckb_backend.Transaction.Handler.Ledger.{
  OpenInfo, FundInfo, CloseInfo, build_open_transaction, build_fund_transaction,
  build_dispute_transaction, build_close_transaction, build_force_close_transaction,
  build_abort_transaction,
}
use perun_ckb_backend.Transaction.Handler.Virtual.{
  build_first_vc_dispute, build_vc_dispute_progress,
}

-- The contexts that the handler knows, as values or pointers, and any other one.
pub data HandlerContext : Type 0 where
  open_context : OpenInfo → HandlerContext
  abort_context : CloseInfo → HandlerContext
  fund_context : FundInfo → HandlerContext
  dispute_context : DisputeInfo → HandlerContext
  close_context : CloseInfo → HandlerContext
  force_close_context : CloseInfo → HandlerContext
  other_context : HandlerContext

-- The handler was responsible, and made these calls.
unfoldable pub handled : List Call → Result TxError (Bool × List Call)
handled calls = ok (true, calls)

module _ (sdk : Sdk) (perun : GoPerun) (mol : Molecule) (psh : PerunScriptHandler)
    (c : Collector) where
  -- `BuildTransaction`
  unfoldable pub build_transaction :
      Curve → HandlerContext → List Call → Result TxError (Bool × List Call)
  unfolding handled build_open_transaction build_fund_transaction build_dispute_transaction
      build_close_transaction build_force_close_transaction build_abort_transaction
  build_transaction curve (open_context info) calls =
      build_open_transaction sdk perun mol psh c info calls >>= handled
  build_transaction curve (abort_context info) calls =
      build_abort_transaction sdk perun mol psh c info calls >>= handled
  build_transaction curve (fund_context info) calls =
      build_fund_transaction sdk perun mol psh c info calls >>= handled
  build_transaction curve (dispute_context info) calls =
      build_dispute_transaction sdk perun mol psh c info calls >>= λ r. handled r.1
  build_transaction curve (close_context info) calls =
      build_close_transaction sdk perun mol psh c curve info calls >>= handled
  build_transaction curve (force_close_context info) calls =
      build_force_close_transaction sdk perun mol psh c info calls >>= handled
  build_transaction curve other_context calls = ok (false, calls)

  -- `DisputeVC` of the builder.
  unfoldable pub dispute_vc :
      Keys → VcDisputeInfo → List Call → Result TxError (VcDisputeInfo × List Call)
  unfolding build_first_vc_dispute build_vc_dispute_progress
  dispute_vc keys info calls =
      if info.first
      then build_first_vc_dispute sdk perun keys mol psh c info calls
      else build_vc_dispute_progress sdk perun keys mol psh c info calls
