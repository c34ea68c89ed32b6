-- ===== src/Client/Interface.antt =====
-- `Client` of client/ckbclient.go implements `CKBClient`: `var _ CKBClient = (*Client)(nil)`.
use perun_ckb_backend.CkbClient.{CkbClient}
use perun_ckb_backend.Client.{World}
use perun_ckb_backend.Client.Config.{Client}
use perun_ckb_backend.Client.Cells.{
  get_block_time, get_channel_with_exact_pcts, get_channel_with_id,
}
use perun_ckb_backend.Client.Channel.{start, fund, dispute, close, force_close, abort}
use perun_ckb_backend.Client.VirtualChannel.{dispute_vc}
use perun_ckb_backend.Client.VirtualClose.{force_close_with_vc}

unfoldable pub ckb_client : {W T C : Type 0} → Client W T C → CkbClient (World W T)
ckb_client cl = record {
  start = start cl;
  abort = abort cl;
  fund = fund cl;
  dispute = dispute cl;
  dispute_vc = dispute_vc cl;
  close = close cl;
  force_close = force_close cl;
  force_close_with_vc = force_close_with_vc cl;
  get_channel_with_id = get_channel_with_id cl.sdk cl.formats cl.deployment cl.node cl.others;
  get_channel_with_exact_pcts =
      get_channel_with_exact_pcts cl.sdk cl.formats cl.deployment cl.node cl.others;
  get_block_time = get_block_time cl.sdk cl.formats cl.deployment cl.node cl.others;
}
