-- ===== src/Tests/Clients.antt =====
-- A client of a node whose state counts the calls that it answered, with one channel on the chain.
use perun_ckb_backend.Prelude.{
  ℕ, suc, ◌==◌, true, false, none, some, [], ◌∷◌, ok, err, if◌then◌else◌,
}
use perun_ckb_backend.Ckb.{Script, OutPoint, CellOutput}
use perun_ckb_backend.Deployment.{Deployment}
use perun_ckb_backend.Transaction.Handler.{ChannelStatus, ChannelConstants}
use perun_ckb_backend.Client.{RpcError, LiveCell, TransactionStatus, Node, World, Formats, Others}
use perun_ckb_backend.Client.Config.{Client}
use perun_ckb_backend.Tests.{sdk, perun, script, collector, mol, curve, keys}

abbrev pub deployment : Deployment
deployment = record {
  pcts_dep = 1;
  pcls_dep = 2;
  pfls_dep = 3;
  vcls_dep = 4;
  vcts_dep = 5;
  pcts_code_hash = 101;
  pcts_hash_type = 1;
  pcls_code_hash = 102;
  pcls_hash_type = 1;
  pfls_code_hash = 105;
  pfls_hash_type = 1;
  pfls_min_capacity = 61;
  default_lock_script = script 5;
  default_lock_script_dep = 7;
  omni_lock_script = script 6;
  omni_lock_script_dep = [];
  vcts_code_hash = 103;
  vcts_hash_type = 1;
  vcls_code_hash = 104;
  vcls_hash_type = 1;
  sudts = (9, script 9) ∷ [];
  sudt_deps = 6 ∷ [];
}

abbrev pub status : ChannelStatus
status = record {
  state = record { channel_id = 7; version = 3; is_final = false; allocation = []; locked = [] };
  funded = true;
  disputed = false;
  vc_disputed = false;
  vcts_hash = 0;
}

abbrev pub constants : ChannelConstants
constants = record {
  params = record {
    is_ledger_channel = true;
    is_virtual_channel = false;
    party_a = record { pub_key = 2; payment_script_hash = 11; unlock_script_hash = 12 };
    party_b = record { pub_key = 3; payment_script_hash = 21; unlock_script_hash = 22 };
    nonce = [];
    challenge_duration = 60;
  };
  pcls_code_hash = 102;
  pcls_hash_type = 1;
  pfls_code_hash = 105;
  pfls_hash_type = 1;
  pfls_min_capacity = 61;
  thread_token = [];
}

-- The data of a cell are the id of its channel; the virtual channels have none.
abbrev pub formats : Formats
formats = record {
  parse_status = λ bytes. elim bytes [
    | [] ↦ none
    | id ∷ rest ↦ some (record status { state = record status.state { channel_id = id } })
  ];
  parse_vc_status = λ bytes. none;
  parse_constants = λ args. some constants;
}

abbrev pub others : Others ℕ
others = record { sets = λ w. []; vc_sets = λ w. [] }

abbrev pub cell_with : Script → LiveCell
cell_with s = record {
  block_number = 50;
  out_point = record { tx_hash = 8; index = 0 };
  output = some (record { capacity = 400; lock = script 102; type_script = some s });
  output_data = 7 ∷ [];
}

-- The call that comes first fails once; a transaction is committed from the fourth call on.
abbrev pub node : Node ℕ ℕ
node = record {
  get_cells = λ ctx key limit w. (ok (cell_with key.script ∷ []), suc w);
  get_tip_header = λ ctx w. (if w == 0 then err RpcError.unavailable else ok 77, suc w);
  get_transaction = λ ctx hash w. (
    ok (record {
      status = if w == 3 then TransactionStatus.committed else TransactionStatus.pending;
      block_hash = some 66;
    }),
    suc w,
  );
  get_live_cell = λ ctx o w. (ok none, suc w);
  send_transaction = λ ctx tx w. (ok tx, suc w);
  get_block_timestamp = λ ctx block w. (ok block, suc w);
  wait = λ ctx w. (false, suc w);
}

-- The cell of the signer's CKBytes.
abbrev cell : CellOutput
cell = record { capacity = 20000000000; lock = script 5; type_script = none }

abbrev point : OutPoint
point = record { tx_hash = 9; index = 0 }

abbrev pub client : Client ℕ ℕ ℕ
client = record {
  node = node;
  signer = record {
    address = script 5;
    encoded_address = some [];
    public_key = 2;
    contexts = none;
    sign_transaction = λ built. some 12;
  };
  deployment = deployment;
  others = others;
  formats = formats;
  collectors = record {
    live_cell_iterator = λ key w. [];
    iterator_from_address =
        λ text w. some (some (record { out_point = point; output = cell; output_data = [] }) ∷ []);
    live_cell = λ w o. some (record { output = cell; output_data = [] });
    collector = collector;
    assemble = λ calls b. b;
    script_handlers = [];
    order = λ m. m;
    load_little_endian = λ bytes. 0;
    pack_out_point = λ o. o.tx_hash ∷ [];
  };
  sdk = sdk;
  perun = perun;
  keys = keys;
  molecule = mol;
  curve = curve;
  channel_id = λ p. p.nonce;
  await_fuel = 10;
}

abbrev pub world : World ℕ ℕ
world = record { node_state = 0; cache = []; vc_cache = []; sent = [] }
