-- ===== src/Tests.antt =====
-- A small world for the witnesses: an SDK whose hashes are code hashes, a node, and a channel of two
-- parties with CKBytes and one SUDT.
pub mod Balancing
mod Paying
mod Encodings
mod Iterators
mod Polling
pub mod Clients
mod Serving
mod Disputing
mod Funding
mod Versions
mod Building
use perun_ckb_backend.Prelude.{
  ℕ, zero, suc, ◌+◌, ◌==◌, ◌&&◌, if◌then◌else◌, Bool, true, false, Option, none, some, List, [],
  ◌∷◌, map, length, get_elem?, ℤ, pos, negsuc, Result, ok, err, bytes_equal,
}
use perun_ckb_backend.Prelude.Words.{u128_mod}
use perun_ckb_backend.Ckb.{Script, OutPoint, CellInput, CellOutput, CellInfo, TransactionInput, Sdk}
use perun_ckb_backend.Asset.{
  Asset, Sudt, PAsset, nervos, plain, foreign, new_ckbytes_asset, new_ckbytes_nervos_asset,
  ckb_backend_id,
}
use perun_ckb_backend.Perun.{State, GoPerun, Params, Part}
use perun_ckb_backend.Wallet.Address.{Participant, participant, Keys}
use perun_ckb_backend.Encoding.Bytes.{to_u128_le}
use perun_ckb_backend.Encoding.Signature.{Curve}
use perun_ckb_backend.Transaction.Handler.{
  Call, Collector, PerunScriptHandler, Molecule, ChannelStatus, VirtualChannelStatus,
  ChannelWitness,
}

abbrev same_args : Option (List ℕ) → Option (List ℕ) → Bool
same_args none none = true
same_args (some xs) (some ys) = bytes_equal xs ys
same_args xs ys = false

abbrev pub sdk : Sdk
unfolding to_u128_le
sdk = record {
  script_hash = λ s. s.code_hash;
  script_equals =
      λ s t. s.code_hash == t.code_hash && (s.hash_type == t.hash_type && same_args s.args t.args);
  occupied_capacity = λ cell bytes. 61 + length bytes;
  script_occupied_capacity = λ s. 61;
  store_little_endian = λ n. elim (to_u128_le (pos n)) [ ok bs ↦ bs | err e ↦ [] ];
  add_uint128 = λ m n. m + n;
}

abbrev pub script : ℕ → Script
script hash = record { code_hash = hash; hash_type = 1; args = none }

abbrev pub sudt : Sudt
sudt = record { type_script = script 9; max_capacity = 200 }

abbrev pub sudt_asset : Asset
sudt_asset = record { is_ckbytes = false; sudt = some sudt }

-- The row of an asset: CKBytes are the first one.
abbrev row_of : PAsset → ℕ
row_of (nervos a) = if a.asset.is_ckbytes then 0 else 1
row_of (plain a) = if a.is_ckbytes then 0 else 1
row_of (foreign a) = 2

abbrev balance_in : List (List ℤ) → ℕ → ℕ → ℤ
balance_in rows i j = elim (get_elem? rows i) [
  | none ↦ pos 0
  | some row ↦ elim (get_elem? row j) [ none ↦ pos 0 | some n ↦ n ]
]

abbrev pub perun : GoPerun
perun = record {
  asset_index = λ s a. some (row_of a);
  balance = λ s i a. balance_in s.balances (row_of a) i;
}

-- The first party has 1000 CKBytes, the second one too few for a cell.
abbrev pub state : State
state = record {
  id = 7;
  version = 3;
  is_final = true;
  assets = plain new_ckbytes_asset ∷ plain sudt_asset ∷ [];
  backends = 3 ∷ 3 ∷ [];
  balances = (pos 1000 ∷ pos 20 ∷ []) ∷ (pos 5 ∷ pos 6 ∷ []) ∷ [];
  locked = [];
}

abbrev pub alice : Participant
alice = record { pub_key = some 2; payment_script = script 11; unlock_script = script 12 }

abbrev pub bob : Participant
bob = record { pub_key = some 3; payment_script = script 21; unlock_script = script 22 }

abbrev pub part : Participant → Part
part p = (ckb_backend_id, participant p) ∷ []

abbrev pub params : Params
params = record {
  parts = part alice ∷ part bob ∷ [];
  no_app = true;
  virtual_channel = false;
  nonce = 300;
  challenge_duration = 60;
  aux = [];
}

abbrev pub collector : Collector
collector = record { input_index = λ calls. 0; has_witness = λ calls i. true }

abbrev pub psh : PerunScriptHandler
psh = record {
  pcts_dep = 1;
  pcls_dep = 2;
  pfls_dep = 3;
  vcls_dep = 4;
  vcts_dep = 5;
  sudt_deps = 6 ∷ [];
  pcts_code_hash = 101;
  pcts_hash_type = 1;
  pcls_code_hash = 102;
  pcls_hash_type = 1;
  vcts_code_hash = 103;
  vcts_hash_type = 1;
  vcls_code_hash = 104;
  vcls_hash_type = 1;
  pfls_code_hash = 105;
  pfls_hash_type = 1;
  pfls_min_capacity = 61;
  default_lock_script_dep = 7;
  omni_lock_script_dep = [];
}

abbrev pub mol : Molecule
mol = record {
  status_bytes = λ s. s.vcts_hash ∷ [];
  vc_status_bytes = λ s. map (λ p. p.pcts_hash) s.parents;
  witness_bytes = λ w. [];
  constants_bytes = λ c. c.thread_token;
  vc_constants_bytes = λ c. c.vcls_code_hash ∷ [];
  hash_bytes = λ h. h ∷ [];
}

-- The order is small; a signature marshals to its r.
abbrev pub curve : Curve
curve = record { order = 1001; marshal = λ r s. r ∷ [] }

abbrev pub keys : Keys
keys = record {
  parse_pub_key = λ bytes. some bytes;
  is_equal = λ p q. false;
  sighash_all = λ key. some (script key);
}
