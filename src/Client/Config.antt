-- ===== src/Client/Config.antt =====
-- `Client` of client/ckbclient.go with `backend.Signer`, and the libraries that its methods call.
use perun_ckb_backend.Prelude.{ℕ, Option, List, []}
use perun_ckb_backend.Prelude.GoMap.{GoMap}
use perun_ckb_backend.Ckb.{Script, OutPoint, CellInfo, Sdk}
use perun_ckb_backend.CellIterator.{Base}
use perun_ckb_backend.Perun.{GoPerun, Params}
use perun_ckb_backend.Wallet.Address.{Keys}
use perun_ckb_backend.Deployment.{Deployment}
use perun_ckb_backend.Encoding.Signature.{Curve}
use perun_ckb_backend.Transaction.Builder.{Builder}
use perun_ckb_backend.Transaction.Build.{ScriptHandler, Built}
use perun_ckb_backend.Transaction.Handler.{Call, Collector, Molecule}
use perun_ckb_backend.Client.{Node, Others, Formats, SearchKey, World}
use perun_ckb_backend.Client.Cache.{new_stable_script_cache}

-- `backend.Signer`: its address's lock script, its text form if it has one, its key, the context with
-- which transactions are built, and how it signs.
pub record Signer (T C : Type 0) : Type 0 where
  pub address : Script
  pub encoded_address : Option (List ℕ)
  pub public_key : ℕ
  pub contexts : Option C
  pub sign_transaction : Built → Option T

-- The collectors of the SDK, read at a state of the node: what a new iterator still returns, and the
-- cell of an out point. `assemble` is a builder after the calls on `SimpleTransactionBuilder`, and
-- `load_little_endian` is that of `uint128`, and `pack_out_point` the molecule form of a token.
pub record Collectors (W C : Type 0) : Type 0 where
  pub live_cell_iterator : SearchKey → W → Base
  pub iterator_from_address : List ℕ → W → Option Base
  pub live_cell : W → OutPoint → Option CellInfo
  pub collector : Collector
  pub assemble : List Call → Builder → Builder
  pub script_handlers : List (ScriptHandler C)
  pub order : GoMap ℕ → GoMap ℕ
  pub load_little_endian : List ℕ → ℕ
  pub pack_out_point : OutPoint → List ℕ

-- `Client`; its transactions have the type `T`, and the contexts of building the type `C`. `await_fuel`
-- bounds the rounds in which it waits for a transaction.
pub record Client (W T C : Type 0) : Type 0 where
  pub node : Node W T
  pub signer : Signer T C
  pub deployment : Deployment
  pub others : Others W
  pub formats : Formats
  pub collectors : Collectors W C
  pub sdk : Sdk
  pub perun : GoPerun
  pub keys : Keys
  pub molecule : Molecule
  pub curve : Curve
  pub channel_id : Params → ℕ
  pub await_fuel : ℕ

-- `NewClient`: the caches of a new client are empty.
unfoldable pub new_client : {W T : Type 0} → W → World W T
new_client w = record {
  node_state = w;
  cache = new_stable_script_cache;
  vc_cache = new_stable_script_cache;
  sent = [];
}
