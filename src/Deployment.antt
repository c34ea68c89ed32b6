-- ===== src/Deployment.antt =====
-- backend/deployment.go: what is known of the deployed scripts, and the handler for them that
-- transaction/handler.go makes. A cell dependency is a number that stands for it.
use perun_ckb_backend.Prelude.{ℕ, List}
use perun_ckb_backend.Prelude.GoMap.{GoMap}
use perun_ckb_backend.Ckb.{Script}
use perun_ckb_backend.Transaction.Handler.{PerunScriptHandler}

-- `Deployment`; `sudt_deps` stand in the order in which Go ranges over the map.
pub record Deployment : Type 0 where
  pub pcts_dep : ℕ
  pub pcls_dep : ℕ
  pub pfls_dep : ℕ
  pub vcls_dep : ℕ
  pub vcts_dep : ℕ
  pub pcts_code_hash : ℕ
  pub pcts_hash_type : ℕ
  pub pcls_code_hash : ℕ
  pub pcls_hash_type : ℕ
  pub pfls_code_hash : ℕ
  pub pfls_hash_type : ℕ
  pub pfls_min_capacity : ℕ
  pub default_lock_script : Script
  pub default_lock_script_dep : ℕ
  pub omni_lock_script : Script
  pub omni_lock_script_dep : List ℕ
  pub vcts_code_hash : ℕ
  pub vcts_hash_type : ℕ
  pub vcls_code_hash : ℕ
  pub vcls_hash_type : ℕ
  pub sudts : GoMap Script
  pub sudt_deps : List ℕ

-- `NewPerunScriptHandlerWithDeployment`
unfoldable pub new_perun_script_handler : Deployment → PerunScriptHandler
new_perun_script_handler d = record {
  pcts_dep = d.pcts_dep;
  pcls_dep = d.pcls_dep;
  pfls_dep = d.pfls_dep;
  vcls_dep = d.vcls_dep;
  vcts_dep = d.vcts_dep;
  sudt_deps = d.sudt_deps;
  pcts_code_hash = d.pcts_code_hash;
  pcts_hash_type = d.pcts_hash_type;
  pcls_code_hash = d.pcls_code_hash;
  pcls_hash_type = d.pcls_hash_type;
  vcts_code_hash = d.vcts_code_hash;
  vcts_hash_type = d.vcts_hash_type;
  vcls_code_hash = d.vcls_code_hash;
  vcls_hash_type = d.vcls_hash_type;
  pfls_code_hash = d.pfls_code_hash;
  pfls_hash_type = d.pfls_hash_type;
  pfls_min_capacity = d.pfls_min_capacity;
  default_lock_script_dep = d.default_lock_script_dep;
  omni_lock_script_dep = d.omni_lock_script_dep;
}
