-- ===== src/Perun.antt =====
-- What the repository takes from go-perun: the values of a channel with the fields that the source
-- reads, and the functions on them that it calls, as the parameter `GoPerun`.
use perun_ckb_backend.Prelude.{ℕ, Bool, List, Option, ℤ}
use perun_ckb_backend.Prelude.GoMap.{GoMap}
use perun_ckb_backend.Asset.{PAsset}
use perun_ckb_backend.Wallet.Address.{Address}

-- `channel.SubAlloc`
pub record SubAlloc : Type 0 where
  pub id : ℕ
  pub bals : List ℤ
  pub index_map : List ℕ

-- `channel.State` with its allocation; `balances` has a row for each asset.
pub record State : Type 0 where
  pub id : ℕ
  pub version : ℕ
  pub is_final : Bool
  pub assets : List PAsset
  pub backends : List ℕ
  pub balances : List (List ℤ)
  pub locked : List SubAlloc

-- A part of a channel: its addresses by their backend's id.
abbrev pub Part : Type 0
Part = GoMap Address

-- `channel.Params`; `no_app` says whether its app is `channel.NoApp()`.
pub record Params : Type 0 where
  pub parts : List Part
  pub no_app : Bool
  pub virtual_channel : Bool
  pub nonce : ℕ
  pub challenge_duration : ℕ
  pub aux : List ℕ

-- The calls into go-perun: `Allocation.AssetIndex` and `Allocation.Balance`.
pub record GoPerun : Type 0 where
  pub asset_index : State → PAsset → Option ℕ
  pub balance : State → ℕ → PAsset → ℤ
