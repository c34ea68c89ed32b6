-- ===== src/Ckb.antt =====
-- What the repository takes from ckb-sdk-go: the values of a CKB transaction with the fields that
-- the source reads and writes, and the functions that it calls, as the parameter `Sdk`.
use perun_ckb_backend.Prelude.{ℕ, Bool, List, Option}

-- `types.Script`; a hash, and the byte of a hash type, are numbers. `none` is Go's nil slice.
pub record Script : Type 0 where
  pub code_hash : ℕ
  pub hash_type : ℕ
  pub args : Option (List ℕ)

pub record OutPoint : Type 0 where
  pub tx_hash : ℕ
  pub index : ℕ

pub record CellInput : Type 0 where
  pub since : ℕ
  pub previous_output : OutPoint

pub record CellOutput : Type 0 where
  pub capacity : ℕ
  pub lock : Script
  pub type_script : Option Script

-- `types.TransactionInput`: a live cell that an iterator hands out.
pub record TransactionInput : Type 0 where
  pub out_point : OutPoint
  pub output : CellOutput
  pub output_data : List ℕ

-- The output and the data of a cell, as the node returns them.
pub record CellInfo : Type 0 where
  pub output : CellOutput
  pub output_data : List ℕ

-- The calls into ckb-sdk-go and into `uint128`.
pub record Sdk : Type 0 where
  -- `Script.Hash` and `Script.Equals`
  pub script_hash : Script → ℕ
  pub script_equals : Script → Script → Bool
  -- `CellOutput.OccupiedCapacity` and `Script.OccupiedCapacity`
  pub occupied_capacity : CellOutput → List ℕ → ℕ
  pub script_occupied_capacity : Script → ℕ
  -- `uint128.StoreLittleEndian` into sixteen bytes
  pub store_little_endian : ℕ → List ℕ
  -- `Uint128.Add`
  pub add_uint128 : ℕ → ℕ → ℕ
