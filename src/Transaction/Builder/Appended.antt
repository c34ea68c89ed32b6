-- ===== src/Transaction/Builder/Appended.antt =====
-- `appendOutputToGroups` of transaction/transaction.go, where the groups are there.
use perun_ckb_backend.Prelude.{
  ℕ, zero, suc, ◌<◌, ◌≡◌, refl, ◌∙◌, List, [], ◌∷◌, length, length-set, set, get_elem?, Option,
  none, some, Result, ok, arith,
}
use perun_ckb_backend.Transaction.Funds.{TxError}
use perun_ckb_backend.Transaction.Builder.{
  Builder, ScriptGroup, output_dir, append_index, append_to_group, append_to_groups,
}

get_elem?-below :
    (gs : List ScriptGroup) (i : ℕ) → i < length gs → (g : ScriptGroup) × (get_elem? gs i ≡ some g)
get_elem?-below [] i h = absurd (omega arith)
get_elem?-below (g ∷ gs) zero h = (g, refl)
get_elem?-below (g ∷ gs) (suc i) h = get_elem?-below gs i (omega arith)

-- An output is added to groups that are there, and nothing else changes.
pub record Appended (r : Result TxError Builder) (b : Builder) : Type 0 where
  pub groups : List ScriptGroup
  pub succeeds : r ≡ ok (record b { script_groups = groups })
  pub as_many : length groups ≡ length b.script_groups

append_to_group-Appended :
    (i g : ℕ) (b : Builder)
    → g < length b.script_groups
    → Appended (append_to_group output_dir i g b) b
unfolding append_to_group
append_to_group-Appended i g b h =
    let (group, e) = get_elem?-below b.script_groups g h in
    record {
      groups = set b.script_groups g (append_index output_dir i group);
      succeeds = ground arith;
      as_many = length-set b.script_groups g (append_index output_dir i group);
    }

pub append_to_groups-Appended :
    (lock : ℕ) (type : Option ℕ) (i : ℕ) (b : Builder)
    → lock < length b.script_groups
    → ((t : ℕ) → type ≡ some t → t < length b.script_groups)
    → Appended (append_to_groups output_dir (some lock, type) i b) b
unfolding append_to_groups
append_to_groups-Appended lock none i b h k = append_to_group-Appended i lock b h
append_to_groups-Appended lock (some t) i b h k =
    let first = append_to_group-Appended i lock b h in
    let second =
      append_to_group-Appended i t (record b { script_groups = first.groups })
        (omega (arith, first.as_many, k t refl)) in
    record {
      groups = second.groups;
      succeeds = rw first.succeeds second.succeeds;
      as_many = second.as_many ∙ first.as_many;
    }
