-- ===== src/CellIterator.antt =====
-- client/filtered_iterator.go and client/ckb_iterator.go: the iterators from which a transaction is
-- funded. The collector's iterator below them is the list of what its `Next` still returns, where
-- `none` is a nil cell; its `HasNext` says whether the list is empty.
pub mod Laws
pub mod Live
use perun_ckb_backend.Prelude.{
  ℕ, suc, Bool, true, false, Option, none, some, List, [], ◌∷◌, length, if◌then◌else◌,
}
use perun_ckb_backend.Ckb.{CellOutput, TransactionInput}

abbrev pub Base : Type 0
Base = List (Option TransactionInput)

pub record FilteredCellIterator : Type 0 where
  pub base : Base
  pub filter : CellOutput → Bool
  pub next_input : Option TransactionInput
  pub loaded : Bool

unfoldable pub new_filtered_cell_iterator : Base → (CellOutput → Bool) → FilteredCellIterator
new_filtered_cell_iterator base filter = record {
  base = base;
  filter = filter;
  next_input = none;
  loaded = false;
}

-- The loop of `HasNext`: the first cell that passes, and what is left of the base.
unfoldable pub search_base : (CellOutput → Bool) → Base → Option (TransactionInput × Base)
search_base p [] = none
search_base p (none ∷ rest) = search_base p rest
search_base p (some c ∷ rest) =
    let later = search_base p rest in if p c.output then some (c, rest) else later

unfoldable pub filtered_has_next : FilteredCellIterator → Bool × FilteredCellIterator
unfolding search_base
filtered_has_next f = if f.loaded then (true, f) else elim (search_base f.filter f.base) [
  | some (c, rest) ↦ (true, record f { base = rest; next_input = some c; loaded = true })
  | none ↦ (false, record f { base = [] })
]

unfoldable pub filtered_next : FilteredCellIterator → Option TransactionInput × FilteredCellIterator
unfolding filtered_has_next
filtered_next f =
    let (found, g) = filtered_has_next f in
    if found then (g.next_input, record g { loaded = false }) else (none, g)

-- `CKBOnlyIterator.Next`: cells with a type script are skipped.
unfoldable pub ckb_only_next : Base → Option TransactionInput × Base
ckb_only_next [] = (none, [])
ckb_only_next (none ∷ rest) = (none, rest)
ckb_only_next (some c ∷ rest) = elim c.output.type_script [
  | none ↦ (some c, rest)
  | some _ ↦ ckb_only_next rest
]

-- `CKBOnlyIterator.HasNext`
unfoldable pub ckb_only_has_next : Base → Bool
ckb_only_has_next [] = false
ckb_only_has_next (c ∷ rest) = true

-- `collector.CellIterator`, an interface with these two implementations.
pub data CellIterator : Type 0 where
  ckb_only : Base → CellIterator
  filtered : FilteredCellIterator → CellIterator

unfoldable pub has_next : CellIterator → Bool × CellIterator
unfolding ckb_only_has_next filtered_has_next
has_next (ckb_only base) = (ckb_only_has_next base, ckb_only base)
has_next (filtered f) = let (found, g) = filtered_has_next f in (found, filtered g)

unfoldable pub next : CellIterator → Option TransactionInput × CellIterator
unfolding ckb_only_next filtered_next
next (ckb_only base) = let (c, rest) = ckb_only_next base in (c, ckb_only rest)
next (filtered f) = let (c, g) = filtered_next f in (c, filtered g)

-- How many calls of `Next` can still return: the fuel of a loop over the iterator.
unfoldable pub size : CellIterator → ℕ
size (ckb_only base) = length base
size (filtered f) = if f.loaded then suc (length f.base) else length f.base
