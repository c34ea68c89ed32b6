-- ===== src/CellIterator/Laws.antt =====
-- What the iterators of client/filtered_iterator.go and client/ckb_iterator.go yield.
use perun_ckb_backend.Prelude.{
  ◌≡◌, ◌≢◌, refl, Bool, true, false, Option, none, some, List, [], ◌∷◌, if◌then◌else◌, arith,
}
use perun_ckb_backend.Ckb.{CellOutput, TransactionInput}
use perun_ckb_backend.CellIterator.{
  Base, FilteredCellIterator, search_base, filtered_has_next, filtered_next, ckb_only_next,
  ckb_only_has_next,
}

-- The cells of the base that pass the test, in order.
unfoldable pub passing : (CellOutput → Bool) → Base → List TransactionInput
passing p [] = []
passing p (none ∷ rest) = passing p rest
passing p (some c ∷ rest) = if p c.output then c ∷ passing p rest else passing p rest

-- The cells that an iterator will still yield.
unfoldable pub pending : FilteredCellIterator → List TransactionInput
pending f = if f.loaded then held f.next_input else passing f.filter f.base
  where
    held : Option TransactionInput → List TransactionInput
    held none = passing f.filter f.base
    held (some c) = c ∷ passing f.filter f.base

-- A loaded iterator holds a cell.
abbrev pub IsLoaded : FilteredCellIterator → Type 0
IsLoaded f = f.loaded ≡ true → f.next_input ≢ none

abbrev of_search : (CellOutput → Bool) → Option (TransactionInput × Base) → List TransactionInput
of_search p none = []
of_search p (some (c, rest)) = c ∷ passing p rest

passing-search_base :
    (p : CellOutput → Bool) (base : Base) → passing p base ≡ of_search p (search_base p base)
unfolding search_base passing
passing-search_base p [] = refl
passing-search_base p (none ∷ rest) = passing-search_base p rest
passing-search_base p (some c ∷ rest) = ground (arith, passing-search_base p rest)

abbrev pub is_cons : List TransactionInput → Bool
is_cons [] = false
is_cons (x ∷ xs) = true

abbrev pub first : List TransactionInput → Option TransactionInput
first [] = none
first (x ∷ xs) = some x

abbrev pub rest_of : List TransactionInput → List TransactionInput
rest_of [] = []
rest_of (x ∷ xs) = xs

-- If the filtered iterator holds a cell whenever it is loaded, `HasNext` says whether a cell is
-- pending, and loses none; it still holds a cell whenever it is loaded.
pub filtered_has_next-pending :
    (f : FilteredCellIterator)
    → IsLoaded f
    → ((filtered_has_next f).0 ≡ is_cons (pending f))
      × (pending (filtered_has_next f).1 ≡ pending f)
      × IsLoaded (filtered_has_next f).1
unfolding filtered_has_next pending passing
filtered_has_next-pending f h = ground (arith, passing-search_base f.filter f.base)

-- If the filtered iterator holds a cell whenever it is loaded, `Next` returns the first pending
-- cell, nil when there is none, and leaves the others pending; it still holds a cell whenever it is
-- loaded.
pub filtered_next-pending :
    (f : FilteredCellIterator)
    → IsLoaded f
    → ((filtered_next f).0 ≡ first (pending f))
      × (pending (filtered_next f).1 ≡ rest_of (pending f))
      × IsLoaded (filtered_next f).1
unfolding filtered_next pending passing
filtered_next-pending f h = ground (arith, passing-search_base f.filter f.base)

-- The cells of the base that no type script guards, up to a nil cell.
unfoldable pub untyped : Base → List TransactionInput
untyped [] = []
untyped (none ∷ rest) = []
untyped (some c ∷ rest) = elim c.output.type_script [
  | none ↦ c ∷ untyped rest
  | some _ ↦ untyped rest
]

-- `CKBOnlyIterator.Next` returns the first cell without a type script that comes before a nil cell,
-- and nil when there is none.
pub ckb_only_next-first : (base : Base) → (ckb_only_next base).0 ≡ first (untyped base)
unfolding ckb_only_next untyped
ckb_only_next-first [] = refl
ckb_only_next-first (none ∷ rest) = refl
ckb_only_next-first (some c ∷ rest) = ground (arith, ckb_only_next-first rest)

-- Where cells are left and a type script guards every one up to a nil cell,
-- `CKBOnlyIterator.HasNext` is true and `Next` returns nil.
pub ckb_only_has_next-next :
    (base : Base)
    → base ≢ []
    → untyped base ≡ []
    → (ckb_only_has_next base ≡ true) × ((ckb_only_next base).0 ≡ none)
unfolding ckb_only_has_next
ckb_only_has_next-next [] h e = absurd (h refl)
ckb_only_has_next-next (c ∷ rest) h e = (refl, rw (ckb_only_next-first (c ∷ rest), e) refl)
