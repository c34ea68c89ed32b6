-- ===== src/CellIterator/Live.antt =====
-- The cells that an iterator hands out are live, and each call of `Next` uses one up.
use perun_ckb_backend.Prelude.{
  ◌≤◌, ◌<◌, ◌≡◌, inl, inr, Bool, true, false, Option, none, some, [], ◌∷◌, length, if◌then◌else◌,
  arith, All, Bool-cases, Option-cases, subst,
}
use perun_ckb_backend.Ckb.{CellOutput, TransactionInput, OutPoint, CellInfo}
use perun_ckb_backend.CellIterator.{
  Base, FilteredCellIterator, search_base, filtered_has_next, filtered_next, ckb_only_next,
  CellIterator, ckb_only, filtered, has_next, next, size,
}

module _ (get_live_cell : OutPoint → Option CellInfo) where
  -- The node knows the cell, with the output and the data that the indexer returned.
  abbrev pub IsLiveCell : Option TransactionInput → Type 0
  IsLiveCell none = Unit {0}
  IsLiveCell (some c) =
      get_live_cell c.out_point ≡ some (record { output = c.output; output_data = c.output_data })

  abbrev pub IsLive : CellIterator → Type 0
  IsLive (ckb_only base) = All IsLiveCell base
  IsLive (filtered f) = IsLiveCell f.next_input × All IsLiveCell f.base

  abbrev IsLiveSearch : Option (TransactionInput × Base) → Type 0
  IsLiveSearch none = Unit {0}
  IsLiveSearch (some (c, rest)) = IsLiveCell (some c) × All IsLiveCell rest

  search_base-IsLive :
      (p : CellOutput → Bool) (base : Base)
      → All IsLiveCell base
      → IsLiveSearch (search_base p base)
  unfolding search_base
  search_base-IsLive p [] h = tt
  search_base-IsLive p (none ∷ rest) h = search_base-IsLive p rest h.1
  search_base-IsLive p (some c ∷ rest) h = elim (Bool-cases (p c.output)) [
    | inl e ↦ rw e h
    | inr e ↦ rw e (search_base-IsLive p rest h.1)
  ]

  abbrev made : Base → (CellOutput → Bool) → Option TransactionInput → Bool → FilteredCellIterator
  made base p held loaded = record { base = base; filter = p; next_input = held; loaded = loaded }

  filtered_has_next-IsLive :
      (base : Base) (p : CellOutput → Bool) (held : Option TransactionInput) (loaded : Bool)
      → IsLiveCell held
      → All IsLiveCell base
      → IsLive (filtered (filtered_has_next (made base p held loaded)).1)
  unfolding filtered_has_next
  filtered_has_next-IsLive base p held true h hs = (h, hs)
  filtered_has_next-IsLive base p held false h hs = elim (Option-cases (search_base p base)) [
    | inl e ↦ rw e (h, tt)
    | inr (found, e) ↦ rw e (subst IsLiveSearch e (search_base-IsLive p base hs))
  ]

  pub has_next-IsLive : (it : CellIterator) → IsLive it → IsLive (has_next it).1
  unfolding has_next
  has_next-IsLive (ckb_only base) h = h
  has_next-IsLive (filtered f) h =
      filtered_has_next-IsLive f.base f.filter f.next_input f.loaded h.0 h.1

  ckb_only_next-IsLive :
      (base : Base)
      → All IsLiveCell base
      → IsLiveCell (ckb_only_next base).0 × All IsLiveCell (ckb_only_next base).1
  unfolding ckb_only_next
  ckb_only_next-IsLive [] h = (tt, tt)
  ckb_only_next-IsLive (none ∷ rest) h = (tt, h.1)
  ckb_only_next-IsLive (some c ∷ rest) h = elim (Option-cases c.output.type_script) [
    | inl e ↦ ground arith
    | inr (t, e) ↦ ground (arith, ckb_only_next-IsLive rest h.1)
  ]

  filtered_next-IsLive :
      (found : Bool) (g : FilteredCellIterator)
      → IsLive (filtered g)
      → let (c, k) =
          if◌then◌else◌ {A = Option TransactionInput × FilteredCellIterator} found
            (g.next_input, record g { loaded = false })
            (none, g) in
        IsLiveCell c × IsLive (filtered k)
  filtered_next-IsLive true g h = (h.0, h)
  filtered_next-IsLive false g h = (tt, h)

  pub next-IsLive : (it : CellIterator) → IsLive it → IsLiveCell (next it).0 × IsLive (next it).1
  unfolding next filtered_next
  next-IsLive (ckb_only base) h = ckb_only_next-IsLive base h
  next-IsLive (filtered f) h =
      filtered_next-IsLive (filtered_has_next f).0 (filtered_has_next f).1
        (filtered_has_next-IsLive f.base f.filter f.next_input f.loaded h.0 h.1)

-- What is left of the base behind the first cell that passes is shorter.
abbrev IsShorter : Base → Option (TransactionInput × Base) → Type 0
IsShorter base none = Unit {0}
IsShorter base (some (c, rest)) = length rest < length base

search_base-IsShorter : (p : CellOutput → Bool) (base : Base) → IsShorter base (search_base p base)
unfolding search_base
search_base-IsShorter p [] = tt
search_base-IsShorter p (none ∷ rest) = ground (arith, search_base-IsShorter p rest)
search_base-IsShorter p (some c ∷ rest) = ground (arith, search_base-IsShorter p rest)

length-ckb_only_next : (base : Base) → length (ckb_only_next base).1 ≤ length base
unfolding ckb_only_next
length-ckb_only_next [] = omega arith
length-ckb_only_next (none ∷ rest) = omega arith
length-ckb_only_next (some c ∷ rest) = ground (arith, length-ckb_only_next rest)

-- `HasNext` leaves no more cells than there were, and `Next` after it leaves fewer.
pub size-has_next : (it : CellIterator) → size (has_next it).1 ≤ size it
unfolding has_next filtered_has_next size
size-has_next (ckb_only base) = omega arith
size-has_next (filtered f) = ground (arith, search_base-IsShorter f.filter f.base)

pub size-next :
    (it : CellIterator) → (has_next it).0 ≡ true → size (next (has_next it).1).1 < size it
unfolding has_next next filtered_has_next filtered_next size
size-next (ckb_only []) h = absurd (ground arith)
size-next (ckb_only (none ∷ rest)) h = omega arith
size-next (ckb_only (some c ∷ rest)) h = ground (arith, length-ckb_only_next rest)
size-next (filtered f) h = ground (arith, search_base-IsShorter f.filter f.base)
