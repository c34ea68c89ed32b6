-- ===== src/Tests/Iterators.antt =====
-- Iterators over two cells, of which one has a type script.
use perun_ckb_backend.Prelude.{◌≡◌, refl, true, false, none, some, [], ◌∷◌, arith}
use perun_ckb_backend.Ckb.{TransactionInput}
use perun_ckb_backend.CellIterator.{
  FilteredCellIterator, filtered_has_next, filtered_next, ckb_only_next, ckb_only_has_next,
}
use perun_ckb_backend.CellIterator.Laws.{
  pending, untyped, IsLoaded, is_cons, first, rest_of, filtered_has_next-pending,
  filtered_next-pending, ckb_only_next-first, ckb_only_has_next-next,
}
use perun_ckb_backend.Tests.{script}

abbrev typed : TransactionInput
typed = record {
  out_point = record { tx_hash = 1; index = 0 };
  output = record { capacity = 500; lock = script 5; type_script = some (script 9) };
  output_data = [];
}

abbrev plain_cell : TransactionInput
plain_cell = record {
  out_point = record { tx_hash = 1; index = 1 };
  output = record { capacity = 400; lock = script 5; type_script = none };
  output_data = [];
}

abbrev iterator : FilteredCellIterator
iterator = record {
  base = some plain_cell ∷ some typed ∷ [];
  filter = λ o. elim o.type_script [ none ↦ false | some t ↦ true ];
  next_input = none;
  loaded = false;
}

iterator-IsLoaded : IsLoaded iterator
iterator-IsLoaded h = absurd (ground arith)

filtered_has_next-pending_example :
    ((filtered_has_next iterator).0 ≡ is_cons (pending iterator))
    × (pending (filtered_has_next iterator).1 ≡ pending iterator)
    × IsLoaded (filtered_has_next iterator).1
filtered_has_next-pending_example = filtered_has_next-pending iterator iterator-IsLoaded

filtered_next-pending_example :
    ((filtered_next iterator).0 ≡ first (pending iterator))
    × (pending (filtered_next iterator).1 ≡ rest_of (pending iterator))
    × IsLoaded (filtered_next iterator).1
filtered_next-pending_example = filtered_next-pending iterator iterator-IsLoaded

ckb_only_next-first_example :
    (ckb_only_next (some typed ∷ some plain_cell ∷ [])).0
    ≡ first (untyped (some typed ∷ some plain_cell ∷ []))
ckb_only_next-first_example = ckb_only_next-first (some typed ∷ some plain_cell ∷ [])

ckb_only_has_next-next_example :
    (ckb_only_has_next (some typed ∷ []) ≡ true) × ((ckb_only_next (some typed ∷ [])).0 ≡ none)
unfolding untyped
ckb_only_has_next-next_example =
    ckb_only_has_next-next (some typed ∷ []) (λ e. absurd (ground arith)) typed-hidden
  where
    typed-hidden : untyped (some typed ∷ []) ≡ []
    typed-hidden = refl
