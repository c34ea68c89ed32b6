-- ===== src/Prelude/GoMap.antt =====
-- Go's maps keyed by hashes, as association lists in the order of insertion. A hash is the number
-- that its bytes spell.
use Prim.Native.Nat.{ℕ}
use mathlib.Core.Path.{◌≡◌, refl, subst}
use mathlib.Core.Logic.{inl, inr}
use mathlib.Core.Bool.{false}
use mathlib.Core.Option.{Option, none, some}
use mathlib.Core.List.{List, [], ◌∷◌}
use native.Mathlib.Omega.{arith}
use perun_ckb_backend.Prelude.Tests.{◌==◌, if◌then◌else◌, Bool-cases}

abbrev pub GoMap {ℓ} : Type ℓ → Type ℓ
GoMap V = List (ℕ × V)

module _ {ℓ} {V : Type ℓ} where
  -- `v, ok := m[k]`
  abbrev pub lookup : ℕ → GoMap V → Option V
  lookup k [] = none
  lookup k ((j, v) ∷ m) = if j == k then some v else lookup k m

  -- `m[k] = v`
  abbrev pub insert : ℕ → V → GoMap V → GoMap V
  insert k v [] = (k, v) ∷ []
  insert k v ((j, w) ∷ m) = if j == k then (j, v) ∷ m else (j, w) ∷ insert k v m

  -- `m[k]`, with the zero value of the type for a key that is missing
  abbrev pub get_or : V → ℕ → GoMap V → V
  get_or d k [] = d
  get_or d k ((j, v) ∷ m) = if j == k then v else get_or d k m

  pub lookup-insert :
      (k j : ℕ) (v : V) (m : GoMap V)
      → lookup j (insert k v m) ≡ (if k == j then some v else lookup j m)
  lookup-insert k j v [] = refl
  lookup-insert k j v ((i, w) ∷ m) = ground (arith, lookup-insert k j v m)

  pub get_or-insert :
      (d : V) (k j : ℕ) (v : V) (m : GoMap V)
      → get_or d j (insert k v m) ≡ (if k == j then v else get_or d j m)
  get_or-insert d k j v [] = refl
  get_or-insert d k j v ((i, w) ∷ m) = ground (arith, get_or-insert d k j v m)

  -- No entry has the key.
  abbrev pub IsAbsent : ℕ → GoMap V → Type 0
  IsAbsent k [] = Unit
  IsAbsent k ((j, v) ∷ m) = ((j == k) ≡ false) × IsAbsent k m

  -- Every key stands once.
  abbrev pub Distinct : GoMap V → Type 0
  Distinct [] = Unit
  Distinct ((k, v) ∷ m) = IsAbsent k m × Distinct m

  pub insert-IsAbsent :
      (k j : ℕ) (v : V) (m : GoMap V) → (k == j) ≡ false → IsAbsent j m → IsAbsent j (insert k v m)
  insert-IsAbsent k j v [] h a = (h, tt)
  insert-IsAbsent k j v ((i, w) ∷ m) h a = elim (Bool-cases (i == k)) [
    | inl e ↦ rw e a
    | inr e ↦ rw e (a.0, insert-IsAbsent k j v m h a.1)
  ]

  pub insert-Distinct : (k : ℕ) (v : V) (m : GoMap V) → Distinct m → Distinct (insert k v m)
  insert-Distinct k v [] d = (tt, tt)
  insert-Distinct k v ((i, w) ∷ m) d = elim (Bool-cases (i == k)) [
    | inl e ↦ rw e d
    | inr e ↦ rw e (insert-IsAbsent k i v m (ground arith) d.0, insert-Distinct k v m d.1)
  ]

  pub get_or-IsAbsent : (d : V) (k : ℕ) (m : GoMap V) → IsAbsent k m → get_or d k m ≡ d
  get_or-IsAbsent d k [] a = refl
  get_or-IsAbsent d k ((j, w) ∷ m) a = ground (arith, get_or-IsAbsent d k m a.1)

  -- A property of the keys.
  abbrev pub Keys {κ} : (ℕ → Type κ) → GoMap V → Type κ
  Keys P [] = Unit
  Keys P ((k, v) ∷ m) = P k × Keys P m

  pub insert-Keys {κ} :
      (P : ℕ → Type κ) (k : ℕ) (v : V) (m : GoMap V) → P k → Keys P m → Keys P (insert k v m)
  insert-Keys P k v [] p ps = (p, tt)
  insert-Keys P k v ((j, w) ∷ m) p ps = elim (Bool-cases (j == k)) [
    | inl e ↦ rw e ps
    | inr e ↦ rw e (ps.0, insert-Keys P k v m p ps.1)
  ]

  -- A property of the values.
  abbrev pub Values {κ} : (V → Type κ) → GoMap V → Type κ
  Values P [] = Unit
  Values P ((k, v) ∷ m) = P v × Values P m

  pub insert-Values {κ} :
      (P : V → Type κ) (k : ℕ) (v : V) (m : GoMap V) → P v → Values P m → Values P (insert k v m)
  insert-Values P k v [] p ps = (p, tt)
  insert-Values P k v ((j, w) ∷ m) p ps = elim (Bool-cases (j == k)) [
    | inl e ↦ rw e (p, ps.1)
    | inr e ↦ rw e (ps.0, insert-Values P k v m p ps.1)
  ]

  pub lookup-Values {κ} :
      (P : V → Type κ) (k : ℕ) (v : V) (m : GoMap V) → Values P m → lookup k m ≡ some v → P v
  lookup-Values P k v [] ps h = cc
  lookup-Values P k v ((j, w) ∷ m) ps h = elim (Bool-cases (j == k)) [
    | inl e ↦ subst P (ground arith) ps.0
    | inr e ↦ lookup-Values P k v m ps.1 (ground arith)
  ]
