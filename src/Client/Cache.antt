-- ===== src/Client/Cache.antt =====
-- client/script_cache.go: the cache of a channel's type script by its id. Its lock makes each method one
-- step, and the methods of other callers run between the steps.
use perun_ckb_backend.Prelude.{
  ℕ, ◌≡◌, refl, ◌↔◌, ◌⊎◌, Option, none, some, true, false, List, [], ◌∷◌, Result, ok, err,
  if◌then◌else◌, arith, Option-cases, inl, inr,
}
use perun_ckb_backend.Prelude.GoMap.{GoMap, lookup, insert, lookup-insert}
use perun_ckb_backend.Ckb.{Script, Sdk}
use perun_ckb_backend.Client.{ClientError}

-- `NewStableScriptCache`
abbrev pub new_stable_script_cache : GoMap Script
new_stable_script_cache = []

-- `scriptCache.Get`
unfoldable pub cache_get : ℕ → GoMap Script → Option Script
cache_get id cache = lookup id cache

-- Every script of one cache stands under the same id in another one.
abbrev pub Extends : GoMap Script → GoMap Script → Type 0
Extends c d = (id : ℕ) (s : Script) → cache_get id c ≡ some s → cache_get id d ≡ some s

module _ (sdk : Sdk) where
  -- `scriptCache.Set`
  unfoldable pub cache_set :
      ℕ → Script → GoMap Script → Result ClientError (Unit {0}) × GoMap Script
  cache_set id script cache = elim (lookup id cache) [
    | none ↦ (ok tt, insert id script cache)
    | some old ↦
        if sdk.script_equals old script
        then (ok tt, cache)
        else (err ClientError.cache_rewrite, cache)
  ]

  -- The calls of `Set` that other callers make, in their order.
  unfoldable pub run_sets : List (ℕ × Script) → GoMap Script → GoMap Script
  unfolding cache_set
  run_sets [] cache = cache
  run_sets ((id, script) ∷ calls) cache = run_sets calls (cache_set id script cache).1

  -- `Set` fails exactly if the cache holds a script for the id that is not equal to the given one.
  pub cache_set-fails :
      (id : ℕ) (s : Script) (c : GoMap Script)
      → ((cache_set id s c).0 ≡ err ClientError.cache_rewrite)
        ↔ ((old : Script) × (cache_get id c ≡ some old) × (sdk.script_equals old s ≡ false))
  unfolding cache_set cache_get
  cache_set-fails id s c = elim (Option-cases (lookup id c)) [
    | inl e ↦ ((λ h. absurd (ground arith)), (λ r. absurd (ground arith)))
    | inr (old, e) ↦ ((λ h. (old, e, ground arith)), (λ r. ground arith))
  ]

  pub cache_set-Extends : (id : ℕ) (s : Script) (c : GoMap Script) → Extends c (cache_set id s c).1
  unfolding cache_set cache_get
  cache_set-Extends id s c j t h = ground (arith, lookup-insert id j s c)

  pub run_sets-Extends :
      (calls : List (ℕ × Script)) (c : GoMap Script) → Extends c (run_sets calls c)
  unfolding run_sets
  run_sets-Extends [] c j t h = h
  run_sets-Extends ((id, s) ∷ calls) c j t h =
      run_sets-Extends calls (cache_set id s c).1 j t (cache_set-Extends id s c j t h)

  pub set_answers :
      (id : ℕ) (s : Script) (c : GoMap Script)
      → (cache_set id s c).0 ≡ ok tt
      → (t : Script) × (cache_get id (cache_set id s c).1 ≡ some t)
        × (((cache_get id c ≡ none) × (t ≡ s))
            ⊎ ((cache_get id c ≡ some t) × (sdk.script_equals t s ≡ true)))
  unfolding cache_set cache_get
  set_answers id s c h = elim (Option-cases (lookup id c)) [
    | inl e ↦ (s, ground (arith, lookup-insert id id s c), inl (e, refl))
    | inr (old, e) ↦ (old, ground arith, inr (e, ground arith))
  ]

  -- Whatever other callers set before and after it, a script that `Set` accepted is answered by every
  -- later `Get` of its id; or, if there was one before, that one is, and it is equal to the given one.
  pub cache_set-stable :
      (id : ℕ) (s : Script) (c : GoMap Script) (calls : List (ℕ × Script))
      → (cache_set id s c).0 ≡ ok tt
      → (t : Script) × (cache_get id (run_sets calls (cache_set id s c).1) ≡ some t)
        × (((cache_get id c ≡ none) × (t ≡ s))
            ⊎ ((cache_get id c ≡ some t) × (sdk.script_equals t s ≡ true)))
  cache_set-stable id s c calls h =
      let (t, answered, which) = set_answers id s c h in
      (t, run_sets-Extends calls (cache_set id s c).1 id t answered, which)
