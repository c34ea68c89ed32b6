-- ===== src/Client/Steps.antt =====
-- A method that succeeded, taken apart into its steps.
use perun_ckb_backend.Prelude.{
  ◌≡◌, ap, ◌⊎◌, Bool, true, false, Option, none, some, Result, ok, err, arith, Result-cases, inl,
  inr,
}
use perun_ckb_backend.Ckb.{Sdk}
use perun_ckb_backend.Client.{
  Context, ClientError, Rpc, Node, World, Others, M, pure, next_step, ◌>>=◌, require, give, deref,
}
use perun_ckb_backend.Client.Retry.{retry_rpc, retry_rpc-ok}
use perun_ckb_backend.Client.Calls.{rpc, after_call, rpc_attempts}

module _ {W T : Type 0} where
  pub >>=-eq-ok :
      {A B : Type 0} (m : M W T A) (f : A → M W T B) (w v : World W T) (b : B)
      → (m >>= f) w ≡ (ok b, v)
      → (a : A) × (u : World W T) × (m w ≡ (ok a, u)) × (f a u ≡ (ok b, v))
  unfolding ◌>>=◌ next_step
  >>=-eq-ok m f w v b h = elim (Result-cases (m w).0) [
    | inl (a, e) ↦ (a, (m w).1, ground arith, ground arith)
    | inr (e, q) ↦ absurd (ground arith)
  ]

  -- A first step that succeeds.
  pub >>=-run :
      {A B : Type 0} (m : M W T A) (f : A → M W T B) (w u : World W T) (a : A)
      → m w ≡ (ok a, u)
      → (m >>= f) w ≡ f a u
  unfolding ◌>>=◌ next_step
  >>=-run {A} m f w u a e = ap (λ (z : Result ClientError A × World W T). next_step f z.0 z.1) e

  pub >>=-eq-err :
      {A B : Type 0} (m : M W T A) (f : A → M W T B) (w : World W T) (e : ClientError)
      → ((m >>= f) w).0 ≡ err e
      → ((m w).0 ≡ err e) ⊎ ((a : A) × (u : World W T) × (m w ≡ (ok a, u)) × ((f a u).0 ≡ err e))
  unfolding ◌>>=◌ next_step
  >>=-eq-err m f w e h = elim (Result-cases (m w).0) [
    | inl (a, q) ↦ inr (a, (m w).1, ground arith, ground arith)
    | inr (x, q) ↦ inl (ground arith)
  ]

  pub give-eq-ok :
      {A : Type 0} (r : Result ClientError A) (w v : World W T) (a : A)
      → give r w ≡ (ok a, v)
      → (r ≡ ok a) × (w ≡ v)
  unfolding give
  give-eq-ok r w v a h = ground arith

  pub pure-eq-ok :
      {A : Type 0} (x : A) (w v : World W T) (a : A) → pure x w ≡ (ok a, v) → (x ≡ a) × (w ≡ v)
  unfolding pure
  pure-eq-ok x w v a h = ground arith

  pub deref-eq-ok :
      {A : Type 0} (p : Option A) (w v : World W T) (a : A)
      → deref p w ≡ (ok a, v)
      → (p ≡ some a) × (w ≡ v)
  unfolding deref
  deref-eq-ok none w v a h = absurd (ground arith)
  deref-eq-ok (some x) w v a h = ground arith

  pub require-eq-ok :
      (b : Bool) (e : ClientError) (w v : World W T) (a : Unit {0})
      → require b e w ≡ (ok a, v)
      → (b ≡ true) × (w ≡ v)
  unfolding require
  require-eq-ok true e w v a h = ground arith
  require-eq-ok false e w v a h = absurd (ground arith)

  -- A call that succeeded is one that the node answered.
  pub rpc-eq-ok :
      {A : Type 0} (sdk : Sdk) (node : Node W T) (others : Others W) (ctx : Context)
      (call : Rpc W A) (w v : World W T) (a : A)
      → rpc sdk node others ctx call w ≡ (ok a, v)
      → (x y : W) × (call x ≡ (ok a, y)) × (v ≡ after_call sdk others y w)
  unfolding rpc
  rpc-eq-ok sdk node others ctx call w v a h =
      let y : W = (retry_rpc (node.wait ctx) call rpc_attempts w.node_state).1 in
      let r : retry_rpc (node.wait ctx) call rpc_attempts w.node_state ≡ (ok a, y) = ground arith in
      let (k, x, l, f, e) = (retry_rpc-ok (node.wait ctx) call rpc_attempts w.node_state a y).0 r in
      (x, y, e, ground arith)
