-- ===== src/Client/Retry.antt =====
-- `retryRPC` of client/ckbclient.go: a call is tried again after a delay, unless it was cancelled.
use perun_ckb_backend.Prelude.{
  ℕ, zero, suc, ◌<◌, ◌≡◌, ◌↔◌, ◌⊎◌, Bool, true, false, Result, ok, err, if◌then◌else◌, arith, ap,
  ◌∙◌, Bool-cases, Result-cases, inl, inr,
}
use perun_ckb_backend.Client.{Rpc, RpcError, ClientError}

abbrev pub is_canceled : RpcError → Bool
is_canceled RpcError.canceled = true
is_canceled RpcError.deadline_exceeded = true
is_canceled RpcError.unavailable = false

module _ {W A : Type 0} (wait : W → Bool × W) (fn : Rpc W A) where
  unfoldable pub retry_rpc : ℕ → W → Result ClientError A × W
  retry_rpc zero w = (err ClientError.rpc_failed, w)
  retry_rpc (suc n) w =
      let later = retry_rpc n (wait (fn w).1).1 in
      elim (fn w).0 [
        | ok a ↦ (ok a, (fn w).1)
        | err e ↦
            if is_canceled e
            then (err ClientError.rpc_canceled, (fn w).1)
            else (if (wait (fn w).1).0
                then (err ClientError.context_done, (wait (fn w).1).1)
                else later)
      ]

  -- A number of attempts that failed, with the delays after them, from one state to another.
  pub data Failures : ℕ → W → W → Type 0 where
    no_failure : {w : W} → Failures zero w w
    failure :
        {n : ℕ} {w v : W}
        → (fn w).0 ≡ err RpcError.unavailable
        → (wait (fn w).1).0 ≡ false
        → Failures n (wait (fn w).1).1 v
        → Failures (suc n) w v

  again :
      (n : ℕ) (w : W) (e : RpcError) (a : A) (u : W)
      → (fn w).0 ≡ err e
      → retry_rpc (suc n) w ≡ (ok a, u)
      → (e ≡ RpcError.unavailable)
        × ((wait (fn w).1).0 ≡ false)
        × (retry_rpc n (wait (fn w).1).1 ≡ (ok a, u))
  unfolding retry_rpc
  again n w RpcError.canceled a u f h = ground arith
  again n w RpcError.deadline_exceeded a u f h = ground arith
  again n w RpcError.unavailable a u f h = ground arith

  retried :
      (n : ℕ) (w : W) (a : A) (u : W)
      → retry_rpc n w ≡ (ok a, u)
      → (k : ℕ) × (v : W) × (k < n) × Failures k w v × (fn v ≡ (ok a, u))
  unfolding retry_rpc
  retried zero w a u h = ground arith
  retried (suc n) w a u h = elim (Result-cases (fn w).0) [
    | inl (b, e) ↦ (0, w, omega arith, no_failure, ground arith)
    | inr (e, f) ↦
        let (p, d, r) = again n w e a u f h in
        let (k, v, l, g, q) = retried n (wait (fn w).1).1 a u r in
        (suc k, v, omega arith, failure (f ∙ ap err p) d g, q)
  ]

  repeated :
      (n : ℕ) (w : W) (a : A) (u : W) (k : ℕ) (v : W)
      → k < n
      → Failures k w v
      → fn v ≡ (ok a, u)
      → retry_rpc n w ≡ (ok a, u)
  unfolding retry_rpc
  repeated zero w a u k v l f h = absurd (omega arith)
  repeated (suc n) w a u zero v l no_failure h = ground arith
  repeated (suc n) w a u (suc k) v l (failure e d f) h =
      ground (arith, repeated n (wait (fn w).1).1 a u k v (omega arith) f h)

  -- The retries return a value exactly when one of the attempts does, after attempts that all failed
  -- in a way that is tried again and delays that all came to their end.
  pub retry_rpc-ok :
      (n : ℕ) (w : W) (a : A) (u : W)
      → (retry_rpc n w ≡ (ok a, u))
        ↔ ((k : ℕ) × (v : W) × (k < n) × Failures k w v × (fn v ≡ (ok a, u)))
  retry_rpc-ok n w a u = (retried n w a u, λ r. repeated n w a u r.0 r.1 r.2 r.3 r.4)

  -- The retries fail with one of three errors.
  pub retry_rpc-err :
      (n : ℕ) (w : W) (e : ClientError)
      → (retry_rpc n w).0 ≡ err e
      → (e ≡ ClientError.rpc_failed)
        ⊎ ((e ≡ ClientError.rpc_canceled) ⊎ (e ≡ ClientError.context_done))
  unfolding retry_rpc
  retry_rpc-err zero w e h = inl (ground arith)
  retry_rpc-err (suc n) w e h = elim (Result-cases (fn w).0) [
    | inl (a, q) ↦ absurd (ground arith)
    | inr (x, q) ↦ elim (Bool-cases (is_canceled x)) [
      | inl c ↦ inr (inl (ground arith))
      | inr c ↦ elim (Bool-cases (wait (fn w).1).0) [
        | inl d ↦ inr (inr (ground arith))
        | inr d ↦ retry_rpc-err n (wait (fn w).1).1 e (ground arith)
      ]
    ]
  ]
