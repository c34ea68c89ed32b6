-- ===== src/Client/Stable.antt =====
-- What the client's methods keep: the scripts that its caches hold.
use perun_ckb_backend.Prelude.{
  Bool, true, false, Option, none, some, Result, ok, err, if◌then◌else◌,
}
use perun_ckb_backend.Ckb.{Sdk}
use perun_ckb_backend.Client.{
  Context, ClientError, Rpc, Node, World, Others, M, pure, fail, next_step, ◌>>=◌, ◌>>◌, require,
  give, deref,
}
use perun_ckb_backend.Client.Cache.{Extends, run_sets-Extends}
use perun_ckb_backend.Client.Calls.{after_call, rpc, once}

module _ {W T : Type 0} where
  -- Every script of the caches of one world is cached in another one too.
  pub record Grows (w v : World W T) : Type 0 where
    pub channels : Extends w.cache v.cache
    pub virtual_channels : Extends w.vc_cache v.vc_cache

  pub Grows-refl : (w : World W T) → Grows w w
  Grows-refl w = record { channels = λ id s h. h; virtual_channels = λ id s h. h }

  pub Grows-trans : {u v w : World W T} → Grows u v → Grows v w → Grows u w
  Grows-trans g h = record {
    channels = λ id s k. h.channels id s (g.channels id s k);
    virtual_channels = λ id s k. h.virtual_channels id s (g.virtual_channels id s k);
  }

  -- A method that forgets no script, whether it succeeds or fails.
  pub record Keeps {A : Type 0} (m : M W T A) : Type 0 where
    pub grows : (w : World W T) → Grows w (m w).1

  pub pure-Keeps : {A : Type 0} (a : A) → Keeps (pure a)
  unfolding pure
  pure-Keeps a = record { grows = Grows-refl }

  pub fail-Keeps : {A : Type 0} (e : ClientError) → Keeps {A = A} (fail e)
  unfolding fail
  fail-Keeps e = record { grows = Grows-refl }

  pub give-Keeps : {A : Type 0} (r : Result ClientError A) → Keeps (give r)
  unfolding give
  give-Keeps r = record { grows = Grows-refl }

  pub deref-Keeps : {A : Type 0} (p : Option A) → Keeps (deref p)
  unfolding deref
  deref-Keeps none = record { grows = Grows-refl }
  deref-Keeps (some a) = record { grows = Grows-refl }

  pub require-Keeps : (b : Bool) (e : ClientError) → Keeps (require b e)
  unfolding require
  require-Keeps true e = record { grows = Grows-refl }
  require-Keeps false e = record { grows = Grows-refl }

  next_step-Grows :
      {A B : Type 0} (f : A → M W T B) (r : Result ClientError A) (u v : World W T)
      → Grows u v
      → ((a : A) → Keeps (f a))
      → Grows u (next_step f r v).1
  unfolding next_step
  next_step-Grows f (err e) u v g k = g
  next_step-Grows f (ok a) u v g k = Grows-trans g ((k a).grows v)

  pub bind-Keeps :
      {A B : Type 0} (m : M W T A) (f : A → M W T B)
      → Keeps m
      → ((a : A) → Keeps (f a))
      → Keeps (m >>= f)
  unfolding ◌>>=◌
  bind-Keeps m f h k = record { grows = λ w. next_step-Grows f (m w).0 w (m w).1 (h.grows w) k }

  pub then-Keeps :
      {B : Type 0} (m : M W T (Unit {0})) (k : M W T B) → Keeps m → Keeps k → Keeps (m >> k)
  unfolding ◌>>◌
  then-Keeps m k p q = bind-Keeps m (λ done. k) p (λ done. q)

  pub if-Keeps :
      {A : Type 0} (b : Bool) (m k : M W T A) → Keeps m → Keeps k → Keeps (if b then m else k)
  if-Keeps true m k p q = p
  if-Keeps false m k p q = q

  module _ (sdk : Sdk) (others : Others W) where
    pub after_call-Grows : (v : W) (w : World W T) → Grows w (after_call sdk others v w)
    unfolding after_call
    after_call-Grows v w = record {
      channels = run_sets-Extends sdk (others.sets v) w.cache;
      virtual_channels = run_sets-Extends sdk (others.vc_sets v) w.vc_cache;
    }

    pub once-Keeps : {A : Type 0} (call : Rpc W A) → Keeps (once sdk others call)
    unfolding once
    once-Keeps call = record { grows = λ w. after_call-Grows (call w.node_state).1 w }

    pub rpc-Keeps :
        {A : Type 0} (node : Node W T) (ctx : Context) (call : Rpc W A)
        → Keeps (rpc sdk node others ctx call)
    unfolding rpc
    rpc-Keeps node ctx call = record { grows = λ w. after_call-Grows _ w }

pub ruleset keeping = (
  pure-Keeps, fail-Keeps, give-Keeps, deref-Keeps, require-Keeps, bind-Keeps, then-Keeps,
  once-Keeps, rpc-Keeps,
)
