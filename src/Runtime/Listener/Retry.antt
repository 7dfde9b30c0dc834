-- ===== src/Runtime/Listener/Retry.antt =====
-- The retry loop, with its attempt left open.
use grpc_jni_client.Prelude.{
  ℕ, zero, suc, ◌<◌, ◌≡◌, refl, Bool, true, false, arith, Bool-cases, inl, inr, ◌∷◌,
}
use grpc_jni_client.Platform.{Platform, returned, looping, os, sleep_ms}
use grpc_jni_client.Runtime.State.{Runtime, Method}
use grpc_jni_client.Runtime.Listener.{retry}

abbrev pub asleep : ℕ → Runtime → Runtime
asleep pause r = record r { trace = os (sleep_ms pause) ∷ r.trace }

module _ (p : Platform) (pause : ℕ) (attempt : Method Bool) where
  -- The state in front of attempt number `k`, if those before it failed.
  abbrev pub tries : ℕ → Runtime → Runtime
  tries zero r = r
  tries (suc k) r = tries k (asleep pause (attempt p r).1)

  -- What each attempt and each sleep keep, the loop keeps.
  pub retry-keeps :
      (P : Runtime → Type 0)
      → ((r : Runtime) → P r → P (attempt p r).1)
      → ((r : Runtime) → P r → P (asleep pause r))
      → (rounds : ℕ) (r : Runtime) → P r
      → P (retry rounds pause attempt p r).1
  unfolding retry
  retry-keeps P tried slept zero r v = v
  retry-keeps P tried slept (suc rounds) r v = elim (Bool-cases (attempt p r).0) [
    | inl e ↦ rw e (tried r v)
    | inr e ↦ rw e (retry-keeps P tried slept rounds _ (slept _ (tried r v)))
  ]

  -- If attempt number `k` would succeed, more than `k` rounds are enough to return.
  pub retry_returns :
      (rounds k : ℕ) (r : Runtime)
      → k < rounds
      → (attempt p (tries k r)).0 ≡ true
      → (retry rounds pause attempt p r).0 ≡ returned tt
  unfolding retry
  retry_returns zero k r h e = absurd (omega arith)
  retry_returns (suc rounds) zero r h e = rw e refl
  retry_returns (suc rounds) (suc k) r h e = elim (Bool-cases (attempt p r).0) [
    | inl ok ↦ rw ok refl
    | inr failed ↦ rw failed (retry_returns rounds k _ (omega arith) e)
  ]

  -- An attempt that fails in every state that it can meet keeps the loop going for ever.
  pub retry_blocks :
      (P : Runtime → Type 0)
      → ((r : Runtime) → P r → ((attempt p r).0 ≡ false) × P (attempt p r).1)
      → ((r : Runtime) → P r → P (asleep pause r))
      → (rounds : ℕ) (r : Runtime) → P r
      → (retry rounds pause attempt p r).0 ≡ looping
  unfolding retry
  retry_blocks P fails slept zero r v = refl
  retry_blocks P fails slept (suc rounds) r v =
      rw (fails r v).0 (retry_blocks P fails slept rounds _ (slept _ (fails r v).1))
