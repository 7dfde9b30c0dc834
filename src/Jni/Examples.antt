-- ===== src/Jni/Examples.antt =====
-- The theorems on `JniClassLoaderHelper` at concrete inputs.
use grpc_jni_client.Prelude.{◌≡◌, refl, pos, []}
use grpc_jni_client.Platform.Sample.{sample, detached, GetEnvRule-sample}
use grpc_jni_client.Jni.{with_env, call_void_method}
use grpc_jni_client.Jni.Ledger.{ledger}
use grpc_jni_client.Jni.Balance.{with_env-Keeps, call_void_method-Keeps}

with_env-Keeps_example :
    ledger sample detached (with_env (call_void_method (pos 3) "ready" "()V" []) sample []).1
    ≡ detached
with_env-Keeps_example =
    with_env-Keeps sample detached (call_void_method (pos 3) "ready" "()V" []) [] GetEnvRule-sample
      (call_void_method-Keeps sample detached (pos 3) "ready" "()V" []) (λ _. refl)
