-- ===== src/Jni/Balance.antt =====
-- What `JniClassLoaderHelper` leaves behind on a thread: attachment and local references.
use grpc_jni_client.Prelude.{ℤ, ◌+◌, ◌≡◌, String, false, List, ◌∷◌, is_zero, arith, if◌then◌else◌}
use grpc_jni_client.Platform.{Trace, Platform, Action, jni, get_env, get_object_class}
use grpc_jni_client.Jni.Ledger.{Thread, ledger, GetEnvRule, Keeps}
use grpc_jni_client.Jni.{JniHelper, with_env, load_class, call_void_method, call_object_method}

module _ (p : Platform) (start : Thread) where
  -- Where `GetEnv` tells whether the thread is attached: if the function keeps the ledger of every
  -- attached thread, then `withEnv` keeps the ledger of the calling thread, also where it has to
  -- attach and detach, or fails to attach. A thread that is not attached is taken to hold no local
  -- reference.
  pub with_env-Keeps :
      (fn : Action (Unit {0})) (tr : Trace)
      → GetEnvRule p start
      → Keeps p start fn
      → ((ledger p start tr).attached ≡ false → (ledger p start tr).refs ≡ 0)
      → ledger p start (with_env fn p tr).1 ≡ ledger p start tr
  unfolding with_env
  with_env-Keeps fn tr rule keeps bare = ground (arith, rule tr, keeps (jni get_env ∷ tr), bare)

  -- Where `GetEnv` tells whether the thread is attached: on a detached thread without local
  -- references, `withEnv` ends with the thread detached and without references, whatever the
  -- function leaks and whether or not the thread could be attached.
  pub with_env-detached :
      (fn : Action (Unit {0})) (tr : Trace)
      → GetEnvRule p start
      → ledger p start tr ≡ record { attached = false; refs = 0 }
      → ledger p start (with_env fn p tr).1 ≡ record { attached = false; refs = 0 }
  unfolding with_env
  with_env-detached fn tr rule bare = ground (arith, rule tr)

  -- The caller of `callVoidMethod` finds its local references as before.
  pub call_void_method-Keeps :
      (obj : ℤ) (name sig : String) (args : List ℤ)
      → Keeps p start (call_void_method obj name sig args)
  unfolding call_void_method
  call_void_method-Keeps obj name sig args tr h = ground arith

  -- Where the object's class is found, `callObjectMethod` leaves the class reference behind
  -- besides the object that it returns.
  pub call_object_method_leaks :
      (obj : ℤ) (name sig : String) (args : List ℤ) (tr : Trace)
      → is_zero (p.answer tr (jni (get_object_class obj))) ≡ false
      → let (found, tr') = call_object_method obj name sig args p tr in
        (ledger p start tr').refs ≡ (ledger p start tr).refs + (if is_zero found then 1 else 2)
  unfolding call_object_method
  call_object_method_leaks obj name sig args tr h = ground arith

  -- A class looked up through the cached loader costs one local reference, its name's being released.
  pub load_class-refs :
      (self : JniHelper) (name : String) (tr : Trace)
      → let (found, tr') = load_class self name p tr in
        ledger p start tr' ≡ record (ledger p start tr) {
          refs = (ledger p start tr).refs + (if is_zero found then 0 else 1);
        }
  unfolding load_class
  load_class-refs self name tr = ground arith
