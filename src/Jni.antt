-- ===== src/Jni.antt =====
-- app/src/main/cpp/rpc/source/JniClassLoaderHelper.cpp and base/JniClassLoaderHelper.h: the one
-- object through which native threads reach the Java side. A pending Java exception is not
-- modelled, nor is the mutex of `initialize`, which one thread calls at load time.
pub mod Ledger
pub mod Balance
pub mod Rules
pub mod Loading
mod Examples
use grpc_jni_client.Prelude.{ℤ, pos, is_zero, String, ◌∷◌, [], List, ◌||◌, if◌then◌else◌}
use grpc_jni_client.Platform.{
  JniCall, get_env, attach_current_thread, detach_current_thread, find_class, get_object_class,
  get_static_method_id, get_method_id, get_static_field_id, get_field_id, get_static_object_field,
  get_object_field, new_global_ref, delete_local_ref, new_string_utf, jni, Outcome, returned,
  faulted, looping, Io, Action, pure, ask, tell, ◌>>=◌, ◌>>◌,
}

-- `jvm_`, `classLoader_` and `loadClassMethod_`.
pub record JniHelper : Type 0 where
  pub jvm : ℤ
  pub class_loader : ℤ
  pub load_class_method : ℤ

abbrev pub null : ℤ
null = pos 0

abbrev pub loader_class : String
loader_class = "com/kotlinx/grpcjniclient/rpc/JniClassLoader"

pub initialize : JniHelper → ℤ → Action JniHelper
initialize self jvm = do
  let h = record self { jvm = jvm }
  helper_class ← ask (jni (find_class loader_class))
  if is_zero helper_class then pure h else do
    getter ←
        ask
          (jni (get_static_method_id helper_class "getAppClassLoader" "()Ljava/lang/ClassLoader;"))
    if is_zero getter then pure h else do
      local_loader ← ask (jni (JniCall.call_static_object_method helper_class getter []))
      if is_zero local_loader then pure h else do
        loader ← ask (jni (new_global_ref local_loader))
        loader_type ← ask (jni (find_class "java/lang/ClassLoader"))
        method ←
            ask
              (jni (get_method_id loader_type "loadClass" "(Ljava/lang/String;)Ljava/lang/Class;"))
        pure (record h { class_loader = loader; load_class_method = method })

unfoldable pub load_class : JniHelper → String → Action ℤ
load_class self class_name =
    if is_zero self.class_loader || is_zero self.load_class_method then pure null else do
      name ← ask (jni (new_string_utf class_name))
      found ←
          ask
            (jni (JniCall.call_object_method self.class_loader self.load_class_method (name ∷ [])))
      tell (jni (delete_local_ref name))
      pure found

-- `withEnv` for a function over a larger state, into which `lift` takes the calls.
unfoldable pub with_env_over :
    {S : Type 0} → (Action ℤ → Io S ℤ) → Io S (Unit {0}) → Io S (Unit {0})
with_env_over lift fn = do
  got ← lift (ask (jni get_env))
  if is_zero got then fn else do
    attached ← lift (ask (jni attach_current_thread))
    if is_zero attached then (do fn; lift (ask (jni detach_current_thread)); pure tt) else pure tt

unfoldable pub with_env : Action (Unit {0}) → Action (Unit {0})
unfolding with_env_over
with_env fn = with_env_over (λ m. m) fn

unfoldable pub leave_env : Outcome (Unit {0}) → Action (Outcome (Unit {0}))
leave_env (returned _) = do tell (jni detach_current_thread); pure (returned tt)
leave_env faulted = pure faulted
leave_env looping = pure looping

-- `withEnv` for a function that may run into undefined behaviour, after which nothing more is done.
unfoldable pub with_env_fallible : Action (Outcome (Unit {0})) → Action (Outcome (Unit {0}))
unfolding leave_env
with_env_fallible fn = do
  got ← ask (jni get_env)
  if is_zero got then fn else do
    attached ← ask (jni attach_current_thread)
    if is_zero attached then (do ended ← fn; leave_env ended) else pure (returned tt)

pub call_static_void_method : JniHelper → String → String → String → List ℤ → Action (Unit {0})
unfolding load_class
call_static_void_method self class_name name sig args = do
  clazz ← load_class self class_name
  method ← ask (jni (get_static_method_id clazz name sig))
  tell (jni (JniCall.call_static_void_method clazz method args))

unfoldable pub call_static_object_method : JniHelper → String → String → String → List ℤ → Action ℤ
call_static_object_method self class_name name sig args = do
  clazz ← load_class self class_name
  method ← ask (jni (get_static_method_id clazz name sig))
  ask (jni (JniCall.call_static_object_method clazz method args))

pub call_object_method : ℤ → String → String → List ℤ → Action ℤ
call_object_method obj name sig args = do
  clazz ← ask (jni (get_object_class obj))
  method ← ask (jni (get_method_id clazz name sig))
  ask (jni (JniCall.call_object_method obj method args))

-- A null class or method id is passed on, as in the source; what JNI does with it is the platform's.
unfoldable pub call_void_method : ℤ → String → String → List ℤ → Action (Unit {0})
call_void_method obj name sig args = do
  clazz ← ask (jni (get_object_class obj))
  method ← ask (jni (get_method_id clazz name sig))
  tell (jni (JniCall.call_void_method obj method args))
  tell (jni (delete_local_ref clazz))

pub get_static_field_object : JniHelper → String → String → String → Action ℤ
unfolding load_class
get_static_field_object self class_name name sig = do
  clazz ← load_class self class_name
  field ← ask (jni (get_static_field_id clazz name sig))
  ask (jni (get_static_object_field clazz field))

pub get_field_object : ℤ → String → String → Action ℤ
get_field_object obj name sig = do
  clazz ← ask (jni (get_object_class obj))
  field ← ask (jni (get_field_id clazz name sig))
  ask (jni (get_object_field obj field))

pub set_field_object : ℤ → String → String → ℤ → Action (Unit {0})
set_field_object obj name sig value = do
  clazz ← ask (jni (get_object_class obj))
  field ← ask (jni (get_field_id clazz name sig))
  tell (jni (JniCall.set_object_field obj field value))
