-- ===== src/Jni/Ledger.antt =====
-- What the JNI documentation says about a thread across a history: whether it is attached to the
-- VM, and how many local references it holds. Not code of the program, but the terms in which
-- `Jni.Balance` states what the program leaves behind.
use grpc_jni_client.Prelude.{
  ℕ, ℤ, ◌+◌, ◌-◌, ◌≡◌, Bool, true, false, [], ◌∷◌, is_zero, if◌then◌else◌,
}
use grpc_jni_client.Platform.{
  JniCall, attach_current_thread, detach_current_thread, find_class, get_object_class,
  get_static_object_field, get_object_field, delete_local_ref, new_string_utf,
  new_direct_byte_buffer, get_env, Call, jni, Trace, Platform, Action,
}

pub record Thread : Type 0 where
  pub attached : Bool
  pub refs : ℕ

-- A call that returns an object makes a local reference, unless it returns null.
abbrev pub made : ℤ → Thread → Thread
made r t = record t { refs = if is_zero r then t.refs else t.refs + 1 }

-- A detached thread has lost all its local references.
abbrev pub after_jni : JniCall → ℤ → Thread → Thread
after_jni attach_current_thread r t = record t { attached = if is_zero r then true else t.attached }
after_jni detach_current_thread r t = record { attached = false; refs = 0 }
after_jni (find_class _) r t = made r t
after_jni (get_object_class _) r t = made r t
after_jni (JniCall.call_static_object_method _ _ _) r t = made r t
after_jni (JniCall.call_object_method _ _ _) r t = made r t
after_jni (get_static_object_field _ _) r t = made r t
after_jni (get_object_field _ _) r t = made r t
after_jni (new_string_utf _) r t = made r t
after_jni (new_direct_byte_buffer _) r t = made r t
after_jni (delete_local_ref x) r t = record t { refs = if is_zero x then t.refs else t.refs - 1 }
after_jni _ r t = t

abbrev pub after_call : Call → ℤ → Thread → Thread
after_call (jni c) r t = after_jni c r t
after_call _ r t = t

-- The thread after a history that found it as `start`.
abbrev pub ledger : Platform → Thread → Trace → Thread
ledger p start [] = start
ledger p start (c ∷ tr) = after_call c (p.answer tr c) (ledger p start tr)

-- `GetEnv` answers JNI_OK exactly on an attached thread.
abbrev pub GetEnvRule : Platform → Thread → Type 0
GetEnvRule p start =
    (tr : Trace) → is_zero (p.answer tr (jni get_env)) ≡ (ledger p start tr).attached

-- The action, run on an attached thread, leaves the thread as it was.
abbrev pub Keeps : {A : Type 0} → Platform → Thread → Action A → Type 0
Keeps p start m =
    (tr : Trace)
    → (ledger p start tr).attached ≡ true
    → ledger p start (m p tr).1 ≡ ledger p start tr

-- The action, run on an attached thread, leaves it attached.
abbrev pub StaysAttached : {A : Type 0} → Platform → Thread → Action A → Type 0
StaysAttached p start m =
    (tr : Trace) → (ledger p start tr).attached ≡ true → (ledger p start (m p tr).1).attached ≡ true
