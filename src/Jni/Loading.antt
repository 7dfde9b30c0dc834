-- ===== src/Jni/Loading.antt =====
-- The class loader that `initialize` caches and `loadClass` uses.
use grpc_jni_client.Prelude.{
  ℤ, ◌≡◌, ◌⊎◌, inl, inr, refl, String, false, [], ◌∷◌, is_zero, Bool-cases,
}
use grpc_jni_client.Platform.{JniCall, find_class, get_static_method_id, jni, Trace, Platform}
use grpc_jni_client.Jni.{JniHelper, null, loader_class, initialize, load_class}

-- The singleton before `JNI_OnLoad`.
abbrev pub unset : JniHelper
unset = record { jvm = null; class_loader = null; load_class_method = null }

-- The chain of lookups that `initialize` makes up to the app class loader.
abbrev pub helper_class : Platform → Trace → ℤ
helper_class p tr = p.answer tr (jni (find_class loader_class))

abbrev pub getter_call : Platform → Trace → JniCall
getter_call p tr =
    get_static_method_id (helper_class p tr) "getAppClassLoader" "()Ljava/lang/ClassLoader;"

abbrev pub after_find : Trace → Trace
after_find tr = jni (find_class loader_class) ∷ tr

abbrev pub getter : Platform → Trace → ℤ
getter p tr = p.answer (after_find tr) (jni (getter_call p tr))

abbrev pub app_loader : Platform → Trace → ℤ
app_loader p tr =
    p.answer (jni (getter_call p tr) ∷ after_find tr)
      (jni (JniCall.call_static_object_method (helper_class p tr) (getter p tr) []))

abbrev pub LoaderFound : Platform → Trace → Type 0
LoaderFound p tr =
    (is_zero (helper_class p tr) ≡ false)
    × (is_zero (getter p tr) ≡ false)
    × (is_zero (app_loader p tr) ≡ false)

module _ (p : Platform) (jvm : ℤ) (tr : Trace) where
  -- From an unset helper, `initialize` keeps the VM pointer, and either every lookup on the way to
  -- the app class loader succeeded, or each later `loadClass` returns null and calls nothing.
  pub load_class-initialize :
      let h = (initialize unset jvm p tr).0 in
      (h.jvm ≡ jvm)
      × (LoaderFound p tr
          ⊎ ((name : String) (later : Trace) → load_class h name p later ≡ (null, later)))
  unfolding initialize load_class
  load_class-initialize = elim (Bool-cases (is_zero (helper_class p tr))) [
    | inl e ↦ rw e (refl, inr (λ name later. refl))
    | inr e ↦ elim (Bool-cases (is_zero (getter p tr))) [
      | inl f ↦ rw (e, f) (refl, inr (λ name later. refl))
      | inr f ↦ elim (Bool-cases (is_zero (app_loader p tr))) [
        | inl g ↦ rw (e, f, g) (refl, inr (λ name later. refl))
        | inr g ↦ rw (e, f, g) (refl, inl (refl, refl, refl))
      ]
    ]
  ]
