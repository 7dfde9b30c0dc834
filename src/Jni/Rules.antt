-- ===== src/Jni/Rules.antt =====
-- Predicates on histories that no JNI call breaks: the helper keeps them.
use grpc_jni_client.Prelude.{ℤ, String, List, [], ◌∷◌, is_zero, ◌||◌, Bool-cases, inl, inr}
use grpc_jni_client.Platform.{
  JniCall, get_env, attach_current_thread, find_class, get_static_method_id, jni, Outcome, returned,
  faulted, looping, Trace, Platform, Action,
}
use grpc_jni_client.Jni.{
  JniHelper, initialize, loader_class, with_env, with_env_fallible, leave_env, load_class,
  call_void_method, call_static_object_method,
}

abbrev pub Stable : (Trace → Type 0) → Type 0
Stable P = (c : JniCall) (tr : Trace) → P tr → P (jni c ∷ tr)

abbrev pub Preserves : {A : Type 0} → Platform → (Trace → Type 0) → Action A → Type 0
Preserves p P m = (tr : Trace) → P tr → P (m p tr).1

module _ (p : Platform) (P : Trace → Type 0) (stable : Stable P) where
  pub with_env-Preserves : (fn : Action (Unit {0})) → Preserves p P fn → Preserves p P (with_env fn)
  unfolding with_env
  with_env-Preserves fn keeps tr v = elim (Bool-cases (is_zero (p.answer tr (jni get_env)))) [
    | inl z ↦ rw z (keeps _ (stable _ _ v))
    | inr z ↦
        rw z
          (elim (Bool-cases (is_zero (p.answer (jni get_env ∷ tr) (jni attach_current_thread)))) [
            | inl y ↦ rw y (stable _ _ (keeps _ (stable _ _ (stable _ _ v))))
            | inr y ↦ rw y (stable _ _ (stable _ _ v))
          ])
  ]

  leave_env-Preserves : (ended : Outcome (Unit {0})) → Preserves p P (leave_env ended)
  unfolding leave_env
  leave_env-Preserves (returned _) tr v = stable _ _ v
  leave_env-Preserves faulted tr v = v
  leave_env-Preserves looping tr v = v

  pub with_env_fallible-Preserves :
      (fn : Action (Outcome (Unit {0}))) → Preserves p P fn → Preserves p P (with_env_fallible fn)
  unfolding with_env_fallible
  with_env_fallible-Preserves fn keeps tr v =
      elim (Bool-cases (is_zero (p.answer tr (jni get_env)))) [
        | inl z ↦ rw z (keeps _ (stable _ _ v))
        | inr z ↦
            rw z
              (elim (Bool-cases
                (is_zero (p.answer (jni get_env ∷ tr) (jni attach_current_thread)))) [
                  | inl y ↦ rw y (leave_env-Preserves _ _ (keeps _ (stable _ _ (stable _ _ v))))
                  | inr y ↦ rw y (stable _ _ (stable _ _ v))
                ])
      ]

  pub call_void_method-Preserves :
      (obj : ℤ) (name sig : String) (args : List ℤ)
      → Preserves p P (call_void_method obj name sig args)
  unfolding call_void_method
  call_void_method-Preserves obj name sig args tr v =
      stable _ _ (stable _ _ (stable _ _ (stable _ _ v)))

  load_class-Preserves : (self : JniHelper) (name : String) → Preserves p P (load_class self name)
  unfolding load_class
  load_class-Preserves self name tr v =
      elim (Bool-cases (is_zero self.class_loader || is_zero self.load_class_method)) [
        | inl z ↦ rw z v
        | inr z ↦ rw z (stable _ _ (stable _ _ (stable _ _ v)))
      ]

  pub call_static_object_method-Preserves :
      (self : JniHelper) (class_name name sig : String) (args : List ℤ)
      → Preserves p P (call_static_object_method self class_name name sig args)
  unfolding call_static_object_method
  call_static_object_method-Preserves self class_name name sig args tr v =
      stable _ _ (stable _ _ (load_class-Preserves self class_name tr v))

  pub initialize-Preserves : (self : JniHelper) (jvm : ℤ) → Preserves p P (initialize self jvm)
  unfolding initialize
  initialize-Preserves self jvm tr v =
      let helper_class = p.answer tr (jni (find_class loader_class)) in
      let named =
        get_static_method_id helper_class "getAppClassLoader" "()Ljava/lang/ClassLoader;" in
      let tr₁ = jni (find_class loader_class) ∷ tr in
      let getter = p.answer tr₁ (jni named) in
      let app_loader =
        p.answer (jni named ∷ tr₁)
          (jni (JniCall.call_static_object_method helper_class getter [])) in
      let v₂ = stable named tr₁ (stable _ _ v) in
      elim (Bool-cases (is_zero helper_class)) [
        | inl e ↦ rw e (stable _ _ v)
        | inr e ↦ rw e (elim (Bool-cases (is_zero getter)) [
          | inl f ↦ rw f v₂
          | inr f ↦ rw f (elim (Bool-cases (is_zero app_loader)) [
            | inl g ↦ rw g (stable _ _ v₂)
            | inr g ↦ rw g (stable _ _ (stable _ _ (stable _ _ (stable _ _ v₂))))
          ])
        ])
      ]
