-- ===== src/Runtime/Codec/Restart.antt =====
-- `initMediaCodec` where there is a decoder already.
use grpc_jni_client.Prelude.{
  ℕ, suc, ℤ, pos, ◌≡◌, refl, sym, ap, ◌∙◌, [], ◌∷◌, true, false, is_zero, arith, Bool-cases, inl,
  inr,
}
use grpc_jni_client.Platform.{
  Platform, Trace, create_decoder, codec, jni, get_env, attach_current_thread, window,
  from_surface_texture, acquire_native_window, get_current_context, egl,
}
use grpc_jni_client.Jni.{JniHelper, call_static_object_method, with_env_over}
use grpc_jni_client.Jni.Rules.{call_static_object_method-Preserves}
use grpc_jni_client.Runtime.State.{Runtime}
use grpc_jni_client.Runtime.Codec.{
  create_codec, decode_into, take_texture, attach_texture, init_media_codec,
}
use grpc_jni_client.Runtime.Codec.Live.{live, CodecHeld}
use grpc_jni_client.Runtime.Codec.Accounts.{lost, deleted}

-- What makes `initMediaCodec` come as far as to ask for a decoder: the thread can be attached, the Java
-- side makes a surface texture, and it gives a window.
pub record GivesWindow (p : Platform) (java : JniHelper) (oes_texture : ℤ) : Type 0 where
  pub attaches : (tr : Trace) → is_zero (p.answer tr (jni attach_current_thread)) ≡ true
  pub has_object :
      (tr : Trace)
      → is_zero
          (call_static_object_method java "com/kotlinx/grpcjniclient/screen/CarplayScreenStub"
            "createOesSurfaceTexture" "(I)Landroid/graphics/SurfaceTexture;"
            (oes_texture ∷ [])
            p
            tr).0
        ≡ false
  pub has_texture :
      (object : ℤ) (tr : Trace)
      → is_zero (p.answer tr (window (from_surface_texture object))) ≡ false
  pub has_window :
      (texture : ℤ) (tr : Trace)
      → is_zero (p.answer tr (window (acquire_native_window texture))) ≡ false

-- What the newest creation of a decoder gave.
abbrev pub newest : Platform → Trace → ℤ
newest p [] = pos 0
newest p (codec (create_decoder name) ∷ tr) = p.answer tr (codec (create_decoder name))
newest p (_ ∷ tr) = newest p tr

-- A decoder is alive after a history that has lost `n` and deleted `d`.
abbrev Alive : Platform → ℕ → ℕ → Trace → Type 0
Alive p n d tr = (is_zero (live p tr) ≡ false) × (lost p tr ≡ n) × (deleted tr ≡ d)

-- One more is lost and none more deleted, and the pointer is what the newest creation gave.
pub record Loses (p : Platform) (n d : ℕ) (r : Runtime) : Type 0 where
  pub lost_one : lost p r.trace ≡ suc n
  pub kept : deleted r.trace ≡ d
  pub overwritten : r.media_codec ≡ newest p r.trace

module _ (p : Platform) (n d : ℕ) where
  create_codec-Loses : (r : Runtime) → Alive p n d r.trace → Loses p n d (create_codec p r).1
  unfolding create_codec
  create_codec-Loses r v = ground arith

  module _ (java : JniHelper) (oes_texture : ℤ) (g : GivesWindow p java oes_texture) where
    decode_into-Loses :
        (texture : ℤ) (r : Runtime) → Alive p n d r.trace → Loses p n d (decode_into texture p r).1
    unfolding decode_into
    decode_into-Loses texture r v = rw (g.has_window texture) (create_codec-Loses _ v)

    take_texture-Loses :
        (object : ℤ) (r : Runtime)
        → is_zero object ≡ false
        → Alive p n d r.trace
        → Loses p n d (take_texture object p r).1
    unfolding take_texture
    take_texture-Loses object r z v = rw (z, g.has_texture object r.trace) (decode_into-Loses _ _ v)

    attach_texture-Loses :
        (r : Runtime)
        → r.java ≡ java
        → r.oes_texture ≡ oes_texture
        → Alive p n d r.trace
        → Loses p n d (attach_texture p r).1
    unfolding attach_texture
    attach_texture-Loses r same_java same_texture v =
        take_texture-Loses _ _
          (rw (same_java, same_texture) (g.has_object (egl get_current_context ∷ r.trace)))
          (call_static_object_method-Preserves p (Alive p n d) (λ c tr w. w) r.java
            "com/kotlinx/grpcjniclient/screen/CarplayScreenStub" "createOesSurfaceTexture"
            "(I)Landroid/graphics/SurfaceTexture;" (r.oes_texture ∷ []) _ v)

-- If the runtime holds the live decoder, and `initMediaCodec` comes as far as to ask for one: nothing is
-- deleted, the decoder that was alive is lost by the creation of another one, and the pointer to it is
-- overwritten by what that creation gave.
pub init_media_codec-Loses :
    (p : Platform) (r : Runtime)
    → CodecHeld p r
    → is_zero r.media_codec ≡ false
    → GivesWindow p r.java r.oes_texture
    → Loses p (lost p r.trace) (deleted r.trace) (init_media_codec p r).1
unfolding init_media_codec with_env_over
init_media_codec-Loses p r v z g =
    let n = lost p r.trace in
    let d = deleted r.trace in
    let alive : Alive p n d r.trace = (ap is_zero (sym v.0) ∙ z, refl, refl) in
    elim (Bool-cases (is_zero (p.answer r.trace (jni get_env)))) [
      | inl e ↦ rw e (attach_texture-Loses p n d r.java r.oes_texture g _ refl refl alive)
      | inr e ↦
          let made = attach_texture-Loses p n d r.java r.oes_texture g _ refl refl alive in
          rw (e, g.attaches (jni get_env ∷ r.trace))
            (record { lost_one = made.lost_one; kept = made.kept; overwritten = made.overwritten })
    ]
