-- ===== src/Runtime/System/Video.antt =====
-- The video thread and the output thread, but for the window's surface, are quiet.
use grpc_jni_client.Prelude.{
  ◌≡◌, ℕ, ℤ, refl, [], ◌∷◌, is_zero, arith, inl, inr, Bool-cases, zero, suc, false, pos, negsuc,
}
use grpc_jni_client.Platform.{
  Platform, egl, window, acquire_native_window, attach_to_gl_context, detach_from_gl_context,
  from_surface_texture, get_display, create_context, initialize_display, choose_config,
}
use grpc_jni_client.Renderer.{init, init_shader, compile_shader}
use grpc_jni_client.Jni.{with_env_over}
use grpc_jni_client.Jni.Rules.{
  call_static_object_method-Preserves, with_env-Preserves, call_void_method-Preserves,
}
use grpc_jni_client.Runtime.State.{Runtime, on_trace}
use grpc_jni_client.Runtime.State.{started}
use grpc_jni_client.Runtime.Codec.{
  at_least, init_media_codec, attach_texture, take_texture, decode_into, create_codec,
  notify_screen_available,
}
use grpc_jni_client.Runtime.Codec.Lifecycle.{with_env_over-post}
use grpc_jni_client.Runtime.Codec.Live.{HeldAt, HeldAt-jni}
use grpc_jni_client.Runtime.Screen.{
  init_egl, open_display, make_context, make_surface, create_oes_texture, init_renderer,
  prepare_screen, update_image, surface_available, handle_output, output_loop,
}
use grpc_jni_client.Runtime.System.Quiet.{
  Quiet, QuietTrace, Quiet-refl, Quiet-trans, Quiet-jni, after,
}

module _ (p : Platform) where
  create_codec-Quiet : (r : Runtime) → Quiet p r (create_codec p r).1
  unfolding create_codec
  create_codec-Quiet r = ground arith

  decode_into-Quiet : (texture : ℤ) (r : Runtime) → Quiet p r (decode_into texture p r).1
  unfolding decode_into
  decode_into-Quiet texture r =
      let native =
        p.answer
          (window (attach_to_gl_context texture r.oes_texture)
            ∷ window (detach_from_gl_context texture)
            ∷ r.trace)
          (window (acquire_native_window texture)) in
      elim (Bool-cases (is_zero native)) [
        | inl z ↦ rw z (ground arith)
        | inr z ↦ rw z (after p (create_codec-Quiet _) (ground arith))
      ]

  take_texture-Quiet : (object : ℤ) (r : Runtime) → Quiet p r (take_texture object p r).1
  unfolding take_texture
  take_texture-Quiet object r = elim (Bool-cases (is_zero object)) [
    | inl z ↦ rw z (Quiet-refl p r)
    | inr z ↦
        elim (Bool-cases (is_zero (p.answer r.trace (window (from_surface_texture object))))) [
          | inl y ↦ rw (z, y) (ground arith)
          | inr y ↦ rw (z, y) (after p (decode_into-Quiet _ _) (ground arith))
        ]
  ]

  attach_texture-Quiet : (r : Runtime) → Quiet p r (attach_texture p r).1
  unfolding attach_texture
  attach_texture-Quiet r = after p (take_texture-Quiet _ _) (record {
    dial = refl;
    listener = refl;
    surface = refl;
    history =
        call_static_object_method-Preserves p (QuietTrace p r.trace) (λ c tr q. ground arith) r.java
          "com/kotlinx/grpcjniclient/screen/CarplayScreenStub" "createOesSurfaceTexture"
          "(I)Landroid/graphics/SurfaceTexture;" (r.oes_texture ∷ []) _ (ground arith);
    decoder =
        call_static_object_method-Preserves p (HeldAt p r.media_codec) (HeldAt-jni p r.media_codec)
          r.java "com/kotlinx/grpcjniclient/screen/CarplayScreenStub" "createOesSurfaceTexture"
          "(I)Landroid/graphics/SurfaceTexture;" (r.oes_texture ∷ []) _;
  })

  init_media_codec-Quiet : (r : Runtime) → Quiet p r (init_media_codec p r).1
  unfolding init_media_codec
  init_media_codec-Quiet r =
      with_env_over-post p on_trace attach_texture (Quiet p r) (Quiet p r)
        (λ c s q. Quiet-jni p c r s q) (λ c s q. Quiet-jni p c r s q) (λ s q. q)
        (λ s q. Quiet-trans p q (attach_texture-Quiet s)) r (Quiet-refl p r)

  pub surface_available-Quiet :
      (object : ℤ) (r : Runtime) → Quiet p r (surface_available object p r).1
  unfolding surface_available with_env_over
  surface_available-Quiet object r = ground arith

  handle_output-Quiet :
      (index : ℤ) (r : Runtime)
      → is_zero r.media_codec ≡ false
      → Quiet p r (handle_output index p r).1
  unfolding handle_output notify_screen_available
  handle_output-Quiet (pos n) r z = ground arith
  handle_output-Quiet (negsuc zero) r z = ground arith
  handle_output-Quiet (negsuc (suc zero)) r z = record {
    dial = refl;
    listener = refl;
    surface = refl;
    history =
        with_env-Preserves p (QuietTrace p r.trace) (λ c tr q. ground arith) _
          (call_void_method-Preserves p (QuietTrace p r.trace) (λ c tr q. ground arith)
            r.java_object "mediaCodecFormatChanged" "()V" [])
          _ (ground arith);
    decoder = λ v.
        with_env-Preserves p (HeldAt p r.media_codec) (HeldAt-jni p r.media_codec) _
          (call_void_method-Preserves p (HeldAt p r.media_codec) (HeldAt-jni p r.media_codec)
            r.java_object "mediaCodecFormatChanged" "()V" [])
          _ (ground arith);
  }
  handle_output-Quiet (negsuc (suc (suc n))) r z = Quiet-refl p r

  make_surface-Quiet :
      (display config context : ℤ) (r : Runtime)
      → Quiet p r (make_surface display config context p r).1
  unfolding make_surface
  make_surface-Quiet display config context r = ground arith

  make_context-Quiet :
      (display config : ℤ) (r : Runtime) → Quiet p r (make_context display config p r).1
  unfolding make_context
  make_context-Quiet display config r =
      elim (Bool-cases (is_zero (p.answer r.trace (egl (create_context display config))))) [
        | inl e ↦ rw e (ground arith)
        | inr e ↦ rw e (after p (make_surface-Quiet _ _ _ _) (ground arith))
      ]

  open_display-Quiet : (display : ℤ) (r : Runtime) → Quiet p r (open_display display p r).1
  unfolding open_display
  open_display-Quiet display r =
      elim (Bool-cases (is_zero (p.answer r.trace (egl (initialize_display display))))) [
        | inl e ↦ rw e (ground arith)
        | inr e ↦
            rw e
              (elim (Bool-cases (
                is_zero (
                  p.answer (egl (initialize_display display) ∷ r.trace)
                    (egl (choose_config display))))) [
                      | inl f ↦ rw f (ground arith)
                      | inr f ↦ rw f (after p (make_context-Quiet _ _ _) (ground arith))
                    ])
      ]

  init_egl-Quiet : (r : Runtime) → Quiet p r (init_egl p r).1
  unfolding init_egl
  init_egl-Quiet r = elim (Bool-cases (is_zero (p.answer r.trace (egl get_display)))) [
    | inl e ↦ rw e (ground arith)
    | inr e ↦ rw e (after p (open_display-Quiet _ _) (ground arith))
  ]

  create_oes_texture-Quiet : (r : Runtime) → Quiet p r (create_oes_texture p r).1
  unfolding create_oes_texture
  create_oes_texture-Quiet r = ground arith

  init_renderer-Quiet : (r : Runtime) → Quiet p r (init_renderer p r).1
  unfolding init_renderer init init_shader compile_shader
  init_renderer-Quiet r = ground arith

  pub update_image-Quiet : (r : Runtime) → Quiet p r (update_image p r).1
  unfolding update_image
  update_image-Quiet r = ground arith

  quit-Quiet : (a r : Runtime) → Quiet p a r → Quiet p a (record r { render_quit = false })
  quit-Quiet a r q = record {
    dial = q.dial;
    listener = q.listener;
    surface = q.surface;
    history = q.history;
    decoder = q.decoder;
  }

  pub prepare_screen-Quiet : (r : Runtime) → Quiet p r (prepare_screen p r).1
  unfolding prepare_screen
  prepare_screen-Quiet r = quit-Quiet _ _ (
      after p (init_media_codec-Quiet _)
        (after p (init_renderer-Quiet _) (after p (create_oes_texture-Quiet _) (init_egl-Quiet r))))

  pub output_loop-Quiet : (rounds : ℕ) (r : Runtime) → Quiet p r (output_loop rounds p r).1
  unfolding output_loop
  output_loop-Quiet zero r = Quiet-refl p r
  output_loop-Quiet (suc rounds) r = elim (Bool-cases (at_least r.media_codec_status started)) [
    | inr e ↦ rw e (Quiet-refl p r)
    | inl e ↦ elim (Bool-cases (is_zero r.media_codec)) [
      | inl f ↦ rw (e, f) (Quiet-refl p r)
      | inr f ↦
          rw (e, f)
            (after p (output_loop-Quiet rounds _)
              (after p (handle_output-Quiet _ _ f) (ground arith)))
    ]
  ]
