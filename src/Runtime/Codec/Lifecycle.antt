-- ===== src/Runtime/Codec/Lifecycle.antt =====
-- `initMediaCodec` and `stopMediaCodec`, and what a decoder call finds after them.
use grpc_jni_client.Prelude.{
  ℕ, ℤ, suc, ◌≡◌, ◌⊎◌, inl, inr, refl, true, false, List, [], ◌∷◌, is_zero, arith, Bool-cases,
}
use grpc_jni_client.Platform.{
  create_decoder, configure, dequeue_input_buffer, attach_to_gl_context, detach_from_gl_context,
  acquire_native_window, from_surface_texture, window, Call, codec, get_env, JniCall,
  attach_current_thread, jni, Trace, Platform, Io, Action, ask,
}
use grpc_jni_client.Jni.{with_env_over}
use grpc_jni_client.Runtime.State.{Runtime, idle, started, stopped, on_trace}
use grpc_jni_client.Runtime.Codec.{
  create_codec, decode_into, take_texture, attach_texture, init_media_codec, stop_media_codec,
  queue_input_buffer,
}

-- What the platform answers on the way.
abbrev native_answer : Platform → ℤ → Runtime → ℤ
native_answer p texture r =
    p.answer
      (window (attach_to_gl_context texture r.oes_texture)
        ∷ window (detach_from_gl_context texture)
        ∷ r.trace)
      (window (acquire_native_window texture))

abbrev texture_answer : Platform → ℤ → Runtime → ℤ
texture_answer p object r = p.answer r.trace (window (from_surface_texture object))

abbrev pub configure_answer : Platform → Runtime → ℤ
configure_answer p r =
    p.answer (codec (create_decoder "video/avc") ∷ r.trace) (
      codec (configure (p.answer r.trace (codec (create_decoder "video/avc"))) 1872 756 r.g_window))

-- The decoder runs and feeds a window.
pub record Running (r : Runtime) : Type 0 where
  pub begun : r.media_codec_status ≡ started
  pub decoder : is_zero r.media_codec ≡ false
  pub native : is_zero r.g_window ≡ false
  pub texture : is_zero r.surface_texture ≡ false

abbrev IdleOrRunning : Runtime → Type 0
IdleOrRunning r = (r.media_codec_status ≡ idle) ⊎ Running r

create_codec-post :
    (p : Platform) (r : Runtime)
    → r.media_codec_status ≡ idle
    → is_zero r.g_window ≡ false
    → is_zero r.surface_texture ≡ false
    → IdleOrRunning (create_codec p r).1
unfolding create_codec
create_codec-post p r e f g = ground arith

decode_into-post :
    (p : Platform) (texture : ℤ) (r : Runtime)
    → r.media_codec_status ≡ idle
    → is_zero r.surface_texture ≡ false
    → IdleOrRunning (decode_into texture p r).1
unfolding decode_into
decode_into-post p texture r e f = elim (Bool-cases (is_zero (native_answer p texture r))) [
  | inl z ↦ rw z (inl e)
  | inr z ↦ rw z (create_codec-post p _ e z f)
]

take_texture-post :
    (p : Platform) (object : ℤ) (r : Runtime)
    → r.media_codec_status ≡ idle
    → IdleOrRunning (take_texture object p r).1
unfolding take_texture
take_texture-post p object r e = elim (Bool-cases (is_zero object)) [
  | inl z ↦ rw z (inl e)
  | inr z ↦ elim (Bool-cases (is_zero (texture_answer p object r))) [
    | inl y ↦ rw (z, y) (inl e)
    | inr y ↦ rw (z, y) (decode_into-post p _ _ e y)
  ]
]

attach_texture-post :
    (p : Platform) (r : Runtime)
    → r.media_codec_status ≡ idle
    → IdleOrRunning (attach_texture p r).1
unfolding attach_texture
attach_texture-post p r e = take_texture-post p _ _ e

-- A rule for `withEnv`: what holds before and is kept by the attachment calls, and what the function
-- makes of it.
pub with_env_over-post :
    {S : Type 0} (p : Platform) (lift : Action ℤ → Io S ℤ) (fn : Io S (Unit {0}))
    (Pre Post : S → Type 0)
    → ((c : JniCall) (s : S) → Pre s → Pre (lift (ask (jni c)) p s).1)
    → ((c : JniCall) (s : S) → Post s → Post (lift (ask (jni c)) p s).1)
    → ((s : S) → Pre s → Post s)
    → ((s : S) → Pre s → Post (fn p s).1)
    → (s : S) → Pre s
    → Post (with_env_over lift fn p s).1
unfolding with_env_over
with_env_over-post p lift fn Pre Post pre post weaken run s h =
    elim (Bool-cases (is_zero (lift (ask (jni get_env)) p s).0)) [
      | inl z ↦ rw z (run _ (pre _ s h))
      | inr z ↦
          rw z
            (elim (Bool-cases (
              is_zero
                (lift (ask (jni attach_current_thread)) p (lift (ask (jni get_env)) p s).1).0)) [
                  | inl y ↦ rw y (post _ _ (run _ (pre _ _ (pre _ s h))))
                  | inr y ↦ rw y (weaken _ (pre _ _ (pre _ s h)))
                ])
    ]

-- From `IDLE`, `initMediaCodec` leaves either `IDLE`, or `STARTED` with a decoder, a native window and
-- a surface texture; what it returns is false in both cases.
pub init_media_codec-post :
    (p : Platform) (r : Runtime)
    → r.media_codec_status ≡ idle
    → let (ok, r') = init_media_codec p r in
      (ok ≡ false) × ((r'.media_codec_status ≡ idle) ⊎ Running r')
unfolding init_media_codec
init_media_codec-post p r e = (
  refl,
  with_env_over-post p on_trace attach_texture (λ s. s.media_codec_status ≡ idle) IdleOrRunning
      (λ c s h. h)
      (λ c s h. elim h [
        | inl x ↦ inl x
        | inr x ↦ inr (record {
          begun = x.begun;
          decoder = x.decoder;
          native = x.native;
          texture = x.texture;
        })
      ])
      (λ s h. inl h) (attach_texture-post p) r e,
)

-- How often a history asks the decoder for an input buffer, and how often it deletes one.
abbrev pub is_dequeue : Call → ℕ → ℕ
is_dequeue (codec (dequeue_input_buffer _ _)) n = suc n
is_dequeue _ n = n

abbrev pub dequeues : Trace → ℕ
dequeues [] = 0
dequeues (c ∷ tr) = is_dequeue c (dequeues tr)

module _ (p : Platform) (r : Runtime) where
  -- After `stopMediaCodec` there is no decoder, a second stop calls nothing, and every buffer offered
  -- is refused without asking the decoder.
  pub stop_media_codec_final :
      (bytes : List ℕ) (pts flags : ℕ)
      → let r' = (stop_media_codec p r).1 in
        (is_zero r'.media_codec ≡ true)
        × (r'.media_codec_status ≡ stopped)
        × (stop_media_codec p r' ≡ (tt, r'))
        × (queue_input_buffer bytes pts flags p r' ≡ (false, r'))
  unfolding stop_media_codec queue_input_buffer
  stop_media_codec_final bytes pts flags = ground arith

  -- After a stop, a decoder that could be created but not configured is asked for an input buffer
  -- all the same: the status is still `STOPPED`, which passes the test against `STARTED`.
  pub failed_restart_accepts :
      (bytes : List ℕ)
      → r.media_codec_status ≡ stopped
      → is_zero (p.answer r.trace (codec (create_decoder "video/avc"))) ≡ false
      → is_zero (configure_answer p r) ≡ false
      → let r' = (create_codec p r).1 in
        (r'.media_codec_status ≡ stopped)
        × (dequeues (queue_input_buffer bytes 0 0 p r').1.trace ≡ suc (dequeues r'.trace))
  unfolding create_codec queue_input_buffer
  failed_restart_accepts bytes e f g = ground arith
