-- ===== src/Runtime/Codec.antt =====
-- The decoder of CarplayRpcRuntime.cpp: `queueInputBuffer`, `initMediaCodec`, `stopMediaCodec` and
-- one round of `outputLoop`, each as one thread runs it. `Runtime.Teardown` has two threads.
pub mod Input
pub mod Lifecycle
pub mod Live
pub mod Accounts
pub mod Restart
pub mod OutputThread
use grpc_jni_client.Prelude.{
  ℕ, ℤ, pos, negsuc, List, Bool, true, false, is_zero, is_nonneg, pos_part, ltb, ◌||◌, length,
  if◌then◌else◌, [], ◌∷◌,
}
use grpc_jni_client.Platform.{
  create_decoder, configure, stop, delete, dequeue_input_buffer, dequeue_output_buffer,
  get_input_buffer, get_input_buffer_size, write_input_buffer, release_output_buffer,
  get_output_format, CodecCall, codec, notify_frame, sleep_ms, spawn_thread, os,
  get_current_context, egl, from_surface_texture, detach_from_gl_context, attach_to_gl_context,
  acquire_native_window, window_acquire, window, pure, ask, tell, ◌>>=◌, ◌>>◌, gets, modify,
}
use grpc_jni_client.Jni.{with_env, with_env_over, call_static_object_method, call_void_method}
use grpc_jni_client.Runtime.State.{
  MediaCodecStatus, started, stopped, status_code, Runtime, Method, on_trace,
}

abbrev pub at_least : MediaCodecStatus → MediaCodecStatus → Bool
at_least s t = if ltb (status_code s) (status_code t) then false else true

unfoldable pub queue_input_buffer : List ℕ → ℕ → ℕ → Method Bool
queue_input_buffer bytes pts flags = do
  media_codec ← gets (λ r. r.media_codec)
  if is_zero media_codec then pure false else do
    status ← gets (λ r. r.media_codec_status)
    if ltb (status_code status) (status_code started) then pure false else do
      index ← on_trace (ask (codec (dequeue_input_buffer media_codec 33000)))
      if is_nonneg index
          then (do
            buffer ← on_trace (ask (codec (get_input_buffer media_codec index)))
            size ← on_trace (ask (codec (get_input_buffer_size media_codec index)))
            if is_zero buffer || ltb (pos_part size) (length bytes) then pure false else do
              on_trace (tell (codec (write_input_buffer buffer bytes)))
              queued ← on_trace (
                  ask (
                    codec
                      (CodecCall.queue_input_buffer media_codec index (length bytes) pts flags)))
              pure (is_zero queued))
          else pure false

-- What the lambda of `initMediaCodec` returns is dropped, since `withEnv` takes a function that
-- returns nothing.
unfoldable pub create_codec : Method (Unit {0})
create_codec = do
  g_window ← gets (λ r. r.g_window)
  media_codec ← on_trace (ask (codec (create_decoder "video/avc")))
  modify (λ r. record r { media_codec = media_codec })
  if is_zero media_codec then pure tt else do
    configured ← on_trace (ask (codec (configure media_codec 1872 756 g_window)))
    if is_zero configured
        then (do
          begun ← on_trace (ask (codec (CodecCall.start media_codec)))
          if is_zero begun
              then (do
                modify (λ r. record r { media_codec_status = started })
                on_trace (tell (os spawn_thread)))
              else pure tt)
        else pure tt

unfoldable pub decode_into : ℤ → Method (Unit {0})
decode_into texture = do
  oes_texture ← gets (λ r. r.oes_texture)
  on_trace (tell (window (detach_from_gl_context texture)))
  on_trace (tell (window (attach_to_gl_context texture oes_texture)))
  native ← on_trace (ask (window (acquire_native_window texture)))
  modify (λ r. record r { g_window = native })
  if is_zero native
      then pure tt
      else do on_trace (tell (window (window_acquire native))); create_codec

unfoldable pub take_texture : ℤ → Method (Unit {0})
take_texture texture_object = if is_zero texture_object then pure tt else do
  texture ← on_trace (ask (window (from_surface_texture texture_object)))
  modify (λ r. record r { surface_texture = texture })
  if is_zero texture then pure tt else decode_into texture

unfoldable pub attach_texture : Method (Unit {0})
attach_texture = do
  on_trace (tell (egl get_current_context))
  java ← gets (λ r. r.java)
  oes_texture ← gets (λ r. r.oes_texture)
  texture_object ← on_trace (
      call_static_object_method java "com/kotlinx/grpcjniclient/screen/CarplayScreenStub"
        "createOesSurfaceTexture" "(I)Landroid/graphics/SurfaceTexture;" (oes_texture ∷ []))
  take_texture texture_object

unfoldable pub init_media_codec : Method Bool
unfolding attach_texture take_texture decode_into create_codec
init_media_codec = do with_env_over on_trace attach_texture; pure false

unfoldable pub stop_media_codec : Method (Unit {0})
stop_media_codec = do
  modify (λ r. record r { media_codec_status = stopped })
  media_codec ← gets (λ r. r.media_codec)
  if is_zero media_codec then pure tt else do
    on_trace (tell (codec (stop media_codec)))
    on_trace (tell (codec (delete media_codec)))
    modify (λ r. record r { media_codec = pos 0 })

unfoldable pub notify_screen_available : Method (Unit {0})
notify_screen_available = do
  java_object ← gets (λ r. r.java_object)
  on_trace (with_env (call_void_method java_object "mediaCodecFormatChanged" "()V" []))
