-- ===== src/Runtime/System/Stages.antt =====
-- The stages of a frame: what the callback of the video stream, the output thread and the video thread
-- each do where the decoder keeps up and a window is attached.
use grpc_jni_client.Prelude.{
  Bool, ℕ, ℤ, pos, ◌≤◌, ◌≡◌, refl, List, ◌∷◌, true, false, is_zero, is_nonneg, pos_part, length,
  arith,
}
use grpc_jni_client.Platform.{
  Platform, Trace, returned, looping, dequeue_input_buffer, get_input_buffer, get_input_buffer_size,
  write_input_buffer, CodecCall, codec, dequeue_output_buffer, release_output_buffer, notify_frame,
  wait_frame_ms, os, update_tex_image, get_transform_matrix, window, swap_buffers, egl,
}
use grpc_jni_client.Renderer.Drawing.{draw_calls, draw_makes_calls}
use grpc_jni_client.Runtime.State.{Runtime, started, status_code}
use grpc_jni_client.Runtime.Codec.{queue_input_buffer, at_least}
use grpc_jni_client.Runtime.Codec.Input.{taken_index, taken_buffer, queue_input_buffer_frame}
use grpc_jni_client.Runtime.Listener.{receive_frame, retry}
use grpc_jni_client.Runtime.Screen.{
  output_loop, handle_output, update_image, attach_window, draw_frame,
}

-- What a decoder and a surface texture that keep up do: there is an input buffer for the frame, the
-- queued frame comes out as one output buffer, and its image can be taken. `slot` is that buffer.
pub record KeepsUp (p : Platform) (bytes : List ℕ) (slot : ℕ) : Type 0 where
  pub has_index :
      (m : ℤ) (tr : Trace) → is_nonneg (p.answer tr (codec (dequeue_input_buffer m 33000))) ≡ true
  pub has_buffer :
      (m i : ℤ) (tr : Trace) → is_zero (p.answer tr (codec (get_input_buffer m i))) ≡ false
  pub has_room :
      (m i : ℤ) (tr : Trace)
      → length bytes ≤ pos_part (p.answer tr (codec (get_input_buffer_size m i)))
  pub takes_frame :
      (m i : ℤ) (n pts flags : ℕ) (tr : Trace)
      → is_zero (p.answer tr (codec (CodecCall.queue_input_buffer m i n pts flags))) ≡ true
  pub gives_frame :
      (m : ℤ) (tr : Trace) → p.answer tr (codec (dequeue_output_buffer m 33000)) ≡ pos slot
  pub releases :
      (m i : ℤ) (tr : Trace) → is_zero (p.answer tr (codec (release_output_buffer m i))) ≡ true
  pub has_image : (t : ℤ) (tr : Trace) → is_zero (p.answer tr (window (update_tex_image t))) ≡ true

-- A decoder, a surface texture, a GL program and an attached window with a surface, as `initMediaCodec`,
-- `init` and `attach_window` leave them.
pub record Showing (r : Runtime) : Type 0 where
  pub decoder : is_zero r.media_codec ≡ false
  pub running : status_code started ≤ status_code r.media_codec_status
  pub texture : is_zero r.surface_texture ≡ false
  pub native : is_zero r.attached_window ≡ false
  pub attached : r.attached_window_updated ≡ false
  pub going : r.render_quit ≡ false
  pub program : is_zero r.oes_renderer.program ≡ false
  pub surface : is_zero r.attached_surface ≡ false

pub still-Showing :
    {r : Runtime}
    → Showing r
    → (b : Bool) (tr : Trace) → Showing (record r { frame_available = b; trace = tr })
still-Showing s b tr = record {
  decoder = s.decoder;
  running = s.running;
  texture = s.texture;
  native = s.native;
  attached = s.attached;
  going = s.going;
  program = s.program;
  surface = s.surface;
}

-- The calls up to the queued frame.
abbrev pub queued_trace : Platform → Runtime → List ℕ → Trace
queued_trace p r bytes =
    codec (CodecCall.queue_input_buffer r.media_codec (taken_index p r) (length bytes) 0 0)
    ∷ codec (write_input_buffer (taken_buffer p r) bytes)
    ∷ codec (get_input_buffer_size r.media_codec (taken_index p r))
    ∷ codec (get_input_buffer r.media_codec (taken_index p r))
    ∷ codec (dequeue_input_buffer r.media_codec 33000)
    ∷ r.trace

-- The calls up to the image of the frame.
abbrev pub decoded : Platform → Runtime → List ℕ → ℕ → Trace
decoded p r bytes slot =
    window (get_transform_matrix r.surface_texture)
    ∷ window (update_tex_image r.surface_texture)
    ∷ os (wait_frame_ms 33)
    ∷ os notify_frame
    ∷ codec (release_output_buffer r.media_codec (pos slot))
    ∷ codec (dequeue_output_buffer r.media_codec 33000)
    ∷ queued_trace p r bytes

module _ (p : Platform) (bytes : List ℕ) (slot : ℕ) (k : KeepsUp p bytes slot) where
  pub accepted : (r : Runtime) → Showing r → (queue_input_buffer bytes 0 0 p r).0 ≡ true
  unfolding queue_input_buffer
  accepted r s =
      let index = taken_index p r in
      let first = codec (dequeue_input_buffer r.media_codec 33000) ∷ r.trace in
      let second = codec (get_input_buffer r.media_codec index) ∷ first in
      let third = codec (get_input_buffer_size r.media_codec index) ∷ second in
      let fourth = codec (write_input_buffer (taken_buffer p r) bytes) ∷ third in
      ground (
        arith,
        s,
        k.has_index r.media_codec r.trace,
        k.has_buffer r.media_codec index first,
        k.has_room r.media_codec index second,
        k.takes_frame r.media_codec index (length bytes) 0 0 fourth,
      )

  pub received :
      (r : Runtime)
      → Showing r
      → 5 ≤ length bytes
      → receive_frame 1 bytes p r
        ≡ (returned tt, record r { trace = (queue_input_buffer bytes 0 0 p r).1.trace })
  unfolding receive_frame retry
  received r s long = ground (arith, accepted r s, queue_input_buffer_frame p r bytes 0 0)

  pub put_out :
      (r : Runtime)
      → Showing r
      → output_loop 1 p r ≡ (
        looping,
        record r {
          frame_available = true;
          trace =
              os notify_frame
              ∷ codec (release_output_buffer r.media_codec (pos slot))
              ∷ codec (dequeue_output_buffer r.media_codec 33000)
              ∷ r.trace;
        },
      )
  unfolding output_loop handle_output
  put_out r s =
      let on : at_least r.media_codec_status started ≡ true = ground (arith, s) in
      let first = codec (dequeue_output_buffer r.media_codec 33000) ∷ r.trace in
      rw
        (
          on,
          s.decoder,
          k.gives_frame r.media_codec r.trace,
          k.releases r.media_codec (pos slot) first,
        )
        refl

  pub imaged :
      (r : Runtime)
      → is_zero r.surface_texture ≡ false
      → update_image p r ≡ (
        tt,
        record r {
          trace =
              window (get_transform_matrix r.surface_texture)
              ∷ window (update_tex_image r.surface_texture)
              ∷ r.trace;
        },
      )
  unfolding update_image
  imaged r z = rw (z, k.has_image r.surface_texture r.trace) refl

  pub nothing_attached :
      (r : Runtime) → r.attached_window_updated ≡ false → attach_window p r ≡ (tt, r)
  unfolding attach_window
  nothing_attached r z = ground arith

  pub shown :
      (r : Runtime)
      → is_zero r.attached_window ≡ false
      → is_zero r.oes_renderer.program ≡ false
      → draw_frame p r ≡ (
        tt,
        record r {
          trace =
              egl (swap_buffers r.display r.attached_surface)
              ∷ draw_calls r.oes_renderer r.oes_texture r.attached_window_width
                  r.attached_window_height r.trace;
        },
      )
  unfolding draw_frame
  shown r z y =
      rw
        (
          z,
          draw_makes_calls r.oes_renderer r.oes_texture r.attached_window_width
              r.attached_window_height p r.trace y,
        )
        refl
