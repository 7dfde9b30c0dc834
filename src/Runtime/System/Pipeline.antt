-- ===== src/Runtime/System/Pipeline.antt =====
-- A frame on its way from the peer to the window: the callback of the video stream, the output thread
-- and the video thread after one another.
use grpc_jni_client.Prelude.{
  ℕ, pos, ◌≤◌, ◌≡◌, refl, List, [], ◌∷◌, true, false, length, arith, ◌∙◌, ap,
}
use grpc_jni_client.Platform.{
  Platform, Trace, returned, looping, codec, dequeue_output_buffer, release_output_buffer,
  notify_frame, wait_frame_ms, os, update_tex_image, get_transform_matrix, window, swap_buffers,
  egl,
}
use grpc_jni_client.Messages.{Flatbuffers}
use grpc_jni_client.Renderer.Drawing.{draw_calls}
use grpc_jni_client.Runtime.State.{Runtime}
use grpc_jni_client.Runtime.Codec.Input.{queue_input_buffer_accepted}
use grpc_jni_client.Runtime.Screen.{render_loop, render_frame}
use grpc_jni_client.Runtime.System.{Event, video_frame, output_rounds, video_rounds, step, run}
use grpc_jni_client.Runtime.System.Stages.{
  KeepsUp, Showing, still-Showing, queued_trace, decoded, accepted, received, put_out, imaged,
  nothing_attached, shown,
}

module _ (p : Platform) (bytes : List ℕ) (slot : ℕ) (k : KeepsUp p bytes slot) where
  -- A round of the video thread shows the image.
  abbrev after_round : Runtime → Trace → Runtime
  after_round r tr = record r {
    frame_available = false;
    trace =
        egl (swap_buffers r.display r.attached_surface)
        ∷ draw_calls r.oes_renderer r.oes_texture r.attached_window_width r.attached_window_height (
            window (get_transform_matrix r.surface_texture)
            ∷ window (update_tex_image r.surface_texture)
            ∷ tr);
  }

  framed : (r : Runtime) → Showing r → render_frame p r ≡ (tt, after_round r r.trace)
  unfolding render_frame
  framed r s =
      let begun = record r { frame_available = false } in
      let image = record begun {
        trace =
            window (get_transform_matrix r.surface_texture)
            ∷ window (update_tex_image r.surface_texture)
            ∷ r.trace;
      } in
      rw
        (
          imaged p bytes slot k begun s.texture,
          nothing_attached p bytes slot k image s.attached,
          shown p bytes slot k image s.native s.program,
        )
        refl

  one_round :
      (r : Runtime)
      → r.render_quit ≡ false
      → render_loop 1 p r
        ≡ (looping, (render_frame p (record r { trace = os (wait_frame_ms 33) ∷ r.trace })).1)
  unfolding render_loop
  one_round r z = ground arith

  drawn :
      (r : Runtime)
      → Showing r
      → render_loop 1 p r ≡ (looping, after_round r (os (wait_frame_ms 33) ∷ r.trace))
  drawn r s =
      let tr = os (wait_frame_ms 33) ∷ r.trace in
      one_round r s.going
      ∙ ap (λ (w : Unit {0} × Runtime). (looping, w.1))
          (framed (record r { trace = tr }) (still-Showing s r.frame_available tr))

  -- The runtime after the frame.
  abbrev pub after_frame : Runtime → Runtime
  after_frame r = record r {
    frame_available = false;
    trace =
        egl (swap_buffers r.display r.attached_surface)
        ∷ draw_calls r.oes_renderer r.oes_texture r.attached_window_width r.attached_window_height
            (decoded p r bytes slot);
  }

  pub frame_then :
      (fb : Flatbuffers) (later : List Event) (r : Runtime)
      → Showing r
      → 5 ≤ length bytes
      → run fb (video_frame 1 bytes ∷ output_rounds 1 ∷ video_rounds 1 ∷ later) p r
        ≡ run fb later p (after_frame r)
  unfolding run step
  frame_then fb later r s long =
      let took = queue_input_buffer_accepted p r bytes 0 0 (accepted p bytes slot k r s) in
      let queued = record r { trace = queued_trace p r bytes } in
      let first : Showing queued = still-Showing s r.frame_available queued.trace in
      let output = record queued {
        frame_available = true;
        trace =
            os notify_frame
            ∷ codec (release_output_buffer r.media_codec (pos slot))
            ∷ codec (dequeue_output_buffer r.media_codec 33000)
            ∷ queued.trace;
      } in
      rw
        (
          received p bytes slot k r s long,
          took.2,
          put_out p bytes slot k queued first,
          drawn output (still-Showing s true output.trace),
        )
        refl

  -- If the decoder and the surface texture keep up, there is a GL program, and a window with a surface is
  -- attached: a frame of at least five bytes that the peer pushes is written into the decoder as it came,
  -- and after one round of the output thread and one of the video thread the image that came out is drawn
  -- by the program, from the external texture and with the window's size, and the window's surface is
  -- shown, by exactly these calls in this order.
  pub frame_reaches_screen :
      (fb : Flatbuffers) (r : Runtime)
      → Showing r
      → 5 ≤ length bytes
      → run fb (video_frame 1 bytes ∷ output_rounds 1 ∷ video_rounds 1 ∷ []) p r ≡ (
        returned tt,
        record r {
          frame_available = false;
          trace =
              egl (swap_buffers r.display r.attached_surface)
              ∷ draw_calls r.oes_renderer r.oes_texture r.attached_window_width
                  r.attached_window_height
                  (decoded p r bytes slot);
        },
      )
  unfolding run
  frame_reaches_screen fb r s long = frame_then fb [] r s long
