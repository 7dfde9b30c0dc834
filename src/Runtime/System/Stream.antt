-- ===== src/Runtime/System/Stream.antt =====
-- Any number of frames on their way from the peer to the window.
use mathlib.Core.List.{append_assoc, append-nil}
use grpc_jni_client.Prelude.{
  Bool, true, false, not, ◌&&◌, int_eq, int_eq_refl, is_zero, pos, if◌then◌else◌, ℕ, suc, ℤ, ◌+◌,
  ◌≤◌, ◌≡◌, ◌∙◌, refl, sym, ap, List, [], ◌∷◌, ◌++◌, length, arith,
}
use grpc_jni_client.Platform.{
  Platform, Trace, Call, returned, write_input_buffer, codec, swap_buffers, egl, update_tex_image,
  window, gl, bind_texture, use_program, draw_arrays,
}
use grpc_jni_client.Messages.{Flatbuffers}
use grpc_jni_client.Runtime.State.{Runtime}
use grpc_jni_client.Runtime.System.{Event, video_frame, output_rounds, video_rounds, run}
use grpc_jni_client.Runtime.System.Stages.{KeepsUp, Showing}
use grpc_jni_client.Runtime.System.Pipeline.{after_frame, frame_then}

-- What was written into the decoder, the first frame first, and how often a frame was shown.
abbrev pub payloads : Trace → List (List ℕ)
payloads [] = []
payloads (codec (write_input_buffer _ bytes) ∷ tr) = payloads tr ++ bytes ∷ []
payloads (_ ∷ tr) = payloads tr

-- Between two calls: whether an image has been taken out of the surface texture and not been shown since,
-- whether the external texture `bound` is bound, whether the image has been drawn from it by the program
-- in use, and how many images have been shown after they were drawn.
pub record Film : Type 0 where
  pub taken : Bool
  pub bound : ℤ
  pub program : ℤ
  pub drawn : Bool
  pub images : ℕ

abbrev film_step : ℤ → Call → Film → Film
film_step texture (window (update_tex_image _)) f = record f { taken = true; drawn = false }
film_step texture (gl (bind_texture t)) f = record f { bound = t }
film_step texture (gl (use_program x)) f = record f { program = x }
film_step texture (gl (draw_arrays _)) f = record f {
  drawn = f.taken && int_eq f.bound texture && not (is_zero f.program);
}
film_step texture (egl (swap_buffers _ _)) f = record f {
  taken = false;
  drawn = false;
  images = if f.drawn then suc f.images else f.images;
}
film_step texture _ f = f

abbrev film : ℤ → Trace → Film
film texture [] = record {
  taken = false;
  bound = pos 0;
  program = pos 0;
  drawn = false;
  images = 0;
}
film texture (c ∷ tr) = film_step texture c (film texture tr)

-- How many images were taken, drawn from the given texture, and then shown.
abbrev pub images : ℤ → Trace → ℕ
images texture tr = (film texture tr).images

-- Each frame comes in, and both threads make a round.
abbrev pub stream : List (List ℕ) → List Event
stream [] = []
stream (bytes ∷ frames) = video_frame 1 bytes ∷ output_rounds 1 ∷ video_rounds 1 ∷ stream frames

-- The decoder and the surface texture keep up with each frame.
abbrev pub AllKeepUp : Platform → ℕ → List (List ℕ) → Type 0
AllKeepUp p slot [] = Unit
AllKeepUp p slot (bytes ∷ frames) =
    (5 ≤ length bytes) × KeepsUp p bytes slot × AllKeepUp p slot frames

module _ (p : Platform) (slot : ℕ) where
  after_frame-Showing :
      (bytes : List ℕ) (k : KeepsUp p bytes slot) (r : Runtime)
      → Showing r
      → Showing (after_frame p bytes slot k r)
  after_frame-Showing bytes k r s = record {
    decoder = s.decoder;
    running = s.running;
    texture = s.texture;
    native = s.native;
    attached = s.attached;
    going = s.going;
    program = s.program;
    surface = s.surface;
  }

  after_frame-payloads :
      (bytes : List ℕ) (k : KeepsUp p bytes slot) (r : Runtime)
      → payloads (after_frame p bytes slot k r).trace ≡ payloads r.trace ++ bytes ∷ []
  after_frame-payloads bytes k r = refl

  after_frame-images :
      (bytes : List ℕ) (k : KeepsUp p bytes slot) (r : Runtime)
      → Showing r
      → images r.oes_texture (after_frame p bytes slot k r).trace
        ≡ suc (images r.oes_texture r.trace)
  after_frame-images bytes k r s = rw (int_eq_refl r.oes_texture, s.program) refl

  -- The stream has gone to the screen.
  pub record Streamed (frames : List (List ℕ)) (r r' : Runtime) : Type 0 where
    pub showing : Showing r'
    pub in_order : payloads r'.trace ≡ payloads r.trace ++ frames
    pub texture : r'.oes_texture ≡ r.oes_texture
    pub all_shown : images r.oes_texture r'.trace ≡ images r.oes_texture r.trace + length frames

  -- If the decoder and the surface texture keep up with each frame, there is a GL program, and a window
  -- with a surface is attached: of any sequence of frames of at least five bytes, each followed by a round
  -- of the output thread and one of the video thread, every frame is written into the decoder as it came,
  -- in the order in which they came, and as many images are taken out of the surface texture, drawn from
  -- the external texture by a program and then shown as frames came; after it, a window is attached and
  -- the decoder runs as before.
  pub stream_reaches_screen :
      (fb : Flatbuffers) (frames : List (List ℕ)) (r : Runtime)
      → Showing r
      → AllKeepUp p slot frames
      → let (ended, r') = run fb (stream frames) p r in (ended ≡ returned tt) × Streamed frames r r'
  unfolding run
  stream_reaches_screen fb [] r s v = (
    refl,
    record {
      showing = s;
      in_order = sym (append-nil (payloads r.trace));
      texture = refl;
      all_shown = omega arith;
    },
  )
  stream_reaches_screen fb (bytes ∷ frames) r s (long, k, v) =
      let next = after_frame p bytes slot k r in
      let (ended, streamed) =
        stream_reaches_screen fb frames next (after_frame-Showing bytes k r s) v in
      rw (frame_then p bytes slot k fb (stream frames) r s long) (
        ended,
        record {
          showing = streamed.showing;
          in_order =
              streamed.in_order
              ∙ ap (λ l. l ++ frames) (after_frame-payloads bytes k r)
              ∙ append_assoc (payloads r.trace) (bytes ∷ []) frames;
          texture = streamed.texture;
          all_shown = omega (arith, streamed.all_shown, after_frame-images bytes k r s);
        },
      )
