-- ===== src/Runtime/Screen/Signal/Simulation.antt =====
-- A round of `outputLoop`, run by its thread while the video thread is at the head of a round, as a path of
-- the two threads.
use grpc_jni_client.Prelude.{
  ℕ, zero, suc, ℤ, pos, negsuc, ◌≡◌, refl, sym, ◌∙◌, Bool, true, false, not, ◌&&◌, [], ◌∷◌, is_zero,
  if◌then◌else◌, Bool-cases, inl, inr,
}
use grpc_jni_client.Platform.{
  Platform, Trace, release_output_buffer, dequeue_output_buffer, codec, update_tex_image, window,
}
use grpc_jni_client.Jni.Rules.{with_env-Preserves, call_void_method-Preserves}
use grpc_jni_client.Runtime.State.{Runtime, started}
use grpc_jni_client.Runtime.Codec.{at_least, notify_screen_available}
use grpc_jni_client.Runtime.Screen.{handle_output, output_loop}
use grpc_jni_client.Runtime.Screen.Signal.{
  nobody, dequeuing, round_head, Signal, release_frame, lock, set_flag, unlock, notify_nobody,
  SignalRun, start, by_output, by_video,
}

-- A frame has been released to the surface texture, and the video thread has not asked for it since.
abbrev pub frame_waits : Platform → Trace → Bool
frame_waits p [] = false
frame_waits p (codec (release_output_buffer c i) ∷ tr) =
    if is_zero (p.answer tr (codec (release_output_buffer c i))) then true else frame_waits p tr
frame_waits p (window (update_tex_image s) ∷ tr) = false
frame_waits p (c ∷ tr) = frame_waits p tr

-- The flag is that of the runtime, a frame waits where the history says so, and there is a surface
-- texture to ask for it.
pub record Views (p : Platform) (t : Signal) (r : Runtime) : Type 0 where
  pub flag : t.frame_available ≡ r.frame_available
  pub pending : (t.pending && not t.refused) ≡ frame_waits p r.trace
  pub texture : is_zero r.surface_texture ≡ false

-- Both threads are between two rounds, and the mutex is free.
pub record Rests (t : Signal) : Type 0 where
  pub output : t.output ≡ dequeuing
  pub video : t.video ≡ round_head
  pub mutex : t.mutex ≡ nobody

pub record Returns (p : Platform) (t : Signal) (r : Runtime) : Type 0 where
  pub arrived : Signal
  pub path : SignalRun t arrived
  pub rest : Rests arrived
  pub views : Views p arrived r

SignalRun-trans : {s t u : Signal} → SignalRun s t → SignalRun t u → SignalRun s u
SignalRun-trans a start = a
SignalRun-trans a (by_output b st) = by_output (SignalRun-trans a b) st
SignalRun-trans a (by_video b st) = by_video (SignalRun-trans a b) st

module _ {p : Platform} where
  pub stays : (t : Signal) (r : Runtime) → Rests t → Views p t r → Returns p t r
  stays t r h v = record { arrived = t; path = start; rest = h; views = v }

  pub Returns-trans :
      {t : Signal} {q r : Runtime} (a : Returns p t q) → Returns p a.arrived r → Returns p t r
  Returns-trans a b = record {
    arrived = b.arrived;
    path = SignalRun-trans a.path b.path;
    rest = b.rest;
    views = b.views;
  }

  -- A frame that is released, with its signal.
  signals :
      (t : Signal) (s : Runtime)
      → Rests t
      → is_zero s.surface_texture ≡ false
      → s.frame_available ≡ true
      → frame_waits p s.trace ≡ true
      → Returns p t s
  signals t s h z flag waits = record {
    arrived = _;
    path =
        by_output
          (by_output
            (by_output (by_output (by_output start (release_frame h.output)) (lock refl h.mutex))
              (set_flag refl))
            (unlock refl))
          (notify_nobody refl (λ e. let f = h.video in cc));
    rest = record { output = refl; video = h.video; mutex = refl };
    views = record { flag = sym flag; pending = sym waits; texture = z };
  }

module _ (p : Platform) where
  notify_screen_available-Views :
      (t : Signal) (r : Runtime) → Views p t r → Views p t (notify_screen_available p r).1
  unfolding notify_screen_available
  notify_screen_available-Views t r v = record {
    flag = v.flag;
    pending =
        with_env-Preserves p (λ tr. (t.pending && not t.refused) ≡ frame_waits p tr) (λ c tr e. e) _
          (call_void_method-Preserves p _ (λ c tr e. e) _ _ _ _) r.trace v.pending;
    texture = v.texture;
  }

  handle_output-Returns :
      (index : ℤ) (r : Runtime) (t : Signal)
      → Rests t
      → Views p t r
      → Returns p t (handle_output index p r).1
  unfolding handle_output
  handle_output-Returns (pos n) r t h v =
      let released = codec (release_output_buffer r.media_codec (pos n)) in
      elim (Bool-cases (is_zero (p.answer r.trace released))) [
        | inl z ↦ rw z (signals t _ h v.texture refl (rw z refl))
        | inr z ↦ rw z (
            stays t _ h (record {
              flag = v.flag;
              pending = v.pending ∙ sym (rw z refl);
              texture = v.texture;
            }))
      ]
  handle_output-Returns (negsuc zero) r t h v =
      stays t _ h (record { flag = v.flag; pending = v.pending; texture = v.texture })
  handle_output-Returns (negsuc (suc zero)) r t h v = stays t _ h (
      notify_screen_available-Views t _
        (record { flag = v.flag; pending = v.pending; texture = v.texture }))
  handle_output-Returns (negsuc (suc (suc n))) r t h v = stays t r h v

  -- With a surface texture, any number of rounds of `outputLoop` are a path of the output thread, the
  -- video thread standing still between two rounds.
  pub output_loop-Returns :
      (rounds : ℕ) (r : Runtime) (t : Signal)
      → Rests t
      → Views p t r
      → Returns p t (output_loop rounds p r).1
  unfolding output_loop
  output_loop-Returns zero r t h v = stays t r h v
  output_loop-Returns (suc rounds) r t h v =
      elim (Bool-cases (at_least r.media_codec_status started)) [
        | inr f ↦ rw f (stays t r h v)
        | inl f ↦ elim (Bool-cases (is_zero r.media_codec)) [
          | inl z ↦ rw (f, z) (stays t r h v)
          | inr z ↦
              let call = codec (dequeue_output_buffer r.media_codec 33000) in
              let asked : Runtime = record r { trace = call ∷ r.trace } in
              let one =
                handle_output-Returns (p.answer r.trace call) asked t h
                  (record { flag = v.flag; pending = v.pending; texture = v.texture }) in
              rw (f, z)
                (Returns-trans one (output_loop-Returns rounds _ one.arrived one.rest one.views))
        ]
      ]
