-- ===== src/Runtime/Screen/Signal/Rounds.antt =====
-- A round of `screenLooper`, run by the video thread while the output thread is between two rounds, as a
-- path of the two threads.
use grpc_jni_client.Prelude.{
  ℕ, zero, suc, ◌≡◌, refl, sym, ap, ◌∙◌, Bool, true, false, not, ◌&&◌, ◌∷◌, is_zero, Bool-cases,
  inl, inr, arith,
}
use grpc_jni_client.Platform.{Platform, wait_frame_ms, os, window, update_tex_image}
use grpc_jni_client.Renderer.{draw}
use grpc_jni_client.Runtime.State.{Runtime}
use grpc_jni_client.Runtime.Screen.{
  update_image, attach_window, draw_frame, render_frame, render_loop,
}
use grpc_jni_client.Runtime.Screen.Loop.{render_loop_goes_on, render_loop_quit}
use grpc_jni_client.Runtime.Screen.Signal.{
  Signal, SignalRun, update_in_vain, nobody, dequeuing, updating, take_lock, available, sleep,
  time_out, go_on_anyway, clear_flag, release, update, start, by_video,
}
use grpc_jni_client.Runtime.Screen.Signal.Simulation.{
  frame_waits, Views, Rests, Returns, stays, Returns-trans,
}

-- The flag and the surface texture are the same.
record Shares (p : Platform) (r s : Runtime) : Type 0 where
  pub flag : s.frame_available ≡ r.frame_available
  pub texture : s.surface_texture ≡ r.surface_texture
  pub quit : s.render_quit ≡ r.render_quit
  pub pending : frame_waits p s.trace ≡ frame_waits p r.trace

module _ (p : Platform) where
  attach_window-Shares : (r : Runtime) → Shares p r (attach_window p r).1
  unfolding attach_window
  attach_window-Shares r = ground arith

  draw_frame-Shares : (r : Runtime) → Shares p r (draw_frame p r).1
  unfolding draw_frame draw
  draw_frame-Shares r = ground arith

  update_image-taken :
      (r : Runtime)
      → is_zero r.surface_texture ≡ false
      → (let s = (update_image p r).1 in
          (s.frame_available ≡ r.frame_available)
          × (s.surface_texture ≡ r.surface_texture)
          × (s.render_quit ≡ r.render_quit)
          × (frame_waits p s.trace ≡ false))
  unfolding update_image
  update_image-taken r z = ground arith

  -- A round clears the flag, and asks for the frame when there is a surface texture.
  render_frame-taken :
      (r : Runtime)
      → is_zero r.surface_texture ≡ false
      → (let s = (render_frame p r).1 in
          (s.frame_available ≡ false)
          × (s.surface_texture ≡ r.surface_texture)
          × (s.render_quit ≡ r.render_quit)
          × (frame_waits p s.trace ≡ false))
  unfolding render_frame
  render_frame-taken r z =
      let cleared : Runtime = record r { frame_available = false } in
      let taken = (update_image p cleared).1 in
      let (a, b, c, d) = update_image-taken cleared z in
      let x = attach_window-Shares taken in
      let y = draw_frame-Shares (attach_window p taken).1 in
      (
        y.flag ∙ x.flag ∙ a,
        y.texture ∙ x.texture ∙ b,
        y.quit ∙ x.quit ∙ c,
        y.pending ∙ x.pending ∙ d,
      )

  and_not-true : (b : Bool) → (b && not true) ≡ false
  and_not-true b = ground arith

  -- What `ASurfaceTexture_updateTexImage` answers decides how a round ends.
  updates :
      (t u : Signal) (s : Runtime)
      → SignalRun t u
      → u.output ≡ dequeuing
      → u.video ≡ updating
      → u.mutex ≡ nobody
      → u.frame_available ≡ false
      → Bool
      → is_zero s.surface_texture ≡ false
      → s.frame_available ≡ false
      → frame_waits p s.trace ≡ false
      → Returns p t s
  updates t u s path e f g h true z flag taken = record {
    arrived = _;
    path = by_video path (update f);
    rest = record { output = e; video = refl; mutex = g };
    views = record { flag = h ∙ sym flag; pending = sym taken; texture = z };
  }
  updates t u s path e f g h false z flag taken = record {
    arrived = _;
    path = by_video path (update_in_vain f);
    rest = record { output = e; video = refl; mutex = g };
    views = record {
      flag = h ∙ sym flag;
      pending = and_not-true u.pending ∙ sym taken;
      texture = z;
    };
  }

  -- The wait ends by the flag, or after 33 ms; what comes after it is the same.
  round :
      (t : Signal) (s : Runtime)
      → Rests t
      → Bool
      → is_zero s.surface_texture ≡ false
      → s.frame_available ≡ false
      → frame_waits p s.trace ≡ false
      → Returns p t s
  round t s h took z flag taken =
      let locked = by_video start (take_lock h.video h.mutex) in
      elim (Bool-cases t.frame_available) [
        | inl e ↦
            let cleared = by_video (by_video locked (available refl e)) (clear_flag refl) in
            updates t _ s (by_video cleared (release refl)) h.output refl refl refl took z flag
              taken
        | inr e ↦
            let slept =
              by_video (by_video (by_video locked (sleep refl e)) (time_out refl))
                (go_on_anyway refl refl) in
            updates t _ s (by_video (by_video slept (clear_flag refl)) (release refl)) h.output refl
              refl refl took z flag taken
      ]

  -- With a surface texture, any number of rounds of `screenLooper` are a path of the video
  -- thread, the output thread standing still between two rounds.
  pub render_loop-Returns :
      (rounds : ℕ) (r : Runtime) (t : Signal)
      → Rests t
      → Views p t r
      → Returns p t (render_loop rounds p r).1
  unfolding render_loop
  render_loop-Returns zero r t h v = stays t r h v
  render_loop-Returns (suc rounds) r t h v = elim (Bool-cases r.render_quit) [
    | inl q ↦ rw (render_loop_quit p rounds r q) (stays t r h v)
    | inr q ↦
        let waited : Runtime = record r { trace = os (wait_frame_ms 33) ∷ r.trace } in
        let took = is_zero (p.answer waited.trace (window (update_tex_image r.surface_texture))) in
        let (a, b, c, d) = render_frame-taken waited v.texture in
        let one = round t (render_frame p waited).1 h took (ap is_zero b ∙ v.texture) a d in
        rw (render_loop_goes_on p rounds r q)
          (Returns-trans one (render_loop-Returns rounds _ one.arrived one.rest one.views))
  ]
