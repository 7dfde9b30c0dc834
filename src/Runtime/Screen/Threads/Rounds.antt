-- ===== src/Runtime/Screen/Threads/Rounds.antt =====
-- A round of `screenLooper`, run by the video thread while the Java side stands still, as a path of the two
-- threads.
use grpc_jni_client.Prelude.{
  ℕ, zero, suc, ◌≡◌, refl, sym, subst, ◌∙◌, true, false, ◌∷◌, is_zero, Bool-cases, inl, inr,
}
use grpc_jni_client.Platform.{
  Platform, window_get_width, window_get_height, window, update_tex_image, wait_frame_ms, os,
}
use grpc_jni_client.Runtime.State.{Runtime}
use grpc_jni_client.Runtime.Screen.{
  update_image, attach_window, draw_frame, render_frame, render_loop,
}
use grpc_jni_client.Runtime.Screen.Loop.{render_loop_goes_on, render_loop_quit}
use grpc_jni_client.Runtime.Screen.Threads.{
  free, flag_test, null_test, Exchange, flag_set, flag_clear, acquire, make_surface, clear_flag,
  release, no_window, has_window, read_width, read_height, draw_and_swap, ExchangeRun, start,
  by_video,
}
use grpc_jni_client.Runtime.Screen.Threads.Paths.{
  Answered, MadeOf, Views, Returns, Shares, shares, Shares-Views, Views-moved, rests, Returns-trans,
}

module _ (p : Platform) where
  update_image-Shares :
      (r : Runtime) → Shares r (update_image p (record r { frame_available = false })).1
  unfolding update_image
  update_image-Shares r = elim (Bool-cases (is_zero r.surface_texture)) [
    | inl z ↦ rw z (shares r _ _)
    | inr z ↦
        elim (Bool-cases
          (is_zero (p.answer r.trace (window (update_tex_image r.surface_texture))))) [
            | inl e ↦ rw (z, e) (shares r _ _)
            | inr e ↦ rw (z, e) (shares r _ _)
          ]
  ]

  draw_frame-Shares : (r : Runtime) → Shares r (draw_frame p r).1
  unfolding draw_frame
  draw_frame-Shares r = elim (Bool-cases (is_zero r.attached_window)) [
    | inl z ↦ rw z (shares r _ _)
    | inr z ↦ rw z (shares r _ _)
  ]

  -- From the test of the window on.
  draws :
      (t u : Exchange) (r : Runtime)
      → t.video ≡ flag_test
      → u.java ≡ t.java
      → u.mutex ≡ free
      → ExchangeRun t u
      → u.video ≡ null_test
      → Views p u r
      → Returns p t (draw_frame p r).1
  draws t u r at stays f path e v = elim (Bool-cases (is_zero u.window)) [
    | inl z ↦ record {
      arrived = _;
      path = by_video path (no_window e z);
      mutex = f;
      java = stays;
      video = sym at;
      views = Shares-Views (draw_frame-Shares r) (Views-moved flag_test _ _ v);
    }
    | inr z ↦ record {
      arrived = _;
      path =
          by_video
            (by_video (by_video (by_video path (has_window e z)) (read_width refl))
              (read_height refl))
            (draw_and_swap refl);
      mutex = f;
      java = stays;
      video = sym at;
      views = Shares-Views (draw_frame-Shares r) (Views-moved flag_test _ _ v);
    }
  ]

  -- A window that waits replaces the surface.
  attach_window-waiting :
      (r : Runtime)
      → r.attached_window_updated ≡ true
      → (let s = (attach_window p r).1 in
          (s.attached_window ≡ r.attached_window)
          × (s.attached_window_width ≡ r.attached_window_width)
          × (s.attached_window_height ≡ r.attached_window_height)
          × (s.attached_window_updated ≡ false)
          × MadeOf p r.attached_window s.attached_surface)
  unfolding attach_window
  attach_window-waiting r z = elim (Bool-cases (is_zero r.attached_surface)) [
    | inl y ↦ rw (z, y) (refl, refl, refl, refl, (_, _, (_, refl)))
    | inr y ↦ rw (z, y) (refl, refl, refl, refl, (_, _, (_, refl)))
  ]

  attach_window-settled :
      (r : Runtime) → r.attached_window_updated ≡ false → attach_window p r ≡ (tt, r)
  unfolding attach_window
  attach_window-settled r z = rw z refl

  attach_and_draw_simulated :
      (r : Runtime) (t : Exchange)
      → t.video ≡ flag_test
      → t.mutex ≡ free
      → Views p t r
      → Returns p t (draw_frame p (attach_window p r).1).1
  attach_and_draw_simulated r t e f v = elim (Bool-cases r.attached_window_updated) [
    | inl z ↦
        let (a, b, c, d, made) = attach_window-waiting r z in
        let locked = by_video (by_video start (flag_set e (v.updated ∙ z))) (acquire refl f) in
        let path =
          by_video (by_video (by_video locked (make_surface refl)) (clear_flag refl))
            (release refl) in
        draws t _ (attach_window p r).1 e refl refl path refl (record {
          native = v.native ∙ sym a;
          updated = sym d;
          width = subst (Answered p (window (window_get_width t.width))) (sym b) v.width;
          height = subst (Answered p (window (window_get_height t.height))) (sym c) v.height;
          surface =
              subst (λ w. MadeOf p w (attach_window p r).1.attached_surface) (sym v.native) made;
        })
    | inr z ↦ rw (attach_window-settled r z) (
        draws t _ r e refl f (by_video start (flag_clear e (v.updated ∙ z))) refl
          (Views-moved null_test _ _ v))
  ]

  -- On any runtime, a round of `screenLooper` after its wait is a path of the video thread, the Java side
  -- standing still.
  render_frame_simulated :
      (r : Runtime) (t : Exchange)
      → t.video ≡ flag_test
      → t.mutex ≡ free
      → Views p t r
      → Returns p t (render_frame p r).1
  unfolding render_frame
  render_frame_simulated r t e f v =
      attach_and_draw_simulated _ t e f (Shares-Views (update_image-Shares r) v)

  -- On any runtime, any number of rounds of the loop of `screenLooper` are a path of the video thread, the
  -- Java side standing still: it reads and writes what the step relation says, in that order, and comes
  -- back to the head of a round.
  pub render_loop_simulated :
      (rounds : ℕ) (r : Runtime) (t : Exchange)
      → t.video ≡ flag_test
      → t.mutex ≡ free
      → Views p t r
      → Returns p t (render_loop rounds p r).1
  unfolding render_loop
  render_loop_simulated zero r t e f v = rests t r f v
  render_loop_simulated (suc rounds) r t e f v =
      let waited : Runtime = record r { trace = os (wait_frame_ms 33) ∷ r.trace } in
      elim (Bool-cases r.render_quit) [
        | inl q ↦ rw (render_loop_quit p rounds r q) (rests t r f v)
        | inr q ↦
            let round =
              render_frame_simulated waited t e f
                (Shares-Views (shares r r.frame_available (os (wait_frame_ms 33) ∷ r.trace)) v) in
            rw (render_loop_goes_on p rounds r q) (
              Returns-trans round (
                render_loop_simulated rounds _ round.arrived (round.video ∙ e) round.mutex
                  round.views))
      ]
