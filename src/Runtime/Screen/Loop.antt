-- ===== src/Runtime/Screen/Loop.antt =====
-- One round of the loop of `screenLooper`.
use grpc_jni_client.Prelude.{ℕ, suc, ◌≡◌, refl, true, false, ◌∷◌}
use grpc_jni_client.Platform.{Platform, returned, wait_frame_ms, os}
use grpc_jni_client.Runtime.State.{Runtime}
use grpc_jni_client.Runtime.Screen.{render_frame, render_loop}

module _ (p : Platform) where
  -- While nobody asks it to quit, the loop waits, shows a frame and goes on.
  pub render_loop_goes_on :
      (rounds : ℕ) (r : Runtime)
      → r.render_quit ≡ false
      → let waited = record r { trace = os (wait_frame_ms 33) ∷ r.trace } in
        render_loop (suc rounds) p r ≡ render_loop rounds p (render_frame p waited).1
  unfolding render_loop
  render_loop_goes_on rounds r q = simp q

  pub render_loop_quit :
      (rounds : ℕ) (r : Runtime)
      → r.render_quit ≡ true
      → render_loop (suc rounds) p r ≡ (returned tt, r)
  unfolding render_loop
  render_loop_quit rounds r q = rw q refl
