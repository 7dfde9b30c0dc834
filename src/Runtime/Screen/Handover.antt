-- ===== src/Runtime/Screen/Handover.antt =====
-- A window of the Java side on its way from `surfaceAvailable` to the video thread.
use grpc_jni_client.Prelude.{ℤ, ◌≡◌, true, false, Option, none, some, [], ◌∷◌, is_zero, arith}
use grpc_jni_client.Platform.{
  create_window_surface, egl, window_from_surface, window, jni, get_env, Call, Trace, Platform,
}
use grpc_jni_client.Jni.{with_env_over}
use grpc_jni_client.Runtime.State.{Runtime}
use grpc_jni_client.Runtime.Screen.{surface_available, attach_window}

-- The window for which a surface was made last.
abbrev surfaced_step : Call → Option ℤ → Option ℤ
surfaced_step (egl (create_window_surface _ _ native)) before = some native
surfaced_step _ before = before

abbrev surfaced : Trace → Option ℤ
surfaced [] = none
surfaced (c ∷ tr) = surfaced_step c (surfaced tr)

module _ (p : Platform) (object : ℤ) (r : Runtime) where
  -- On an attached thread and with a Java surface that is not null: after `surfaceAvailable` the next
  -- frame makes a surface for exactly the native window of that Java surface, and a second frame
  -- makes none.
  surface_available-attach_window :
      is_zero (p.answer r.trace (jni get_env)) ≡ true
      → is_zero object ≡ false
      → let handed = (surface_available object p r).1 in
        let drawn = (attach_window p handed).1 in
        (surfaced drawn.trace
          ≡ some (p.answer (jni get_env ∷ r.trace) (window (window_from_surface object))))
        × (attach_window p drawn ≡ (tt, drawn))
  unfolding surface_available with_env_over attach_window
  surface_available-attach_window e z = ground arith

  -- A null Java surface leaves the native window and its size as they were, but has the next frame
  -- make a new surface for that window.
  pub surface_available_null :
      is_zero object ≡ true
      → let handed = (surface_available object p r).1 in
        let drawn = (attach_window p handed).1 in
        (handed.attached_window ≡ r.attached_window)
        × (surfaced drawn.trace ≡ some r.attached_window)
  unfolding surface_available with_env_over attach_window
  surface_available_null z = ground arith
