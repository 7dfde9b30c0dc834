-- ===== src/Runtime/Screen/Threads/Simulation.antt =====
-- `surfaceAvailable` and a round of `screenLooper`, each run by its thread while the other one stands still,
-- as paths of the two threads.
use grpc_jni_client.Prelude.{
  ℤ, ◌≡◌, ◌⊎◌, refl, sym, subst, ◌∙◌, true, is_zero, Bool-cases, inl, inr, ◌∷◌,
}
use grpc_jni_client.Platform.{
  Platform, Trace, window_get_width, window_get_height, window, jni, get_env, attach_current_thread,
}
use grpc_jni_client.Jni.{with_env_over}
use grpc_jni_client.Runtime.State.{Runtime}
use grpc_jni_client.Runtime.Screen.{hand_over, surface_available}
use grpc_jni_client.Runtime.Screen.Threads.{
  free, outside, Exchange, lock, no_surface, set_window, set_width, set_height, set_flag, unlock,
  start, by_java,
}
use grpc_jni_client.Runtime.Screen.Threads.Paths.{Answered, MadeOf, Views, Returns}

-- The flag is set, and the window with its size either is as it was, or is a new one with its own size.
record Offers (p : Platform) (r s : Runtime) : Type 0 where
  pub updated : s.attached_window_updated ≡ true
  pub surface : s.attached_surface ≡ r.attached_surface
  pub offered :
      ((s.attached_window ≡ r.attached_window)
        × (s.attached_window_width ≡ r.attached_window_width)
        × (s.attached_window_height ≡ r.attached_window_height))
      ⊎ (Answered p (window (window_get_width s.attached_window)) s.attached_window_width
          × Answered p (window (window_get_height s.attached_window)) s.attached_window_height)

module _ (p : Platform) where
  hand_over-Offers :
      (object : ℤ) (r : Runtime) (before after : Trace)
      → Offers p r (record (hand_over object p (record r { trace = before })).1 {
        attached_window_updated = true;
        trace = after;
      })
  unfolding hand_over
  hand_over-Offers object r before after = elim (Bool-cases (is_zero object)) [
    | inl z ↦ rw z (record { updated = refl; surface = refl; offered = inl (refl, refl, refl) })
    | inr z ↦ rw z (record { updated = refl; surface = refl; offered = inr ((_, refl), (_, refl)) })
  ]

  surface_available-Offers :
      (object : ℤ) (r : Runtime) → Offers p r (surface_available object p r).1
  unfolding surface_available with_env_over
  surface_available-Offers object r =
      let asked = jni get_env ∷ r.trace in
      elim (Bool-cases (is_zero (p.answer r.trace (jni get_env)))) [
        | inl e ↦ rw e (hand_over-Offers object r asked _)
        | inr e ↦ elim (Bool-cases (is_zero (p.answer asked (jni attach_current_thread)))) [
          | inl f ↦ rw (e, f) (hand_over-Offers object r (jni attach_current_thread ∷ asked) _)
          | inr f ↦
              rw (e, f)
                (record { updated = refl; surface = refl; offered = inl (refl, refl, refl) })
        ]
      ]

  -- On any runtime, `surfaceAvailable` as one thread runs it is a path of the Java side.
  pub surface_available_simulated :
      (object : ℤ) (r : Runtime) (t : Exchange)
      → t.java ≡ outside
      → t.mutex ≡ free
      → Views p t r
      → Returns p t (surface_available object p r).1
  surface_available_simulated object r t e f v =
      let begun = by_java start (lock e f) in
      let o = surface_available-Offers object r in
      elim o.offered [
        | inl (a, b, c) ↦ record {
          arrived = _;
          path = by_java (by_java (by_java begun (no_surface refl)) (set_flag refl)) (unlock refl);
          mutex = refl;
          java = sym e;
          video = refl;
          views = record {
            native = v.native ∙ sym a;
            updated = sym o.updated;
            width = subst (Answered p _) (sym b) v.width;
            height = subst (Answered p _) (sym c) v.height;
            surface = subst (MadeOf p t.surface) (sym o.surface) v.surface;
          };
        }
        | inr (x, y) ↦
            let sized = by_java (by_java begun (set_window _ refl)) (set_width refl) in
            record {
              arrived = _;
              path =
                  by_java (by_java (by_java sized (set_height refl)) (set_flag refl)) (unlock refl);
              mutex = refl;
              java = sym e;
              video = refl;
              views = record {
                native = refl;
                updated = sym o.updated;
                width = x;
                height = y;
                surface = subst (MadeOf p t.surface) (sym o.surface) v.surface;
              };
            }
      ]
