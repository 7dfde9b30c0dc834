-- ===== src/Runtime/Screen/Threads/Alternation.antt =====
-- Calls of `surfaceAvailable` and rounds of `screenLooper` by turns: what the two threads promise, for the
-- functions.
use grpc_jni_client.Prelude.{ℕ, ℤ, ◌≡◌, refl, sym, subst, ◌∙◌, false, List, [], ◌∷◌}
use grpc_jni_client.Platform.{Platform, window_get_width, window_get_height, window}
use grpc_jni_client.Runtime.State.{Runtime}
use grpc_jni_client.Runtime.Screen.{surface_available, render_loop}
use grpc_jni_client.Runtime.Screen.Threads.{Exchange, outside, flag_test, free, showing}
use grpc_jni_client.Runtime.Screen.Threads.Safety.{current_window_shown}
use grpc_jni_client.Runtime.Screen.Threads.Paths.{
  Answered, MadeOf, Views, Returns, rests, Returns-trans,
}
use grpc_jni_client.Runtime.Screen.Threads.Simulation.{surface_available_simulated}
use grpc_jni_client.Runtime.Screen.Threads.Rounds.{render_loop_simulated}

-- What a thread does while the other one stands still.
pub data Activity : Type 0 where
  hands_over : ℤ → Activity
  shows : ℕ → Activity

abbrev pub act : Activity → Platform → Runtime → Runtime
act (hands_over object) p r = (surface_available object p r).1
act (shows rounds) p r = (render_loop rounds p r).1

unfoldable pub act_all : List Activity → Platform → Runtime → Runtime
act_all [] p r = r
act_all (a ∷ rest) p r = act_all rest p (act a p r)

-- The size and the surface of the runtime are those of the native window that it holds.
pub record Shown (p : Platform) (r : Runtime) : Type 0 where
  pub width : Answered p (window (window_get_width r.attached_window)) r.attached_window_width
  pub height : Answered p (window (window_get_height r.attached_window)) r.attached_window_height
  pub surface : MadeOf p r.attached_window r.attached_surface

module _ (p : Platform) where
  act-Returns :
      (a : Activity) (r : Runtime) (t : Exchange)
      → t.java ≡ outside
      → t.video ≡ flag_test
      → t.mutex ≡ free
      → Views p t r
      → Returns p t (act a p r)
  act-Returns (hands_over object) r t e f g v = surface_available_simulated p object r t e g v
  act-Returns (shows rounds) r t e f g v = render_loop_simulated p rounds r t f g v

  -- Any sequence of activities, on any runtime, is a run of the two threads.
  act_all-Returns :
      (activities : List Activity) (r : Runtime) (t : Exchange)
      → t.java ≡ outside
      → t.video ≡ flag_test
      → t.mutex ≡ free
      → Views p t r
      → Returns p t (act_all activities p r)
  unfolding act_all
  act_all-Returns [] r t e f g v = rests t r g v
  act_all-Returns (a ∷ rest) r t e f g v =
      let one = act-Returns a r t e f g v in
      Returns-trans one (
        act_all-Returns rest (act a p r) one.arrived (one.java ∙ e) (one.video ∙ f) one.mutex
          one.views)

  -- From a runtime that shows a window with no other one waiting: after any calls of `surfaceAvailable` and
  -- rounds of `screenLooper`, on whichever answers of the platform, either a window waits to be attached,
  -- or the surface that frames are drawn to, and the width and the height that they are drawn with, are
  -- those that the platform has given for the very window that the runtime holds.
  pub act_all-Shown :
      (activities : List Activity) (r : Runtime)
      → Shown p r
      → r.attached_window_updated ≡ false
      → (act_all activities p r).attached_window_updated ≡ false
      → Shown p (act_all activities p r)
  act_all-Shown activities r before idle e =
      let viewed : Views p (showing r.attached_window) r = record {
        native = refl;
        updated = sym idle;
        width = before.width;
        height = before.height;
        surface = before.surface;
      } in
      let after = act_all-Returns activities r (showing r.attached_window) refl refl refl viewed in
      let (made, wide, high) =
        current_window_shown after.path after.java (after.views.updated ∙ e) in
      let s = act_all activities p r in
      record {
        width =
            subst (λ w. Answered p (window (window_get_width w)) s.attached_window_width)
              (wide ∙ after.views.native) after.views.width;
        height =
            subst (λ w. Answered p (window (window_get_height w)) s.attached_window_height)
              (high ∙ after.views.native) after.views.height;
        surface =
            subst (λ w. MadeOf p w s.attached_surface) (made ∙ after.views.native)
              after.views.surface;
      }
