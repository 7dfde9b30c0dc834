-- ===== src/Runtime/Screen/Threads/Examples.antt =====
-- The exchange of windows at a concrete run.
use grpc_jni_client.Prelude.{pos, ◌≡◌, refl, true, false, List, [], ◌∷◌}
use grpc_jni_client.Runtime.Screen.Threads.{
  flag_set, acquire, make_surface, clear_flag, release, drawing, null_test, Exchange, lock,
  set_window, set_width, set_height, set_flag, unlock, ExchangeRun, start, by_java, by_video,
  showing,
}
use grpc_jni_client.Runtime.Screen.Threads.Safety.{current_window_shown, torn_size}
use grpc_jni_client.Runtime.Screen.Threads.Alternation.{
  Activity, hands_over, shows, act_all, Shown, act_all-Shown,
}
use grpc_jni_client.Platform.Sample.{sample}
use grpc_jni_client.Jni.{with_env_over}
use grpc_jni_client.Renderer.{draw}
use grpc_jni_client.Runtime.State.{Runtime}
use grpc_jni_client.Runtime.Sample.{streaming_runtime}
use grpc_jni_client.Runtime.Screen.{
  surface_available, hand_over, render_loop, render_frame, update_image, attach_window, draw_frame,
}

-- A frame of window 1 with window 2 handed over before it is drawn.
abbrev handed_over : Exchange
handed_over = record (showing (pos 1)) {
  window = pos 2;
  width = pos 2;
  height = pos 2;
  updated = true;
}

abbrev to_handed_over : ExchangeRun (showing (pos 1)) handed_over
to_handed_over =
    by_java
      (by_java
        (by_java
          (by_java (by_java (by_java start (lock refl refl)) (set_window (pos 2) refl))
            (set_width refl))
          (set_height refl))
        (set_flag refl))
      (unlock refl)

-- The video thread has attached window 2.
abbrev attached : Exchange
attached = record handed_over { updated = false; surface = pos 2; video = null_test }

abbrev to_attached : ExchangeRun (showing (pos 1)) attached
to_attached =
    by_video
      (by_video
        (by_video (by_video (by_video to_handed_over (flag_set refl refl)) (acquire refl refl))
          (make_surface refl))
        (clear_flag refl))
      (release refl)

current_window_shown_example :
    (attached.surface ≡ pos 2) × (attached.width ≡ pos 2) × (attached.height ≡ pos 2)
current_window_shown_example = current_window_shown {w = pos 1} {t = attached} to_attached refl refl

torn_size_example :
    (t : Exchange) × ExchangeRun (showing (pos 1)) t
    × (t.video ≡ drawing)
    × (t.surface ≡ pos 1)
    × (t.draw_width ≡ pos 1)
    × (t.draw_height ≡ pos 2)
torn_size_example = torn_size (pos 1) (pos 2) refl

-- A runtime that shows a window on a platform on which every handle is 7.
abbrev showing_runtime : Runtime
showing_runtime = record streaming_runtime {
  attached_window = pos 7;
  attached_window_width = pos 7;
  attached_window_height = pos 7;
  attached_surface = pos 7;
  attached_window_updated = false;
}

abbrev activities : List Activity
activities = shows 2 ∷ hands_over (pos 5) ∷ shows 3 ∷ []

act_all-Shown_example : Shown sample (act_all activities sample showing_runtime)
unfolding act_all surface_available with_env_over hand_over render_loop render_frame update_image
    draw attach_window draw_frame
act_all-Shown_example =
    act_all-Shown sample activities showing_runtime
      (record { width = ([], refl); height = ([], refl); surface = (pos 0, pos 0, ([], refl)) })
      refl refl
