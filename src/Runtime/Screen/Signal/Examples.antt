-- ===== src/Runtime/Screen/Signal/Examples.antt =====
-- The signal of a frame at a concrete run.
use grpc_jni_client.Prelude.{◌≡◌, refl, true, false, not, ◌&&◌, List, [], ◌∷◌}
use grpc_jni_client.Runtime.Screen.Signal.{
  sleeping, Signal, release_frame, lock, set_flag, unlock, notify, take_lock, sleep, test_again,
  available, clear_flag, release, update, SignalRun, start, by_output, by_video, quiet,
}
use grpc_jni_client.Runtime.Screen.Signal.Safety.{no_lost_wakeup}
use grpc_jni_client.Runtime.Screen.Signal.Alternation.{
  Rounds, of_output, of_video, run_all, run_all-announced,
}
use grpc_jni_client.Platform.Sample.{sample}
use grpc_jni_client.Renderer.{draw}
use grpc_jni_client.Runtime.Sample.{streaming_runtime}
use grpc_jni_client.Runtime.Screen.{
  update_image, attach_window, draw_frame, render_frame, render_loop, handle_output, output_loop,
}

-- The video thread sleeps, is told of a frame, takes it, and sleeps again.
abbrev asleep : Signal
asleep = record quiet { video = sleeping }

abbrev fall_asleep : SignalRun quiet asleep
fall_asleep = by_video (by_video start (take_lock refl refl)) (sleep refl refl)

abbrev one_frame : SignalRun quiet asleep
one_frame =
    let told =
      by_output
        (by_output
          (by_output (by_output (by_output fall_asleep (release_frame refl)) (lock refl refl))
            (set_flag refl))
          (unlock refl))
        (notify refl refl) in
    let taken =
      by_video
        (by_video
          (by_video (by_video (by_video told (test_again refl refl)) (available refl refl))
            (clear_flag refl))
          (release refl))
        (update refl) in
    by_video (by_video taken (take_lock refl refl)) (sleep refl refl)

no_lost_wakeup_example :
    (asleep.frame_available ≡ false) × ((asleep.pending && not asleep.refused) ≡ false)
no_lost_wakeup_example = no_lost_wakeup {t = asleep} one_frame refl refl

-- A round of the video thread, and a buffer that the decoder gives back.
abbrev rounds : List Rounds
rounds = of_video 1 ∷ of_output 1 ∷ []

run_all-announced_example : (run_all rounds sample streaming_runtime).frame_available ≡ true
unfolding run_all render_loop render_frame update_image attach_window draw_frame draw output_loop
    handle_output
run_all-announced_example = run_all-announced sample rounds streaming_runtime refl refl refl refl
