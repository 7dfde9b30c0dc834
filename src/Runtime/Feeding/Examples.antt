-- ===== src/Runtime/Feeding/Examples.antt =====
-- The theorems on the listener and the stop at concrete inputs.
use grpc_jni_client.Prelude.{ℕ, List, [], ◌∷◌, arith, ◌≡◌, ◌≤◌, ◌+◌, refl, pos, true, is_zero}
use grpc_jni_client.Runtime.State.{started, stopped}
use grpc_jni_client.Runtime.Teardown.{finished}
use grpc_jni_client.Runtime.Feeding.{
  took, asleep, dequeuing, Feed, FeedReach, here, next, fed, decoder, is_started, no_index,
  store_status, has_codec, stop_codec, delete_codec, clear_pointer,
}
use grpc_jni_client.Platform.Sample.{sample}
use grpc_jni_client.Runtime.Sample.{streaming_runtime}
use grpc_jni_client.Runtime.Listener.{receive_frame}
use grpc_jni_client.Runtime.Feeding.Simulation.{Views}
use grpc_jni_client.Runtime.Feeding.Callback.{Runs, receive_frame_simulated}
use grpc_jni_client.Runtime.Feeding.Safety.{copy_after_delete, misuse_after_stop_bounded}

abbrev begun : Feed
begun = fed (pos 7) started

copy_after_delete_example :
    (t : Feed) × FeedReach begun t
    × (t.deleted ≡ true)
    × (is_zero t.media_codec ≡ true)
    × (t.stray ≡ 1)
    × (t.misused ≡ 1)
copy_after_delete_example = copy_after_delete (pos 7) started refl refl

-- A stop that comes between the test of the status and the first call of the decoder.
abbrev over : Feed
over = record begun {
  media_codec = pos 0;
  status = stopped;
  deleted = true;
  feed = dequeuing;
  stop = finished;
}

over-FeedReach : FeedReach begun over
over-FeedReach =
    next
      (next
        (next
          (next
            (next (next (next here (decoder refl refl)) (is_started refl refl)) (store_status refl))
            (has_codec refl refl))
          (stop_codec refl))
        (delete_codec refl))
      (clear_pointer refl)

abbrev late : Feed
late = record over { misused = 1; uses = took ∷ []; feed = asleep }

misuse_after_stop_bounded_example : (1 ≤ 0 + 3) × (0 ≤ 0 + 1)
misuse_after_stop_bounded_example =
    misuse_after_stop_bounded (pos 7) started refl refl {s = over} {t = late} over-FeedReach refl
      (next here (no_index refl))

abbrev key_frame : List ℕ
key_frame = 0 ∷ 0 ∷ 0 ∷ 1 ∷ 101 ∷ []

begun-Views : Views begun streaming_runtime
begun-Views = record { pointer = refl; status = refl; alive = refl; uses = refl }

receive_frame_simulated_example :
    let (ended, r') = receive_frame 2 key_frame sample streaming_runtime in Runs begun 2 ended r'
receive_frame_simulated_example =
    receive_frame_simulated sample key_frame 2 streaming_runtime begun (omega arith) refl
      begun-Views
