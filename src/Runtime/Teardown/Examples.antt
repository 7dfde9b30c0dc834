-- ===== src/Runtime/Teardown/Examples.antt =====
-- The theorems on the two threads at concrete inputs.
use grpc_jni_client.Prelude.{◌≡◌, refl, pos, true, inl}
use grpc_jni_client.Runtime.State.{started, stopped}
use grpc_jni_client.Runtime.Codec.{at_least}
use grpc_jni_client.Runtime.Teardown.{
  null_test, finished, Threads, Reach, here, next, go_on, streaming, left,
}
use grpc_jni_client.Platform.Sample.{sample}
use grpc_jni_client.Runtime.Sample.{streaming_runtime}
use grpc_jni_client.Runtime.Screen.{output_loop}
use grpc_jni_client.Runtime.Teardown.Simulation.{Views, Runs, output_loop_simulated}
use grpc_jni_client.Runtime.Teardown.Safety.{Quiet, status_never_ends_loop, use_after_delete}

abbrev begun : Threads
begun = streaming (pos 7) started

abbrev went_on : Threads
went_on = record begun { rounds = 1; output = null_test }

went_on-Reach : Reach begun went_on
went_on-Reach = next here (go_on refl refl)

status_never_ends_loop_example : at_least went_on.status started ≡ true
status_never_ends_loop_example =
    status_never_ends_loop (pos 7) started refl refl {t = went_on} went_on-Reach

use_after_delete_example : (t : Threads) × Reach begun t × (t.deleted ≡ true) × (t.misused ≡ true)
use_after_delete_example = use_after_delete (pos 7) started refl refl

abbrev over : Threads
over = record begun { media_codec = pos 0; status = stopped; deleted = true; stop = finished }

abbrev gone : Threads
gone = record over { output = left }

over-Quiet : Quiet over
over-Quiet = record { over = refl; null = refl; outside = inl refl }

begun-Views : Views begun streaming_runtime
begun-Views = record { pointer = refl; status = refl; alive = refl; calls = refl }

output_loop_simulated_example :
    let (ended, r') = output_loop 3 sample streaming_runtime in Runs begun 3 ended r'
output_loop_simulated_example =
    output_loop_simulated sample 3 streaming_runtime begun refl begun-Views
