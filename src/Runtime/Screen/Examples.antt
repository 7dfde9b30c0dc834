-- ===== src/Runtime/Screen/Examples.antt =====
-- The theorems on the video thread at concrete inputs.
use grpc_jni_client.Prelude.{◌≡◌, ◌+◌}
use grpc_jni_client.Platform.Sample.{sample}
use grpc_jni_client.Runtime.Sample.{streaming_runtime}
use grpc_jni_client.Runtime.Screen.{output_loop}
use grpc_jni_client.Runtime.Screen.Outputs.{output_loop_balanced}
use grpc_jni_client.Runtime.Codec.OutputThread.{taken_out, given_back}

output_loop_balanced_example :
    let tr = (output_loop 3 sample streaming_runtime).1.trace in
    taken_out sample tr + given_back streaming_runtime.trace
    ≡ taken_out sample streaming_runtime.trace + given_back tr
output_loop_balanced_example = output_loop_balanced sample 3 streaming_runtime
