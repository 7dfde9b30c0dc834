-- ===== src/Runtime/Restarts/Examples.antt =====
-- The theorems on several streams at concrete inputs.
use grpc_jni_client.Prelude.{pos, refl, [], ◌∷◌}
use grpc_jni_client.Runtime.State.{stopped}
use grpc_jni_client.Runtime.Teardown.{loop_head, null_test, handling}
use grpc_jni_client.Runtime.Restarts.{go_on, no_more_use, this, other, Turns, none_left, one_more}

-- The second thread makes two steps.
abbrev two_turns : Turns (pos 0) stopped 2 (loop_head ∷ handling ∷ []) (loop_head ∷ null_test ∷ [])
two_turns = one_more (other (this no_more_use)) (one_more (other (this (go_on refl))) none_left)
