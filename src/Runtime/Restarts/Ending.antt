-- ===== src/Runtime/Restarts/Ending.antt =====
-- When the output threads end, and how many there can be.
use grpc_jni_client.Prelude.{ℕ, ◌+◌, ◌≡◌, ◌⊎◌, List, [], ◌∷◌}
use grpc_jni_client.Runtime.Teardown.{OutputPc, loop_head, null_test, dequeuing, handling, left}

-- How many steps a thread has left once there is no decoder.
abbrev steps_left : OutputPc → ℕ
steps_left dequeuing = 0
steps_left handling = 3
steps_left loop_head = 2
steps_left null_test = 1
steps_left left = 0

abbrev all_steps_left : List OutputPc → ℕ
all_steps_left [] = 0
all_steps_left (x ∷ xs) = steps_left x + all_steps_left xs

-- Each thread has left its loop, or its next act is a call of the decoder through the null pointer.
abbrev pub AllOver : List OutputPc → Type 0
AllOver [] = Unit
AllOver (x ∷ xs) = ((x ≡ left) ⊎ (x ≡ dequeuing)) × AllOver xs
