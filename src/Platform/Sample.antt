-- ===== src/Platform/Sample.antt =====
-- A platform on which all goes well, for the tests: handles are 7, statuses are 0, buffers hold 64
-- bytes, and `GetEnv` knows whether the thread is attached.
use grpc_jni_client.Prelude.{
  ℤ, pos, negsuc, ◌≡◌, refl, Bool, true, false, [], ◌∷◌, arith, if◌then◌else◌,
}
use grpc_jni_client.Platform.{
  get_env, attach_current_thread, detach_current_thread, configure, start, queue_input_buffer,
  get_input_buffer_size, release_output_buffer, update_tex_image, Call, jni, codec, window, Trace,
  Platform,
}
use grpc_jni_client.Jni.Ledger.{Thread, ledger, after_call, GetEnvRule}

abbrev is_attached : Trace → Bool
is_attached [] = false
is_attached (jni attach_current_thread ∷ tr) = true
is_attached (jni detach_current_thread ∷ tr) = false
is_attached (c ∷ tr) = is_attached tr

abbrev sample_answer : Trace → Call → ℤ
sample_answer tr (jni get_env) = if is_attached tr then pos 0 else negsuc 1
sample_answer tr (jni attach_current_thread) = pos 0
sample_answer tr (codec (configure _ _ _ _)) = pos 0
sample_answer tr (codec (start _)) = pos 0
sample_answer tr (codec (queue_input_buffer _ _ _ _ _)) = pos 0
sample_answer tr (codec (release_output_buffer _ _)) = pos 0
sample_answer tr (codec (get_input_buffer_size _ _)) = pos 64
sample_answer tr (window (update_tex_image _)) = pos 0
sample_answer tr _ = pos 7

abbrev pub sample : Platform
sample = record { answer = sample_answer }

abbrev pub detached : Thread
detached = record { attached = false; refs = 0 }

step_rule :
    (c : Call) (tr : Trace) (t : Thread)
    → is_attached tr ≡ t.attached
    → is_attached (c ∷ tr) ≡ (after_call c (sample_answer tr c) t).attached
step_rule (jni attach_current_thread) tr t h = refl
step_rule (jni detach_current_thread) tr t h = refl
step_rule (jni _) tr t h = h
step_rule _ tr t h = h

attached_rule : (tr : Trace) → is_attached tr ≡ (ledger sample detached tr).attached
attached_rule [] = refl
attached_rule (c ∷ tr) = step_rule c tr (ledger sample detached tr) (attached_rule tr)

pub GetEnvRule-sample : GetEnvRule sample detached
GetEnvRule-sample tr = ground (arith, attached_rule tr)
