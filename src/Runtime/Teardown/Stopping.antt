-- ===== src/Runtime/Teardown/Stopping.antt =====
-- `stopMediaCodec`, run by its thread while the other one stands still, as a path of the two threads.
use grpc_jni_client.Prelude.{◌≡◌, refl, ap, ◌∙◌, is_zero, Bool-cases, inl, inr}
use grpc_jni_client.Platform.{Platform}
use grpc_jni_client.Runtime.State.{Runtime}
use grpc_jni_client.Runtime.Codec.{stop_media_codec}
use grpc_jni_client.Runtime.Teardown.{
  entry, finished, Threads, store_status, no_codec, has_codec, stop_codec, delete_codec,
  clear_pointer, Reach, here, next,
}
use grpc_jni_client.Runtime.Teardown.Simulation.{Views}

-- The stop has ended, with the shared members as in the runtime.
record StopsWith (t : Threads) (r : Runtime) : Type 0 where
  pub arrived : Threads
  pub path : Reach t arrived
  pub at : arrived.stop ≡ finished
  pub pointer : arrived.media_codec ≡ r.media_codec
  pub status : arrived.status ≡ r.media_codec_status
  pub output : arrived.output ≡ t.output

-- On any runtime, `stopMediaCodec` as one thread runs it is a path of the stopping thread, the output thread
-- standing still, and leaves the pointer and the status that the function leaves.
stop_media_codec_simulated :
    (p : Platform) (r : Runtime) (t : Threads)
    → t.stop ≡ entry
    → Views t r
    → StopsWith t (stop_media_codec p r).1
unfolding stop_media_codec
stop_media_codec_simulated p r t e v = elim (Bool-cases (is_zero r.media_codec)) [
  | inl z ↦ rw z (record {
    arrived = _;
    path = next (next here (store_status e)) (no_codec refl (ap is_zero v.pointer ∙ z));
    at = refl;
    pointer = v.pointer;
    status = refl;
    output = refl;
  })
  | inr z ↦
      let tested = next (next here (store_status e)) (has_codec refl (ap is_zero v.pointer ∙ z)) in
      rw z (record {
        arrived = _;
        path = next (next (next tested (stop_codec refl)) (delete_codec refl)) (clear_pointer refl);
        at = refl;
        pointer = refl;
        status = refl;
        output = refl;
      })
]
