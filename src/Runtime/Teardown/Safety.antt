-- ===== src/Runtime/Teardown/Safety.antt =====
-- How the output thread ends, and when it touches a decoder that is gone.
use grpc_jni_client.Prelude.{ℤ, ◌≡◌, ◌⊎◌, refl, true, false, is_zero, arith, ◌∙◌}
use grpc_jni_client.Runtime.State.{MediaCodecStatus, started}
use grpc_jni_client.Runtime.Codec.{at_least}
use grpc_jni_client.Runtime.Teardown.{
  loop_head, null_test, left, clearing, finished, Threads, Step, go_on, status_out, null_out,
  not_null, dequeue, use_again, no_more_use, store_status, no_codec, has_codec, stop_codec,
  delete_codec, clear_pointer, Reach, here, next, streaming,
}

-- The decoder is live until the stopping thread deletes it, and the pointer is cleared at the end.
record Inv (t : Threads) : Type 0 where
  pub counted : at_least t.status started ≡ true
  pub live : t.deleted ≡ true → (t.stop ≡ clearing) ⊎ (t.stop ≡ finished)
  pub held : is_zero t.media_codec ≡ true → t.stop ≡ finished
  pub cleared : t.stop ≡ finished → is_zero t.media_codec ≡ true
  pub clean : t.misused ≡ true → (t.stop ≡ clearing) ⊎ (t.stop ≡ finished)

Step-Inv : {t u : Threads} → Step t u → Inv t → Inv u
Step-Inv (go_on a b) v = ground arith
Step-Inv (status_out a b) v = ground arith
Step-Inv (null_out a b) v = ground arith
Step-Inv (not_null a b) v = ground arith
Step-Inv (dequeue a) v = ground arith
Step-Inv (use_again a) v = ground arith
Step-Inv (no_more_use a) v = ground arith
Step-Inv (store_status a) v = ground arith
Step-Inv (no_codec a b) v = ground arith
Step-Inv (has_codec a b) v = ground arith
Step-Inv (stop_codec a) v = ground arith
Step-Inv (delete_codec a) v = ground arith
Step-Inv (clear_pointer a) v = ground arith

Reach-Inv : {s t : Threads} → Inv s → Reach s t → Inv t
Reach-Inv v here = v
Reach-Inv v (next r st) = Step-Inv st (Reach-Inv v r)

module _ (media_codec : ℤ) (status : MediaCodecStatus)
    (some_codec : is_zero media_codec ≡ false) where
  streaming-Inv : at_least status started ≡ true → Inv (streaming media_codec status)
  streaming-Inv h = record {
    counted = h;
    live = λ e. cc;
    held = λ e. cc;
    cleared = λ e. cc;
    clean = λ e. cc;
  }

  -- From a decoder that exists, with a status of at least `STARTED`, and whatever the two threads
  -- do: the status still compares as at least `STARTED`, after the stop too, so that the test of
  -- the status never ends the output loop.
  pub status_never_ends_loop :
      at_least status started ≡ true
      → {t : Threads} → Reach (streaming media_codec status) t
      → at_least t.status started ≡ true
  status_never_ends_loop h r = (Reach-Inv (streaming-Inv h) r).counted

  -- From a decoder that exists, with a status of at least `STARTED`, and whatever the two threads
  -- do: no decoder call is misplaced until the stopping thread has deleted the decoder.
  safe_until_delete :
      at_least status started ≡ true
      → {t : Threads} → Reach (streaming media_codec status) t
      → (t.misused ≡ false) ⊎ ((t.stop ≡ clearing) ⊎ (t.stop ≡ finished))
  safe_until_delete h {t} r = ground (arith, Reach-Inv (streaming-Inv h) r)

  -- From a decoder that exists, with a status of at least `STARTED`, the two threads can reach a
  -- state in which the decoder is deleted and has been misused: the output thread passes its null
  -- test, the other thread deletes the decoder, and the output thread calls it.
  pub use_after_delete :
      at_least status started ≡ true
      → (t : Threads) × Reach (streaming media_codec status) t
        × (t.deleted ≡ true)
        × (t.misused ≡ true)
  use_after_delete h = (
    _,
    next
        (next
          (next
            (next
              (next (next (next here (go_on refl h)) (not_null refl some_codec))
                (store_status refl))
              (has_codec refl some_codec))
            (stop_codec refl))
          (delete_codec refl))
        (dequeue refl),
    refl,
    ground arith,
  )

-- The stop is over, and the output thread is outside the stretch from its null test to its last call.
pub record Quiet (t : Threads) : Type 0 where
  pub over : t.stop ≡ finished
  pub null : is_zero t.media_codec ≡ true
  pub outside : (t.output ≡ loop_head) ⊎ ((t.output ≡ null_test) ⊎ (t.output ≡ left))

Step-Quiet : {t u : Threads} → Step t u → Quiet t → Quiet u × (u.misused ≡ t.misused)
Step-Quiet (go_on a b) q = ground arith
Step-Quiet (status_out a b) q = ground arith
Step-Quiet (null_out a b) q = ground arith
Step-Quiet (not_null a b) q = ground arith
Step-Quiet (dequeue a) q = ground arith
Step-Quiet (use_again a) q = ground arith
Step-Quiet (no_more_use a) q = ground arith
Step-Quiet (store_status a) q = ground arith
Step-Quiet (no_codec a b) q = ground arith
Step-Quiet (has_codec a b) q = ground arith
Step-Quiet (stop_codec a) q = ground arith
Step-Quiet (delete_codec a) q = ground arith
Step-Quiet (clear_pointer a) q = ground arith

-- Once the stop is over, an output thread that is at its loop head, at its null test or gone never
-- misuses the decoder again.
pub Reach-Quiet : {s t : Threads} → Quiet s → Reach s t → Quiet t × (t.misused ≡ s.misused)
Reach-Quiet q here = (q, refl)
Reach-Quiet q (next r st) =
    let (q', same) = Reach-Quiet q r in let (q'', same') = Step-Quiet st q' in (q'', same' ∙ same)
