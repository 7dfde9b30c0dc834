-- ===== src/Runtime/Feeding/Safety.antt =====
-- What the listener's thread does to a decoder that another thread stops.
use grpc_jni_client.Prelude.{
  ℕ, ◌+◌, ◌≤◌, ℤ, ◌≡◌, ◌≢◌, ◌⊎◌, inr, refl, true, false, Bool, is_zero, arith,
}
use grpc_jni_client.Runtime.State.{MediaCodecStatus, started}
use grpc_jni_client.Runtime.Codec.{at_least}
use grpc_jni_client.Runtime.Teardown.{clearing, finished}
use grpc_jni_client.Runtime.Feeding.{
  FeedPc, null_test, status_test, dequeuing, fetching, copying, queueing, asleep, delivered, Feed,
  one_if, FeedStep, no_decoder, decoder, not_started, is_started, no_index, index, no_room, room,
  copy, refused, accepted, wake, next_frame, store_status, no_codec, has_codec, stop_codec,
  delete_codec, clear_pointer, FeedReach, here, next, fed,
}

-- The decoder is live, and nothing is misplaced, until the stopping thread deletes it.
record Inv (t : Feed) : Type 0 where
  pub counted : at_least t.status started ≡ true
  pub live : t.deleted ≡ true → (t.stop ≡ clearing) ⊎ (t.stop ≡ finished)
  pub held : is_zero t.media_codec ≡ true → t.stop ≡ finished
  pub cleared : t.stop ≡ finished → is_zero t.media_codec ≡ true
  pub calls : ((t.stop ≡ clearing) ⊎ (t.stop ≡ finished)) ⊎ (t.misused ≡ 0)
  pub copies : ((t.stop ≡ clearing) ⊎ (t.stop ≡ finished)) ⊎ (t.stray ≡ 0)

FeedStep-Inv : {t u : Feed} → FeedStep t u → Inv t → Inv u
FeedStep-Inv (no_decoder a b) v = ground arith
FeedStep-Inv (decoder a b) v = ground arith
FeedStep-Inv (not_started a b) v = ground arith
FeedStep-Inv (is_started a b) v = ground arith
FeedStep-Inv (no_index a) v = ground arith
FeedStep-Inv (index a) v = ground arith
FeedStep-Inv (no_room a) v = ground arith
FeedStep-Inv (room a) v = ground arith
FeedStep-Inv (copy a) v = ground arith
FeedStep-Inv (refused a) v = ground arith
FeedStep-Inv (accepted a) v = ground arith
FeedStep-Inv (wake a) v = ground arith
FeedStep-Inv (next_frame a) v = ground arith
FeedStep-Inv (store_status a) v = ground arith
FeedStep-Inv (no_codec a b) v = ground arith
FeedStep-Inv (has_codec a b) v = ground arith
FeedStep-Inv (stop_codec a) v = ground arith
FeedStep-Inv (delete_codec a) v = ground arith
FeedStep-Inv (clear_pointer a) v = ground arith

FeedReach-Inv : {s t : Feed} → Inv s → FeedReach s t → Inv t
FeedReach-Inv v here = v
FeedReach-Inv v (next r st) = FeedStep-Inv st (FeedReach-Inv v r)

-- The stop is over.
record Over (t : Feed) : Type 0 where
  pub ended : t.stop ≡ finished
  pub null : is_zero t.media_codec ≡ true

-- How many calls and copies the listener's thread has left before it tests the pointer again.
abbrev calls_left : FeedPc → ℕ
calls_left status_test = 3
calls_left dequeuing = 3
calls_left fetching = 2
calls_left copying = 1
calls_left queueing = 1
calls_left _ = 0

abbrev copies_left : FeedPc → ℕ
copies_left status_test = 1
copies_left dequeuing = 1
copies_left fetching = 1
copies_left copying = 1
copies_left _ = 0

calls_left_bound : (c : FeedPc) → calls_left c ≤ 3
calls_left_bound null_test = omega arith
calls_left_bound status_test = omega arith
calls_left_bound dequeuing = omega arith
calls_left_bound fetching = omega arith
calls_left_bound copying = omega arith
calls_left_bound queueing = omega arith
calls_left_bound asleep = omega arith
calls_left_bound delivered = omega arith

copies_left_bound : (c : FeedPc) → copies_left c ≤ 1
copies_left_bound null_test = omega arith
copies_left_bound status_test = omega arith
copies_left_bound dequeuing = omega arith
copies_left_bound fetching = omega arith
copies_left_bound copying = omega arith
copies_left_bound queueing = omega arith
copies_left_bound asleep = omega arith
copies_left_bound delivered = omega arith

record Spends (t u : Feed) : Type 0 where
  pub over : Over u
  pub calls : u.misused + calls_left u.feed ≤ t.misused + calls_left t.feed
  pub copies : u.stray + copies_left u.feed ≤ t.stray + copies_left t.feed

one_if_bound : (b : Bool) → one_if b ≤ 1
one_if_bound true = omega arith
one_if_bound false = omega arith

FeedStep-Spends : {t u : Feed} → FeedStep t u → Over t → Spends t u
FeedStep-Spends (no_decoder a b) v = ground arith
FeedStep-Spends (decoder a b) v = ground arith
FeedStep-Spends (not_started a b) v = ground arith
FeedStep-Spends (is_started a b) v = ground arith
FeedStep-Spends (no_index a) v = ground arith
FeedStep-Spends (index a) v = ground arith
FeedStep-Spends (no_room a) v = ground arith
FeedStep-Spends (room a) v = ground arith
FeedStep-Spends {t} (copy a) v = ground (arith, one_if_bound t.deleted)
FeedStep-Spends (refused a) v = ground arith
FeedStep-Spends (accepted a) v = ground arith
FeedStep-Spends (wake a) v = ground arith
FeedStep-Spends (next_frame a) v = ground arith
FeedStep-Spends (store_status a) v = ground arith
FeedStep-Spends (no_codec a b) v = ground arith
FeedStep-Spends (has_codec a b) v = ground arith
FeedStep-Spends (stop_codec a) v = ground arith
FeedStep-Spends (delete_codec a) v = ground arith
FeedStep-Spends (clear_pointer a) v = ground arith

FeedReach-Spends : {s t : Feed} → Over s → FeedReach s t → Spends s t
FeedReach-Spends v here = record { over = v; calls = omega arith; copies = omega arith }
FeedReach-Spends v (next r st) =
    let first = FeedReach-Spends v r in
    let last = FeedStep-Spends st first.over in
    record {
      over = last.over;
      calls = omega (arith, first.calls, last.calls);
      copies = omega (arith, first.copies, last.copies);
    }

module _ (media_codec : ℤ) (status : MediaCodecStatus) (some_codec : is_zero media_codec ≡ false)
    (counted : at_least status started ≡ true) where
  fed-Inv : Inv (fed media_codec status)
  fed-Inv = record {
    counted = counted;
    live = λ e. cc;
    held = λ e. cc;
    cleared = λ e. cc;
    calls = inr refl;
    copies = inr refl;
  }

  -- From a decoder that exists, with a status of at least `STARTED`, and whatever the two threads do: no
  -- decoder call is misplaced and no frame is copied into a dead buffer until the stopping thread has
  -- deleted the decoder.
  pub clean_until_delete :
      {t : Feed}
      → FeedReach (fed media_codec status) t
      → t.stop ≢ clearing
      → t.stop ≢ finished
      → (t.misused ≡ 0) × (t.stray ≡ 0)
  clean_until_delete {t} r a b = ground (arith, FeedReach-Inv fed-Inv r)

  -- From a decoder that exists, with a status of at least `STARTED`: the listener's thread can copy a frame
  -- into an input buffer of a decoder that the other thread has deleted, and then queue it by a call
  -- through the null pointer.
  pub copy_after_delete :
      (t : Feed) × FeedReach (fed media_codec status) t
      × (t.deleted ≡ true)
      × (is_zero t.media_codec ≡ true)
      × (t.stray ≡ 1)
      × (t.misused ≡ 1)
  copy_after_delete =
      let fetched =
        next
          (next (next (next here (decoder refl some_codec)) (is_started refl counted)) (index refl))
          (room refl) in
      let stopped_codec =
        next (next (next fetched (store_status refl)) (has_codec refl some_codec))
          (stop_codec refl) in
      (
        _,
        next (next (next (next stopped_codec (delete_codec refl)) (clear_pointer refl)) (copy refl))
            (accepted refl),
        refl,
        refl,
        ground arith,
        ground arith,
      )

  -- From a decoder that exists, with a status of at least `STARTED`: once the stop is over, and however
  -- often the listener's thread tries again and whatever frames come in, it makes at most three more
  -- misplaced calls of the decoder and at most one more copy into a dead buffer.
  pub misuse_after_stop_bounded :
      {s t : Feed}
      → FeedReach (fed media_codec status) s
      → s.stop ≡ finished
      → FeedReach s t
      → (t.misused ≤ s.misused + 3) × (t.stray ≤ s.stray + 1)
  misuse_after_stop_bounded {s} r e r' =
      let v : Over s = record { ended = e; null = (FeedReach-Inv fed-Inv r).cleared e } in
      let spent = FeedReach-Spends v r' in
      (
        omega (arith, spent.calls, calls_left_bound s.feed),
        omega (arith, spent.copies, copies_left_bound s.feed),
      )
