-- ===== src/Runtime/Feeding/Callback.antt =====
-- The callback of the video stream, run by its thread while the other one stands still, as a path of the two
-- threads.
use grpc_jni_client.Prelude.{
  ◌+◌, arith, ℕ, zero, suc, ◌≤◌, sym, ◌≡◌, refl, ap, ◌∙◌, Bool, List, ◌∷◌, length, Bool-cases, inl,
  inr, if◌then◌else◌,
}
use grpc_jni_client.Platform.{Platform, Outcome, returned, faulted, looping, sleep_ms, os}
use grpc_jni_client.Runtime.State.{Runtime}
use grpc_jni_client.Runtime.Codec.{queue_input_buffer}
use grpc_jni_client.Runtime.Codec.Input.{queue_input_buffer_frame}
use grpc_jni_client.Runtime.Listener.{retry, receive_frame}
use grpc_jni_client.Runtime.Feeding.{FeedPc, null_test, asleep, delivered, Feed, FeedReach, here}
use grpc_jni_client.Runtime.Handlers.Waiting.{long_frame}
use grpc_jni_client.Runtime.Feeding.Simulation.{
  Views, wakes, FeedReach-trans, queue_input_buffer_simulated,
}

-- Where the thread stands when the callback has returned, or when the rounds are used up.
abbrev pub place_after : Outcome (Unit {0}) → FeedPc
place_after (returned _) = delivered
place_after faulted = null_test
place_after looping = null_test

-- With attempts left to follow, each one has failed and slept; else one of them has not.
abbrev pub Sleeps : Outcome (Unit {0}) → ℕ → ℕ → Type 0
Sleeps looping slept followed = slept ≡ followed
Sleeps _ slept followed = suc slept ≤ followed

-- The listener's thread has run the callback: by its own steps, among them a sleep after each failed attempt
-- and the calls and copies of the history, it has come to where the callback ended, and misplaced none.
pub record Runs (t : Feed) (followed : ℕ) (ended : Outcome (Unit {0})) (r : Runtime) : Type 0 where
  pub arrived : Feed
  pub path : FeedReach t arrived
  pub at : arrived.feed ≡ place_after ended
  pub views : Views arrived r
  pub stop : arrived.stop ≡ t.stop
  pub calls : arrived.misused ≡ t.misused
  pub copies : arrived.stray ≡ t.stray
  pub sleeps : Sleeps ended arrived.sleeps (t.sleeps + followed)

Sleeps-suc :
    (ended : Outcome (Unit {0})) (a b n m : ℕ)
    → b ≡ suc n
    → Sleeps ended a (b + m)
    → Sleeps ended a (n + suc m)
Sleeps-suc (returned _) a b n m e h = omega arith
Sleeps-suc faulted a b n m e h = omega arith
Sleeps-suc looping a b n m e h = omega arith

module _ (p : Platform) (bytes : List ℕ) where
  retry_simulated :
      (rounds : ℕ) (r : Runtime) (t : Feed)
      → t.feed ≡ null_test
      → Views t r
      → let (ended, r') = retry rounds 5 (queue_input_buffer bytes 0 0) p r in
        Runs t rounds ended r'
  unfolding retry
  retry_simulated zero r t e v = record {
    arrived = t;
    path = here;
    at = e;
    views = v;
    stop = refl;
    calls = refl;
    copies = refl;
    sleeps = omega arith;
  }
  retry_simulated (suc rounds) r t e v =
      let after = (queue_input_buffer bytes 0 0 p r).1 in
      let ok = (queue_input_buffer bytes 0 0 p r).0 in
      let slept : Runtime = record after { trace = os (sleep_ms 5) ∷ after.trace } in
      let once = queue_input_buffer_simulated p r bytes 0 0 t e v in
      let same = queue_input_buffer_frame p r bytes 0 0 in
      let pointer : r.media_codec ≡ after.media_codec = sym (ap (λ s. s.media_codec) same) in
      let status : r.media_codec_status ≡ after.media_codec_status =
        sym (ap (λ s. s.media_codec_status) same) in
      let place = λ (b : Bool). if b then delivered else asleep in
      elim (Bool-cases ok) [
        | inl f ↦ rw f (record {
          arrived = once.arrived;
          path = once.path;
          at = once.at ∙ ap place f;
          views = record {
            pointer = once.pointer ∙ v.pointer ∙ pointer;
            status = once.status ∙ v.status ∙ status;
            alive = once.life ∙ v.alive;
            uses = once.made;
          };
          stop = once.stop;
          calls = once.calls;
          copies = once.copies;
          sleeps = omega (arith, once.slept);
        })
        | inr f ↦
            let woken = wakes once (ap place f) in
            let rest = retry_simulated rounds slept woken.arrived woken.at (record {
              pointer = woken.pointer ∙ v.pointer ∙ pointer;
              status = woken.status ∙ v.status ∙ status;
              alive = woken.life ∙ v.alive;
              uses = woken.made;
            }) in
            rw f (record {
              arrived = rest.arrived;
              path = FeedReach-trans woken.path rest.path;
              at = rest.at;
              views = rest.views;
              stop = rest.stop ∙ woken.stop;
              calls = rest.calls ∙ woken.calls;
              copies = rest.copies ∙ woken.copies;
              sleeps = Sleeps-suc _ _ _ t.sleeps rounds woken.slept rest.sleeps;
            })
      ]

  -- On any runtime, the callback of the video stream with a frame of at least five bytes is a path of the
  -- listener's thread, the other thread standing still with the decoder not deleted: the thread takes,
  -- fetches, fills and queues input buffers as often as the callback and in the same order, no call of the
  -- decoder is misplaced and no frame is copied into a dead buffer; it ends with the frame delivered, after
  -- fewer failed attempts than were followed, where the callback has returned, and at the null test again,
  -- after as many as were followed, where it still retries.
  pub receive_frame_simulated :
      (rounds : ℕ) (r : Runtime) (t : Feed)
      → 5 ≤ length bytes
      → t.feed ≡ null_test
      → Views t r
      → let (ended, r') = receive_frame rounds bytes p r in Runs t rounds ended r'
  receive_frame_simulated rounds r t long e v =
      rw (long_frame p bytes rounds r long) (retry_simulated rounds r t e v)
