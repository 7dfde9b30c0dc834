-- ===== src/Runtime/Feeding/Simulation.antt =====
-- `queueInputBuffer` and `stopMediaCodec`, each run by its thread while the other one stands still, as paths
-- of the two threads.
use grpc_jni_client.Prelude.{
  ℕ, suc, [], ◌+◌, ◌≡◌, refl, ap, ◌∙◌, false, List, ◌∷◌, is_zero, is_nonneg, pos_part, length, ltb,
  ◌||◌, arith, Bool-cases, inl, inr, if◌then◌else◌,
}
use grpc_jni_client.Platform.{
  Trace, Platform, dequeue_input_buffer, get_input_buffer, get_input_buffer_size,
  write_input_buffer, CodecCall, codec,
}
use grpc_jni_client.Runtime.State.{Runtime, status_code}
use grpc_jni_client.Runtime.Codec.{queue_input_buffer, stop_media_codec}
use grpc_jni_client.Runtime.Codec.Input.{taken_index, taken_buffer}
use grpc_jni_client.Runtime.Teardown.{entry, finished}
use grpc_jni_client.Runtime.Feeding.{
  wake, FeedUse, took, fetched, copied, queued, FeedPc, null_test, status_test, dequeuing, fetching,
  copying, queueing, asleep, delivered, Feed, one_if, call_codec, FeedStep, no_decoder, decoder,
  not_started, is_started, no_index, index, no_room, room, copy, refused, accepted, store_status,
  no_codec, has_codec, stop_codec, delete_codec, clear_pointer, FeedReach, here, next,
}

-- What was done with the input side of the decoder in a history, the newest first.
abbrev pub feed_uses : Trace → List FeedUse
feed_uses [] = []
feed_uses (codec (dequeue_input_buffer _ _) ∷ tr) = took ∷ feed_uses tr
feed_uses (codec (get_input_buffer _ _) ∷ tr) = fetched ∷ feed_uses tr
feed_uses (codec (write_input_buffer _ _) ∷ tr) = copied ∷ feed_uses tr
feed_uses (codec (CodecCall.queue_input_buffer _ _ _ _ _) ∷ tr) = queued ∷ feed_uses tr
feed_uses (_ ∷ tr) = feed_uses tr

-- The listener's thread has done what the history says, what the two threads share is as in the runtime, and the decoder has not been deleted.
pub record Views (t : Feed) (r : Runtime) : Type 0 where
  pub pointer : t.media_codec ≡ r.media_codec
  pub status : t.status ≡ r.media_codec_status
  pub alive : t.deleted ≡ false
  pub uses : t.uses ≡ feed_uses r.trace

-- The listener's thread comes to a place by its own steps, having slept so often and done this with the
-- decoder, and nothing is misplaced on the way.
pub record ComesTo (t : Feed) (place : FeedPc) (sleeps : ℕ) (uses : List FeedUse) : Type 0 where
  pub arrived : Feed
  pub path : FeedReach t arrived
  pub at : arrived.feed ≡ place
  pub pointer : arrived.media_codec ≡ t.media_codec
  pub status : arrived.status ≡ t.status
  pub life : arrived.deleted ≡ t.deleted
  pub stop : arrived.stop ≡ t.stop
  pub calls : arrived.misused ≡ t.misused
  pub copies : arrived.stray ≡ t.stray
  pub slept : arrived.sleeps ≡ sleeps
  pub made : arrived.uses ≡ uses

starts :
    (t : Feed) (r : Runtime) (a : FeedPc)
    → t.feed ≡ a
    → Views t r
    → ComesTo t a t.sleeps (feed_uses r.trace)
starts t r a e v = record {
  arrived = t;
  path = here;
  at = e;
  pointer = refl;
  status = refl;
  life = refl;
  stop = refl;
  calls = refl;
  copies = refl;
  slept = refl;
  made = v.uses;
}

module _ {t : Feed} {a : FeedPc} {n : ℕ} {l : List FeedUse} (c : ComesTo t a n l) where
  -- One more test, one more sleep, one more call of a decoder that is there.
  goes : (b : FeedPc) → FeedStep c.arrived (record c.arrived { feed = b }) → ComesTo t b n l
  goes b st = record {
    arrived = record c.arrived { feed = b };
    path = next c.path st;
    at = refl;
    pointer = c.pointer;
    status = c.status;
    life = c.life;
    stop = c.stop;
    calls = c.calls;
    copies = c.copies;
    slept = c.slept;
    made = c.made;
  }

  pub wakes : a ≡ asleep → ComesTo t null_test (suc n) l
  wakes e = record {
    arrived = record c.arrived { sleeps = suc c.arrived.sleeps; feed = null_test };
    path = next c.path (wake (c.at ∙ e));
    at = refl;
    pointer = c.pointer;
    status = c.status;
    life = c.life;
    stop = c.stop;
    calls = c.calls;
    copies = c.copies;
    slept = ap suc c.slept;
    made = c.made;
  }

  asks :
      (call : FeedUse) (b : FeedPc)
      → is_zero t.media_codec ≡ false
      → t.deleted ≡ false
      → FeedStep c.arrived (call_codec c.arrived call b)
      → ComesTo t b n (call ∷ l)
  asks call b z d st = record {
    arrived = call_codec c.arrived call b;
    path = next c.path st;
    at = refl;
    pointer = c.pointer;
    status = c.status;
    life = c.life;
    stop = c.stop;
    calls = ground (arith, c.calls, c.pointer, c.life);
    copies = c.copies;
    slept = c.slept;
    made = ap (λ k. call ∷ k) c.made;
  }

-- One more copy.
fills :
    {t : Feed} {n : ℕ} {l : List FeedUse} (c : ComesTo t copying n l)
    → t.deleted ≡ false
    → ComesTo t queueing n (copied ∷ l)
fills c d = record {
  arrived = record c.arrived {
    stray = c.arrived.stray + one_if c.arrived.deleted;
    uses = copied ∷ c.arrived.uses;
    feed = queueing;
  };
  path = next c.path (copy c.at);
  at = refl;
  pointer = c.pointer;
  status = c.status;
  life = c.life;
  stop = c.stop;
  calls = c.calls;
  copies = ground (arith, c.copies, c.life);
  slept = c.slept;
  made = ap (λ k. copied ∷ k) c.made;
}

pub FeedReach-trans : {s t u : Feed} → FeedReach s t → FeedReach t u → FeedReach s u
FeedReach-trans r here = r
FeedReach-trans r (next r' st) = next (FeedReach-trans r r') st

module _ (p : Platform) (r : Runtime) (bytes : List ℕ) (pts flags : ℕ) where
  -- On any runtime, `queueInputBuffer` as one thread runs it is a path of the listener's thread, the other
  -- thread standing still with the decoder not deleted: it takes, fills and queues buffers as the function
  -- does, and ends with the frame delivered where the function
  -- returns true, and before the next attempt where it returns false.
  pub queue_input_buffer_simulated :
      (t : Feed)
      → t.feed ≡ null_test
      → Views t r
      → let (ok, r') = queue_input_buffer bytes pts flags p r in
        ComesTo t (if ok then delivered else asleep) t.sleeps (feed_uses r'.trace)
  unfolding queue_input_buffer goes asks fills starts
  queue_input_buffer_simulated t e v =
      let begun = starts t r null_test e v in
      let i = taken_index p r in
      let first = codec (dequeue_input_buffer r.media_codec 33000) ∷ r.trace in
      let size =
        p.answer (codec (get_input_buffer r.media_codec i) ∷ first)
          (codec (get_input_buffer_size r.media_codec i)) in
      let last =
        p.answer
          (codec (write_input_buffer (taken_buffer p r) bytes)
            ∷ codec (get_input_buffer_size r.media_codec i)
            ∷ codec (get_input_buffer r.media_codec i)
            ∷ first)
          (codec (CodecCall.queue_input_buffer r.media_codec i (length bytes) pts flags)) in
      elim (Bool-cases (is_zero r.media_codec)) [
        | inl z ↦ rw z (goes begun asleep (no_decoder e (ap is_zero v.pointer ∙ z)))
        | inr z ↦
            let y : is_zero t.media_codec ≡ false = ap is_zero v.pointer ∙ z in
            let tested = goes begun status_test (decoder e y) in
            elim (Bool-cases (ltb (status_code r.media_codec_status) 1)) [
              | inl f ↦ rw (z, f) (goes tested asleep (not_started refl (ground (arith, v.status))))
              | inr f ↦
                  let ready = goes tested dequeuing (is_started refl (ground (arith, v.status))) in
                  elim (Bool-cases (is_nonneg i)) [
                    | inr g ↦ rw (z, f, g) (asks ready took asleep y v.alive (no_index refl))
                    | inl g ↦
                        let taken = asks ready took fetching y v.alive (index refl) in
                        elim (Bool-cases
                          (is_zero (taken_buffer p r) || ltb (pos_part size) (length bytes))) [
                            | inl h ↦
                                rw (z, f, g, h) (asks taken fetched asleep y v.alive (no_room refl))
                            | inr h ↦
                                let filled =
                                  fills (asks taken fetched copying y v.alive (room refl))
                                    v.alive in
                                elim (Bool-cases (is_zero last)) [
                                  | inl k ↦
                                      rw (z, f, g, h, k)
                                        (asks filled queued delivered y v.alive (accepted refl))
                                  | inr k ↦
                                      rw (z, f, g, h, k)
                                        (asks filled queued asleep y v.alive (refused refl))
                                ]
                          ]
                  ]
            ]
      ]

-- The stop has ended, with the shared members as in the runtime.
pub record StopsWith (t : Feed) (r : Runtime) : Type 0 where
  pub arrived : Feed
  pub path : FeedReach t arrived
  pub at : arrived.stop ≡ finished
  pub pointer : arrived.media_codec ≡ r.media_codec
  pub status : arrived.status ≡ r.media_codec_status
  pub feed : arrived.feed ≡ t.feed

-- On any runtime, `stopMediaCodec` as one thread runs it is a path of the stopping thread, the other thread
-- standing still, and leaves the pointer and the status that the function leaves.
pub stop_media_codec_simulated :
    (p : Platform) (r : Runtime) (t : Feed)
    → t.stop ≡ entry
    → Views t r
    → StopsWith t (stop_media_codec p r).1
unfolding stop_media_codec
stop_media_codec_simulated p r t e v = elim (Bool-cases (is_zero r.media_codec)) [
  | inl z ↦ rw z (record {
    arrived = _;
    path = next (next here (store_status e)) (no_codec refl (ap is_zero v.pointer ∙ z));
    at = refl;
    pointer = v.pointer;
    status = refl;
    feed = refl;
  })
  | inr z ↦ rw z (record {
    arrived = _;
    path =
        next
          (next
            (next (next (next here (store_status e)) (has_codec refl (ap is_zero v.pointer ∙ z)))
              (stop_codec refl))
            (delete_codec refl))
          (clear_pointer refl);
    at = refl;
    pointer = refl;
    status = refl;
    feed = refl;
  })
]
