-- ===== src/Runtime/Teardown/Simulation.antt =====
-- `outputLoop` and `stopMediaCodec`, each run by its thread while the other one stands still, as paths of the
-- two threads.
use grpc_jni_client.Prelude.{
  ◌+◌, ◌≤◌, List, [], subst, ℕ, zero, suc, ℤ, pos, negsuc, ◌≡◌, refl, sym, ap, ◌∙◌, false, ◌∷◌,
  is_zero, arith, Bool-cases, inl, inr,
}
use grpc_jni_client.Platform.{
  Trace, release_output_buffer, get_output_format, Platform, Outcome, returned, faulted, looping,
  dequeue_output_buffer, codec,
}
use grpc_jni_client.Jni.Rules.{with_env-Preserves, call_void_method-Preserves}
use grpc_jni_client.Runtime.State.{Runtime, started}
use grpc_jni_client.Runtime.Codec.{at_least, notify_screen_available}
use grpc_jni_client.Runtime.Screen.{handle_output, output_loop}
use grpc_jni_client.Runtime.Teardown.{
  Use, asked, handled, OutputPc, loop_head, null_test, dequeuing, handling, left, Threads,
  use_codec, Step, go_on, status_out, null_out, not_null, dequeue, use_again, no_more_use, Reach,
  here, next,
}

-- The calls of the decoder for output in a history, the newest first.
abbrev pub uses : Trace → List Use
uses [] = []
uses (codec (dequeue_output_buffer _ _) ∷ tr) = asked ∷ uses tr
uses (codec (release_output_buffer _ _) ∷ tr) = handled ∷ uses tr
uses (codec (get_output_format _) ∷ tr) = handled ∷ uses tr
uses (_ ∷ tr) = uses tr

-- The output thread has made the calls of the history, what the two threads share is as in the runtime, and the decoder has not been deleted.
pub record Views (t : Threads) (r : Runtime) : Type 0 where
  pub pointer : t.media_codec ≡ r.media_codec
  pub status : t.status ≡ r.media_codec_status
  pub alive : t.deleted ≡ false
  pub calls : t.calls ≡ uses r.trace

-- The output thread comes to a place by its own steps, after so many rounds and with these calls made, and no
-- call is misplaced on the way.
record ComesTo (t : Threads) (place : OutputPc) (rounds : ℕ) (calls : List Use) : Type 0 where
  pub arrived : Threads
  pub path : Reach t arrived
  pub at : arrived.output ≡ place
  pub pointer : arrived.media_codec ≡ t.media_codec
  pub status : arrived.status ≡ t.status
  pub life : arrived.deleted ≡ t.deleted
  pub stop : arrived.stop ≡ t.stop
  pub placed : arrived.misused ≡ t.misused
  pub turns : arrived.rounds ≡ rounds
  pub made : arrived.calls ≡ calls

starts : (t : Threads) (a : OutputPc) → t.output ≡ a → ComesTo t a t.rounds t.calls
starts t a e = record {
  arrived = t;
  path = here;
  at = e;
  pointer = refl;
  status = refl;
  life = refl;
  stop = refl;
  placed = refl;
  turns = refl;
  made = refl;
}

module _ {t : Threads} {a : OutputPc} {n : ℕ} {l : List Use} (c : ComesTo t a n l) where
  -- One more step without a call, one into a round, and one with a call of a decoder that is there.
  goes : (b : OutputPc) → Step c.arrived (record c.arrived { output = b }) → ComesTo t b n l
  goes b st = record {
    arrived = record c.arrived { output = b };
    path = next c.path st;
    at = refl;
    pointer = c.pointer;
    status = c.status;
    life = c.life;
    stop = c.stop;
    placed = c.placed;
    turns = c.turns;
    made = c.made;
  }

  enters :
      Step c.arrived (record c.arrived { rounds = suc c.arrived.rounds; output = null_test })
      → ComesTo t null_test (suc n) l
  enters st = record {
    arrived = record c.arrived { rounds = suc c.arrived.rounds; output = null_test };
    path = next c.path st;
    at = refl;
    pointer = c.pointer;
    status = c.status;
    life = c.life;
    stop = c.stop;
    placed = c.placed;
    turns = ap suc c.turns;
    made = c.made;
  }

  asks :
      (call : Use) (b : OutputPc)
      → is_zero t.media_codec ≡ false
      → t.deleted ≡ false
      → Step c.arrived (use_codec c.arrived call b)
      → ComesTo t b n (call ∷ l)
  asks call b z d st = record {
    arrived = use_codec c.arrived call b;
    path = next c.path st;
    at = refl;
    pointer = c.pointer;
    status = c.status;
    life = c.life;
    stop = c.stop;
    placed = ground (arith, c.placed, c.pointer, c.life);
    turns = c.turns;
    made = ap (λ k. call ∷ k) c.made;
  }

Reach-trans : {s t u : Threads} → Reach s t → Reach t u → Reach s u
Reach-trans r here = r
Reach-trans r (next r' st) = next (Reach-trans r r') st

-- Where the thread stands when the loop has ended, or when the rounds are used up.
abbrev pub place_after : Outcome (Unit {0}) → OutputPc
place_after (returned _) = left
place_after faulted = left
place_after looping = loop_head

-- With rounds left to follow, as many have been made; else no more.
abbrev pub Rounds : Outcome (Unit {0}) → ℕ → ℕ → Type 0
Rounds looping made followed = made ≡ followed
Rounds _ made followed = made ≤ followed

-- The output thread has run `outputLoop`: by its own steps, among them the rounds that were followed and the
-- decoder calls of the history, it has come to where the function ended, and misplaced no call.
pub record Runs (t : Threads) (followed : ℕ) (ended : Outcome (Unit {0})) (r : Runtime)
    : Type 0 where
  pub arrived : Threads
  pub path : Reach t arrived
  pub at : arrived.output ≡ place_after ended
  pub views : Views arrived r
  pub stop : arrived.stop ≡ t.stop
  pub placed : arrived.misused ≡ t.misused
  pub rounds : Rounds ended arrived.rounds (t.rounds + followed)

leaves :
    {t : Threads} {n : ℕ} (r : Runtime) (followed : ℕ)
    → Views t r
    → ComesTo t left n t.calls
    → n ≤ t.rounds + followed
    → Runs t followed (returned tt) r
leaves r followed v c h = record {
  arrived = c.arrived;
  path = c.path;
  at = c.at;
  views = record {
    pointer = c.pointer ∙ v.pointer;
    status = c.status ∙ v.status;
    alive = c.life ∙ v.alive;
    calls = c.made ∙ v.calls;
  };
  stop = c.stop;
  placed = c.placed;
  rounds = omega (arith, c.turns, h);
}

module _ (p : Platform) where
  handle_output-pointer :
      (index : ℤ) (r : Runtime) → (handle_output index p r).1.media_codec ≡ r.media_codec
  unfolding handle_output notify_screen_available
  handle_output-pointer (pos n) r = ground arith
  handle_output-pointer (negsuc zero) r = refl
  handle_output-pointer (negsuc (suc zero)) r = refl
  handle_output-pointer (negsuc (suc (suc n))) r = refl

  handle_output-status :
      (index : ℤ) (r : Runtime)
      → (handle_output index p r).1.media_codec_status ≡ r.media_codec_status
  unfolding handle_output notify_screen_available
  handle_output-status (pos n) r = ground arith
  handle_output-status (negsuc zero) r = refl
  handle_output-status (negsuc (suc zero)) r = refl
  handle_output-status (negsuc (suc (suc n))) r = refl

  notify_screen_available-uses :
      (r : Runtime) → uses (notify_screen_available p r).1.trace ≡ uses r.trace
  unfolding notify_screen_available
  notify_screen_available-uses r =
      with_env-Preserves p (λ tr. uses tr ≡ uses r.trace) (λ c tr e. e) _
        (call_void_method-Preserves p _ (λ c tr e. e) _ _ _ _) r.trace refl

  -- A buffer is released and a changed format is looked at by one more call; otherwise there is none.
  handles :
      {t : Threads} {n : ℕ} (index : ℤ) (r : Runtime)
      → ComesTo t handling n (uses r.trace)
      → is_zero t.media_codec ≡ false
      → t.deleted ≡ false
      → ComesTo t loop_head n (uses (handle_output index p r).1.trace)
  unfolding handle_output
  handles (pos i) r c z d =
      let released = codec (release_output_buffer r.media_codec (pos i)) in
      elim (Bool-cases (is_zero (p.answer r.trace released))) [
        | inl e ↦ rw e (asks c handled loop_head z d (use_again c.at))
        | inr e ↦ rw e (asks c handled loop_head z d (use_again c.at))
      ]
  handles (negsuc zero) r c z d = goes c loop_head (no_more_use c.at)
  handles (negsuc (suc zero)) r c z d =
      rw
        (notify_screen_available-uses
          (record r { trace = codec (get_output_format r.media_codec) ∷ r.trace }))
        (asks c handled loop_head z d (use_again c.at))
  handles (negsuc (suc (suc i))) r c z d = goes c loop_head (no_more_use c.at)

  Rounds-suc :
      (ended : Outcome (Unit {0})) (a b n m : ℕ)
      → b ≡ suc n
      → Rounds ended a (b + m)
      → Rounds ended a (n + suc m)
  Rounds-suc (returned _) a b n m e h = omega arith
  Rounds-suc faulted a b n m e h = omega arith
  Rounds-suc looping a b n m e h = omega arith

  -- On any runtime, any number of rounds of `outputLoop` are a path of the output thread, the other thread
  -- standing still with the decoder not deleted: the thread calls the decoder as often as the function, for
  -- the same purposes and in the same order, and no call is misplaced; it has left its loop where the
  -- function has returned, and where the rounds are used up, it has made all of them and is at the head of
  -- the loop.
  pub output_loop_simulated :
      (rounds : ℕ) (r : Runtime) (t : Threads)
      → t.output ≡ loop_head
      → Views t r
      → let (ended, r') = output_loop rounds p r in Runs t rounds ended r'
  unfolding output_loop starts goes enters
  output_loop_simulated zero r t e v = record {
    arrived = t;
    path = here;
    at = e;
    views = v;
    stop = refl;
    placed = refl;
    rounds = omega arith;
  }
  output_loop_simulated (suc rounds) r t e v =
      elim (Bool-cases (at_least r.media_codec_status started)) [
        | inr f ↦ rw f (
            leaves r (suc rounds) v
              (goes (starts t loop_head e) left
                (status_out e (ap (λ s. at_least s started) v.status ∙ f)))
              (omega arith))
        | inl f ↦
            let tested =
              enters (starts t loop_head e) (go_on e (ap (λ s. at_least s started) v.status ∙ f)) in
            elim (Bool-cases (is_zero r.media_codec)) [
              | inl z ↦
                  rw (f, z)
                    (leaves r (suc rounds) v
                      (goes tested left (null_out refl (ap is_zero v.pointer ∙ z))) (omega arith))
              | inr z ↦
                  let y : is_zero t.media_codec ≡ false = ap is_zero v.pointer ∙ z in
                  let call = codec (dequeue_output_buffer r.media_codec 33000) in
                  let index = p.answer r.trace call in
                  let asking : Runtime = record r { trace = call ∷ r.trace } in
                  let ready = goes tested dequeuing (not_null refl y) in
                  let in_hand = asks ready asked handling y v.alive (dequeue refl) in
                  let round =
                    handles index asking
                      (subst (λ l. ComesTo t handling (suc t.rounds) (asked ∷ l)) v.calls in_hand) y
                      v.alive in
                  let rest =
                    output_loop_simulated rounds (handle_output index p asking).1 round.arrived
                      round.at
                      (record {
                        pointer =
                            round.pointer ∙ v.pointer ∙ sym (handle_output-pointer index asking);
                        status = round.status ∙ v.status ∙ sym (handle_output-status index asking);
                        alive = round.life ∙ v.alive;
                        calls = round.made;
                      }) in
                  rw (f, z)
                    (record {
                      arrived = rest.arrived;
                      path = Reach-trans round.path rest.path;
                      at = rest.at;
                      views = rest.views;
                      stop = rest.stop ∙ round.stop;
                      placed = rest.placed ∙ round.placed;
                      rounds = Rounds-suc _ _ _ t.rounds rounds round.turns rest.rounds;
                    })
            ]
      ]
