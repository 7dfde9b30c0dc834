-- ===== src/Dial/Methods.antt =====
-- The method table, and what a registered wrapper does with a request.
use grpc_jni_client.Prelude.{
  ℕ, ◌≡◌, refl, String, false, some, List, ◌∷◌, arith, str_eq, if◌then◌else◌, Bool-cases, inl, inr,
}
use grpc_jni_client.Prelude.Dict.{lookup-insert}
use grpc_jni_client.Platform.{
  Outcome, returned, outcome_map, Io, Action, Platform, Trace, internal_pipe_event, rpc,
}
use grpc_jni_client.Messages.{Schema, Message, Flatbuffers}
use grpc_jni_client.Messages.Buffers.{IsLawful}
use grpc_jni_client.Messages.Ranges.{IsTyped}
use grpc_jni_client.Messages.RoundTrip.{settled}
use grpc_jni_client.Dial.{
  Dial, PipeEvent, register_method, registered, set_pipe_handler, pipe_cb, handler_func,
}

-- A registration replaces the handler of its own name and touches no other.
pub registered-register_method :
    {H : Type 0} (k j : String) (h : H) (d : Dial H)
    → registered j (register_method k h d) ≡ (if str_eq k j then some h else registered j d)
unfolding registered register_method
registered-register_method k j h d = ground (arith, lookup-insert k j h d.method_map)

-- Once a pipe handler is set, each pipe event reaches it first and the transport afterwards.
pub pipe_cb-set_pipe_handler :
    {H : Type 0} (d : Dial H) (handler : ℕ → PipeEvent → Action (Unit {0})) (pipe : ℕ)
    (ev : PipeEvent) (p : Platform) (tr : Trace)
    → (pipe_cb (set_pipe_handler handler d) pipe ev p tr).1
      ≡ rpc (internal_pipe_event pipe) ∷ (handler pipe ev p tr).1
unfolding pipe_cb set_pipe_handler
pipe_cb-set_pipe_handler d handler pipe ev p tr = refl

module _ {H S : Type 0} (fb : Flatbuffers) (request response : H → Schema)
    (run : (h : H) → Message (request h) → Io S (Outcome (Message (response h)))) where
  -- A buffer that does not verify as the handler's request table runs no handler: the state and the
  -- response stay as they were, and there is no fault.
  pub handler_func-unverified :
      (h : H) (req resp : List ℕ) (p : Platform) (s : S)
      → fb.verify_buffer (request h) req ≡ false
      → handler_func fb request response run h req resp p s ≡ (returned resp, s)
  unfolding handler_func
  handler_func-unverified h req resp p s e = rw e

  -- Whatever every handler keeps on every request table, a wrapper keeps on arbitrary bytes.
  pub handler_func-keeps :
      (P : S → Type 0) (p : Platform)
      → ((h : H) (m : Message (request h)) (s : S) → P s → P (run h m p s).1)
      → (h : H) (req resp : List ℕ) (s : S) → P s
      → P (handler_func fb request response run h req resp p s).1
  unfolding handler_func
  handler_func-keeps P p keeps h req resp s v =
      elim (Bool-cases (fb.verify_buffer (request h) req)) [
        | inl e ↦ rw e (keeps h _ s v)
        | inr e ↦ rw e v
      ]

  -- A request that the peer has built of values of the fields' types runs the handler on the message
  -- that the peer meant, but for a floating-point minus zero, which arrives as zero.
  pub handler_func-finish :
      IsLawful fb
      → (h : H) (m : Message (request h)) (resp : List ℕ) (p : Platform) (s : S)
      → IsTyped (request h) m
      → handler_func fb request response run h (fb.finish (request h) m) resp p s ≡ (
          let (o, s') = run h (settled (request h) m) p s in
          (outcome_map (fb.finish (response h)) o, s'))
  unfolding handler_func
  handler_func-finish lawful h m resp p s v =
      let (verified, same) = lawful (request h) m v in rw (verified, same) refl
