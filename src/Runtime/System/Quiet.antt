-- ===== src/Runtime/System/Quiet.antt =====
-- The parts of the runtime that touch neither the method table, nor the listener of the video stream,
-- nor the surface of the window, and that call no decoder but the live one.
use grpc_jni_client.Prelude.{
  ltb, length, ℕ, ◌≡◌, refl, ap, ◌∙◌, List, ◌∷◌, arith, inl, inr, Bool-cases, zero, suc,
}
use grpc_jni_client.Platform.{Platform, Trace, JniCall, jni}
use grpc_jni_client.Messages.{Message}
use grpc_jni_client.Runtime.State.{Runtime, Handler, request}
use grpc_jni_client.Runtime.Codec.{queue_input_buffer, stop_media_codec}
use grpc_jni_client.Runtime.Codec.Input.{
  WritesFit, queue_input_buffer-WritesFit, queue_input_buffer_frame,
}
use grpc_jni_client.Runtime.Codec.Live.{CodecHeld, queue_input_buffer-CodecHeld}
use grpc_jni_client.Runtime.Handlers.Decoder.{run_handler-CodecHeld}
use grpc_jni_client.Runtime.Listener.{retry, receive_frame}
use grpc_jni_client.Runtime.Listener.Retry.{retry-keeps}
use grpc_jni_client.Runtime.Listener.Lifecycle.{listeners}
use grpc_jni_client.Runtime.Handlers.{run_handler}
use grpc_jni_client.Runtime.Handlers.Frame.{core, run_handler-core}
use grpc_jni_client.Messages.{Flatbuffers}
use grpc_jni_client.Dial.{handler_func}
use grpc_jni_client.Dial.Methods.{handler_func-keeps}
use grpc_jni_client.Runtime.State.{response}
use grpc_jni_client.Runtime.Handlers.Rules.{run_handler-kept}
use grpc_jni_client.Runtime.Screen.Frames.{surfaces}

-- A history that goes on without opening or closing a listener, without making or destroying a window
-- surface, and without a write that does not fit.
pub record QuietTrace (p : Platform) (tr tr' : Trace) : Type 0 where
  pub opened : listeners p tr' ≡ listeners p tr
  pub made : surfaces p tr' ≡ surfaces p tr
  pub fits : WritesFit p tr → WritesFit p tr'

pub record Quiet (p : Platform) (r r' : Runtime) : Type 0 where
  pub dial : r'.dial ≡ r.dial
  pub listener : r'.pull_listener ≡ r.pull_listener
  pub surface : r'.attached_surface ≡ r.attached_surface
  pub history : QuietTrace p r.trace r'.trace
  pub decoder : CodecHeld p r → CodecHeld p r'

module _ (p : Platform) where
  pub QuietTrace-refl : (tr : Trace) → QuietTrace p tr tr
  QuietTrace-refl tr = record { opened = refl; made = refl; fits = λ w. w }

  QuietTrace-trans : {a b c : Trace} → QuietTrace p a b → QuietTrace p b c → QuietTrace p a c
  QuietTrace-trans x y = record {
    opened = y.opened ∙ x.opened;
    made = y.made ∙ x.made;
    fits = λ w. y.fits (x.fits w);
  }

  pub Quiet-refl : (r : Runtime) → Quiet p r r
  Quiet-refl r = record {
    dial = refl;
    listener = refl;
    surface = refl;
    history = QuietTrace-refl r.trace;
    decoder = λ v. v;
  }

  pub Quiet-trans : {a b c : Runtime} → Quiet p a b → Quiet p b c → Quiet p a c
  Quiet-trans x y = record {
    dial = y.dial ∙ x.dial;
    listener = y.listener ∙ x.listener;
    surface = y.surface ∙ x.surface;
    history = QuietTrace-trans x.history y.history;
    decoder = λ v. y.decoder (x.decoder v);
  }

  -- The same, the second part first.
  pub after : {a b c : Runtime} → Quiet p b c → Quiet p a b → Quiet p a c
  after y x = Quiet-trans x y

  queue_input_buffer-QuietTrace :
      (bytes : List ℕ) (pts flags : ℕ) (r : Runtime)
      → QuietTrace p r.trace (queue_input_buffer bytes pts flags p r).1.trace
  unfolding queue_input_buffer
  queue_input_buffer-QuietTrace bytes pts flags r = record {
    opened = ground arith;
    made = ground arith;
    fits = queue_input_buffer-WritesFit p r bytes pts flags;
  }

  queue_input_buffer-Quiet :
      (bytes : List ℕ) (pts flags : ℕ) (r : Runtime)
      → Quiet p r (queue_input_buffer bytes pts flags p r).1
  queue_input_buffer-Quiet bytes pts flags r =
      let same = queue_input_buffer_frame p r bytes pts flags in
      record {
        dial = ap (λ s. s.dial) same;
        listener = ap (λ s. s.pull_listener) same;
        surface = ap (λ s. s.attached_surface) same;
        history = queue_input_buffer-QuietTrace bytes pts flags r;
        decoder = queue_input_buffer-CodecHeld p bytes pts flags r;
      }

  pub Quiet-jni :
      (c : JniCall) (a r : Runtime) → Quiet p a r → Quiet p a (record r { trace = jni c ∷ r.trace })
  Quiet-jni c a r q = ground arith

  pub stop_media_codec-Quiet : (r : Runtime) → Quiet p r (stop_media_codec p r).1
  unfolding stop_media_codec
  stop_media_codec-Quiet r = ground arith

  retry-Quiet :
      (rounds pause : ℕ) (bytes : List ℕ) (flags : ℕ) (r : Runtime)
      → Quiet p r (retry rounds pause (queue_input_buffer bytes 0 flags) p r).1
  retry-Quiet rounds pause bytes flags r =
      retry-keeps p pause (queue_input_buffer bytes 0 flags) (Quiet p r)
        (λ s q. Quiet-trans q (queue_input_buffer-Quiet bytes 0 flags s)) (λ s q. ground arith)
        rounds r (Quiet-refl r)

  pub receive_frame-Quiet :
      (rounds : ℕ) (bytes : List ℕ) (r : Runtime) → Quiet p r (receive_frame rounds bytes p r).1
  unfolding receive_frame
  receive_frame-Quiet zero bytes r = elim (Bool-cases (ltb (length bytes) 5)) [
    | inl e ↦ rw e (Quiet-refl r)
    | inr e ↦ rw e (retry-Quiet zero 5 bytes 0 r)
  ]
  receive_frame-Quiet (suc rounds) bytes r = elim (Bool-cases (ltb (length bytes) 5)) [
    | inl e ↦ rw e (queue_input_buffer-Quiet bytes 0 0 r)
    | inr e ↦ rw e (retry-Quiet (suc rounds) 5 bytes 0 r)
  ]

  of_core :
      {a b : Runtime}
      → core b ≡ core a
      → QuietTrace p a.trace b.trace
      → (CodecHeld p a → CodecHeld p b)
      → Quiet p a b
  of_core same h held = record {
    dial = ap (λ c. c.0) same;
    listener = ap (λ c. c.1) same;
    surface = ap (λ c. c.2) same;
    history = h;
    decoder = held;
  }

  run_handler-Quiet :
      (rounds : ℕ) (h : Handler) (req : Message (request h)) (r : Runtime)
      → Quiet p r (run_handler rounds h req p r).1
  run_handler-Quiet rounds h req r =
      of_core (run_handler-core p rounds h req r)
        (run_handler-kept p (QuietTrace p r.trace) (λ c tr q. ground arith) (λ c tr q. ground arith)
          (λ x tr q. ground arith) (λ x tr q. ground arith)
          (λ bytes pts flags s q.
            QuietTrace-trans q (queue_input_buffer-QuietTrace bytes pts flags s))
          rounds h req r (QuietTrace-refl r.trace))
        (run_handler-CodecHeld p rounds h req r)

  pub handler_func-Quiet :
      (fb : Flatbuffers) (rounds : ℕ) (h : Handler) (req resp : List ℕ) (r : Runtime)
      → Quiet p r (handler_func fb request response (run_handler rounds) h req resp p r).1
  handler_func-Quiet fb rounds h req resp r =
      handler_func-keeps fb request response (run_handler rounds) (Quiet p r) p
        (λ g m s q. Quiet-trans q (run_handler-Quiet rounds g m s)) h req resp r (Quiet-refl r)
