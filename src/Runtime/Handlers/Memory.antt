-- ===== src/Runtime/Handlers/Memory.antt =====
-- What a remote request, well-formed or not, can do to the decoder's input buffers.
use grpc_jni_client.Prelude.{ℕ, List}
use grpc_jni_client.Platform.{Platform}
use grpc_jni_client.Messages.{Flatbuffers}
use grpc_jni_client.Dial.{handler_func}
use grpc_jni_client.Dial.Methods.{handler_func-keeps}
use grpc_jni_client.Runtime.State.{Handler, request, response, Runtime}
use grpc_jni_client.Runtime.Codec.Input.{WritesFit, queue_input_buffer-WritesFit}
use grpc_jni_client.Runtime.Handlers.{run_handler}
use grpc_jni_client.Runtime.Handlers.Rules.{run_handler-kept}

-- If all writes so far fit, then no sequence of bytes that a peer sends as a request of any
-- registered method, and no number of rounds that its handler waits, makes the program write
-- beyond the end of a decoder's input buffer.
request-WritesFit :
    (fb : Flatbuffers) (rounds : ℕ) (h : Handler) (req resp : List ℕ) (p : Platform) (r : Runtime)
    → WritesFit p r.trace
    → WritesFit p (handler_func fb request response (run_handler rounds) h req resp p r).1.trace
request-WritesFit fb rounds h req resp p r v =
    handler_func-keeps fb request response (run_handler rounds) (λ s. WritesFit p s.trace) p
      (run_handler-kept p (WritesFit p) (λ c tr w. (tt, w)) (λ c tr w. (tt, w)) (λ x tr w. (tt, w))
        (λ x tr w. (tt, w)) (λ bytes pts flags s. queue_input_buffer-WritesFit p s bytes pts flags)
        rounds)
      h req resp r v
