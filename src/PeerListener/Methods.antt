-- ===== src/PeerListener/Methods.antt =====
-- What a registered wrapper does with a buffer.
use grpc_jni_client.Prelude.{
  ℕ, ◌≡◌, refl, String, true, false, some, List, arith, str_eq, if◌then◌else◌,
}
use grpc_jni_client.Prelude.Dict.{lookup-insert}
use grpc_jni_client.Platform.{Outcome, returned, outcome_map, Io, Platform}
use grpc_jni_client.Messages.{Schema, Message, Flatbuffers}
use grpc_jni_client.PeerListener.{PeerListener, wrapper, register_method, registered}

module _ {S : Type 0} (fb : Flatbuffers) (request response : Schema)
    (handler : Message request → Io S (Outcome (Message response))) where
  -- A registration replaces the wrapper of its own name and touches no other.
  pub registered-register_method :
      (k j : String) (l : PeerListener S)
      → registered j (register_method fb request response k handler l)
        ≡ (if str_eq k j then some (wrapper fb request response handler) else registered j l)
  unfolding registered register_method
  registered-register_method k j l =
      ground (arith, lookup-insert k j (wrapper fb request response handler) l.method_map)

  -- A buffer that does not verify runs no handler: the state and the response stay as they were.
  pub wrapper_unverified :
      (req resp : List ℕ) (p : Platform) (s : S)
      → fb.verify_buffer request req ≡ false
      → wrapper fb request response handler req resp p s ≡ (returned resp, s)
  unfolding wrapper
  wrapper_unverified req resp p s e = rw e

  -- A buffer that verifies and reads as a message runs the handler on that message.
  pub wrapper_verified :
      (req resp : List ℕ) (m : Message request) (p : Platform) (s : S)
      → fb.verify_buffer request req ≡ true
      → fb.get_root request req ≡ m
      → wrapper fb request response handler req resp p s
        ≡ (let (o, s') = handler m p s in (outcome_map (fb.finish response) o, s'))
  unfolding wrapper
  wrapper_verified req resp m p s e f = rw (e, f) refl
