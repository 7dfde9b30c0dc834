-- ===== src/PeerListener.antt =====
-- app/src/main/cpp/rpc/include/NngUdsRpcPeerListener.hpp: the other end of the RPC connection. `start`,
-- `stop`, `run_forever`, `dispatch`, `call_remote` and `recv_cb` are in the static library
-- libZmqIpcServer.a: the socket, the contexts and the pending requests, which only these use, are left
-- out. `S` is the state of the program that registers the handlers.
pub mod Methods
pub mod Session
mod Examples
use grpc_jni_client.Prelude.{ℕ, String, Option, List, if◌then◌else◌}
use grpc_jni_client.Prelude.Dict.{Dict}
use grpc_jni_client.Prelude.Dict
use grpc_jni_client.Platform.{Outcome, returned, outcome_map, Io, pure, ◌>>=◌}
use grpc_jni_client.Messages.{Schema, Message, Flatbuffers}

-- From the request bytes and the response so far to the response.
abbrev pub HandlerFunc : Type 0 → Type 0
HandlerFunc S = List ℕ → List ℕ → Io S (Outcome (List ℕ))

pub record PeerListener (S : Type 0) : Type 0 where
  pub address : String
  pub num_workers : ℕ
  pub method_map : Dict (HandlerFunc S)

unfoldable pub new_peer_listener : (S : Type 0) → PeerListener S
new_peer_listener S = record {
  address = "abstract://nng.rpc";
  num_workers = 16;
  method_map = Dict.empty;
}

module _ {S : Type 0} where
  -- The wrapper: `VerifyBuffer<RequestT>`, `GetRoot<RequestT>`, the handler, and `Finish` of its result.
  unfoldable pub wrapper :
      Flatbuffers
      → (request response : Schema) → (Message request → Io S (Outcome (Message response)))
      → HandlerFunc S
  wrapper fb request response handler req_buf resp_out =
      if fb.verify_buffer request req_buf
      then (do
        resp ← handler (fb.get_root request req_buf)
        pure (outcome_map (fb.finish response) resp))
      else pure (returned resp_out)

  -- `method_map[method_name] = wrapper`
  unfoldable pub register_method :
      Flatbuffers
      → (request response : Schema) → String
      → (Message request → Io S (Outcome (Message response)))
      → PeerListener S
      → PeerListener S
  register_method fb request response method_name handler l = record l {
    method_map = Dict.insert method_name (wrapper fb request response handler) l.method_map;
  }

  unfoldable pub registered : String → PeerListener S → Option (HandlerFunc S)
  registered method_name l = Dict.lookup method_name l.method_map
