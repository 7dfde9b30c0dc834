-- ===== src/Dial.antt =====
-- app/src/main/cpp/rpc/include/NngUdsRpcPeerDial.hpp: the RPC peer. `start`, `stop`, `dispatch`,
-- `call_remote` and `recv_cb` are in the static library libZmqIpcServer.a, so they are calls of the
-- platform here. `H` stands for the handlers that a program registers; each has its request table.
pub mod Methods
use grpc_jni_client.Prelude.{ℕ, String, Bool, true, false, Option, none, some, List, if◌then◌else◌}
use grpc_jni_client.Prelude.Dict.{Dict}
use grpc_jni_client.Prelude.Dict
use grpc_jni_client.Platform.{
  Outcome, returned, outcome_map, Io, Action, pure, tell, ◌>>=◌, ◌>>◌, pipe_id, internal_pipe_event,
  rpc,
}
use grpc_jni_client.Messages.{Schema, Message, Flatbuffers, void_response}

-- `nng_pipe_ev`
pub data PipeEvent : Type 0 where
  add_pre add_post rem_post : PipeEvent

-- A pipe handler is held as the action that it makes of a pipe and an event.
pub record Dial (H : Type 0) : Type 0 where
  pub address : String
  pub num_workers : ℕ
  pub is_debug_mode : Bool
  pub on_pipe_event : Option (ℕ → PipeEvent → Action (Unit {0}))
  pub method_map : Dict H

unfoldable pub new_dial : (H : Type 0) → Dial H
new_dial H = record {
  address = "abstract://nng.rpc";
  num_workers = 16;
  is_debug_mode = false;
  on_pipe_event = none;
  method_map = Dict.empty;
}

module _ {H : Type 0} where
  -- `method_map[method_name] = wrapper`; the wrapper is `handler_func` of the handler.
  unfoldable pub register_method : String → H → Dial H → Dial H
  register_method name handler d = record d { method_map = Dict.insert name handler d.method_map }

  unfoldable pub registered : String → Dial H → Option H
  registered name d = Dict.lookup name d.method_map

  unfoldable pub set_pipe_handler : (ℕ → PipeEvent → Action (Unit {0})) → Dial H → Dial H
  set_pipe_handler handler d = record d { on_pipe_event = some handler }

  unfoldable pub set_rpc_debug_mode : Bool → Dial H → Dial H
  set_rpc_debug_mode enable d = record d { is_debug_mode = enable }

  -- Without a handler the event does not reach `internalNngPipeEvent` either.
  unfoldable pub pipe_cb : Dial H → ℕ → PipeEvent → Action (Unit {0})
  pipe_cb d pipe ev = elim d.on_pipe_event [
    | none ↦ pure tt
    | some handler ↦ (do handler pipe ev; tell (rpc (internal_pipe_event pipe)))
  ]

-- The wrapper that `register_method` builds: the request bytes and the response so far give the
-- response. `run` is what the handlers do, over the program's state `S`.
module _ {H S : Type 0} (fb : Flatbuffers) (request response : H → Schema)
    (run : (h : H) → Message (request h) → Io S (Outcome (Message (response h)))) where
  unfoldable pub handler_func : H → List ℕ → List ℕ → Io S (Outcome (List ℕ))
  handler_func h req_buf resp_out =
      if fb.verify_buffer (request h) req_buf
      then (do
        resp ← run h (fb.get_root (request h) req_buf)
        pure (outcome_map (fb.finish (response h)) resp))
      else pure (returned resp_out)
