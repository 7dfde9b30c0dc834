-- ===== src/Runtime.antt =====
-- app/src/main/cpp/rpc/source/CarplayRpcRuntime.cpp and include/CarplayRpcRuntime.h: the object that
-- ties the RPC peer, the decoder, the renderer and the Java side together, and the JNI entries.
pub mod State
pub mod Codec
pub mod Listener
pub mod Handlers
pub mod Session
pub mod Sample
mod Examples
pub mod Screen
pub mod Teardown
pub mod Feeding
pub mod Restarts
pub mod System
