-- ===== src/Lib.antt =====
-- The native side of GrpcJniClient (app/src/main/cpp), the client of a CarPlay RPC service: it
-- offers remote methods to a peer over FlatBuffers messages, decodes the video stream that the
-- peer pushes, draws it into a window of the Java side, and tells the Java side of new IPv6
-- addresses.
--
-- Parts and files:
--   Prelude, Prelude/Int, Prelude/Dict: shared names, Boolean tests on numbers, signed integers,
--     and the map from method names to handlers.
--   Platform: the calls of JNI, EGL, GLES, the media codec, the native window, the operating
--     system and the RPC transport. Each call is put in front of a trace and answered by a
--     parameter, which may depend on the whole trace: a number, a handle (0 is null) or a status.
--     Platform/Sample has one on which all goes well.
--   Jni: app/src/main/cpp/rpc/source/JniClassLoaderHelper.cpp. Jni/Ledger counts local references
--     and attachment; Jni/Balance, Jni/Loading and Jni/Rules hold the theorems and the rules for
--     `withEnv`.
--   Messages: the tables of the *_generated.h files as records; the byte format is a parameter.
--     Messages/Ranges says which values the fields' C++ types hold; Messages/Library is what the
--     generated code uses of FlatBuffers, a parameter too;
--     Messages/Tables has the generated builders and Messages/Accessors the accessors and
--     verifiers; Messages/Verified and Messages/RoundTrip go
--     from a table back to its fields, Messages/Buffers through the bytes, as an implementation of
--     what the dial and the runtime use; Messages/Wire is a byte format to try it with.
--   Dial: app/src/main/cpp/rpc/include/NngUdsRpcPeerDial.hpp, the method table and the wrapper
--     that verifies a request, runs its handler and encodes the response; Dial/Methods.
--   PeerListener: app/src/main/cpp/rpc/include/NngUdsRpcPeerListener.hpp, the other end of the
--     connection, with PeerListener/Methods for its wrapper and PeerListener/Session for what the
--     client's calls do there.
--   Renderer: app/src/main/cpp/rpc/source/OesRenderer.cpp; Renderer/Objects, Renderer/Drawing.
--   NetLink: app/src/main/cpp/rpc/source/net/NetLinkMonitor.{h,cpp}; NetLink/Lifecycle for start
--     and stop, NetLink/Messages and NetLink/Messages/Delivery for the walk over a received
--     buffer, NetLink/Messages/Heard for what the Java side hears of it, NetLink/Loop for the loop of the thread around it, NetLink/Threads and
--     NetLink/Threads/Ending for that loop against `stop` on another thread.
--   BtRpcCall: app/src/main/cpp/rpc/source/CarplayBtRpcCall.cpp, the entries of an earlier
--     version, most of which is commented out; BtRpcCall/Session.
--   Runtime: app/src/main/cpp/rpc/source/CarplayRpcRuntime.cpp and include/CarplayRpcRuntime.h.
--     Runtime/State holds the members of the class as one record; Runtime/Codec is
--     queueInputBuffer, initMediaCodec and stopMediaCodec, Runtime/Codec/Input and Lifecycle what
--     they do, Codec/Live which decoder is alive after a trace, Codec/Accounts how many were made,
--     deleted and lost, Codec/Restart what a second initMediaCodec does, and Codec/OutputThread is
--     outputThreadFunc, which nothing starts any more; Runtime/Listener is initPullListener, its
--     callback and shutdownPullListener; Runtime/Handlers are the functions registered as remote
--     methods, with Runtime/Handlers/Memory, Faults, Waiting and Buffers for what they can do
--     wrong, Frame for what no handler touches and Decoder for the decoder that they call;
--     Runtime/Session are the JNI entries, with Runtime/Session/Table, Runtime/Session/Requests
--     and Runtime/Session/Peer; Runtime/Screen is the video thread, surfaceAvailable and
--     outputLoop, with Runtime/Screen/Frames, Runtime/Screen/Outputs, Screen/Handover
--     and Screen/Loop.
--     Step relations of two threads: Runtime/Screen/Threads is surfaceAvailable against
--     screenLooper, Runtime/Screen/Signal outputLoop against the wait of screenLooper,
--     Runtime/Teardown outputLoop against stopMediaCodec, and Runtime/Feeding queueInputBuffer
--     against it; Runtime/Restarts is any number of threads in outputLoop over
--     several streams. Teardown/Simulation, Teardown/Stopping, Feeding/Simulation, Feeding/Callback,
--     Screen/Threads/Paths, Simulation and Rounds, Screen/Signal/Simulation and
--     Screen/Signal/Rounds relate the functions to these steps, and the two files called Alternation
--     take a promise of the steps back to the functions.
--     Runtime/System runs all of it: an event is a JNI entry, a request or a frame that the
--     transport brings in, or some rounds of a thread; System/Client is what the peer is promised,
--     System/Refinement and System/Invariant relate a run to it, System/Decoder says which decoder
--     is called, System/Closing ends a run, System/Service follows a request from its bytes to its
--     handler, System/Stages and System/Pipeline a frame from the
--     peer to the window, System/Stream any number of them, and System/Quiet,
--     System/Entries and System/Video say which parts leave the resources alone.
--
-- A member function is a function from the platform and the state to a result and the next state,
-- so each part runs as one thread; only Runtime/Teardown, Runtime/Feeding, Runtime/Restarts,
-- Runtime/Screen/Threads, Runtime/Screen/Signal and NetLink/Threads interleave threads. A piece of
-- the program that can run into undefined behaviour or into an endless loop returns an `Outcome`:
-- `returned`, `faulted` or `looping`.
--
-- Bounds: `retry`, `render_loop` and `output_loop` take the number of rounds that are followed,
-- since the code's loops have no bound of their own; `looping` says that the loop still runs when
-- they are used up. `configuration_returns` gives a number that is enough. `walk_messages` takes a
-- number of rounds for each of its two loops, and more than the bytes left is enough, so for
-- `thread_loop` more than the 4096 of its buffer. Lengths and times are native natural numbers;
-- the code does no arithmetic on them that could overflow.
--
-- Not modelled: log output, Java exceptions, the mutex of the class loader, the worker threads and
-- sockets of the transport (libZmqIpcServer.a), the FlatBuffers library, the functions with an
-- empty or commented-out body (inputThreadFunc, kMediaCodecInputBufAvailable, initOpenGL,
-- notifySurfaceUnavailable, notifySurfaceInputEvent), the names of the enumeration in
-- rpc_generated.h, rpc_response_utils.hpp, which nothing includes, and the sources that the build does not compile (CarplayRpcClient.cpp,
-- native-lib.cpp and stubs).
mod Prelude
pub mod Platform
pub mod Jni
pub mod Messages
pub mod BtRpcCall
pub mod Dial
pub mod PeerListener
pub mod Renderer
pub mod NetLink
pub mod Runtime
