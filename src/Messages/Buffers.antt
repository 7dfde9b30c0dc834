-- ===== src/Messages/Buffers.antt =====
-- From a table to the bytes that are sent and back: the generated functions over the FlatBuffers library
-- as an implementation of the interface that the dial and the runtime use.
use grpc_jni_client.Prelude.{◌≡◌, true, ◌&&◌}
use grpc_jni_client.Messages.{Schema, Message, Flatbuffers}
use grpc_jni_client.Messages.Library.{Library, LibraryRules}
use grpc_jni_client.Messages.Ranges.{IsTyped}
use grpc_jni_client.Messages.Tables.{create}
use grpc_jni_client.Messages.Accessors.{read, verify}
use grpc_jni_client.Messages.RoundTrip.{settled, built_table_read_back}

-- What one side builds of values of the fields' types, the other verifies and reads back.
abbrev pub IsLawful : Flatbuffers → Type 0
IsLawful fb =
    (s : Schema) (m : Message s)
    → IsTyped s m
    → (fb.verify_buffer s (fb.finish s m) ≡ true) × (fb.get_root s (fb.finish s m) ≡ settled s m)

-- `Create…` and `Finish`; `VerifyBuffer`; `GetRoot` and the accessors.
abbrev pub generated : Library → Flatbuffers
generated lib = record {
  verify_buffer = λ s bytes. lib.verify_root bytes && verify lib s (lib.get_root bytes);
  get_root = λ s bytes. read lib s (lib.get_root bytes);
  finish = λ s m. lib.finish (create s m);
}

-- Over a library that obeys its rules, for each table whose fields hold values of their
-- types: the bytes of a message that `Create…` builds
-- pass `VerifyBuffer`, and the accessors on their root return every field as it was given, absent
-- strings and vectors and default values included, but for a floating-point minus zero, which is read as
-- zero.
pub built_bytes_read_back :
    (lib : Library) (s : Schema) (m : Message s)
    → LibraryRules lib
    → IsTyped s m
    → let fb = generated lib in
      (fb.verify_buffer s (fb.finish s m) ≡ true) × (fb.get_root s (fb.finish s m) ≡ settled s m)
built_bytes_read_back lib s m rules v =
    let (verified, same) = built_table_read_back lib rules s m v in
    (
      rw (rules.verify_root_rule (create s m), rules.root_rule (create s m)) verified,
      rw (rules.root_rule (create s m)) same,
    )

pub generated-IsLawful : (lib : Library) → LibraryRules lib → IsLawful (generated lib)
generated-IsLawful lib rules s m v = built_bytes_read_back lib s m rules v
