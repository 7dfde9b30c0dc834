-- ===== src/Messages/Library.antt =====
-- What the generated tables use of the FlatBuffers library, which is third-party code: a parameter,
-- with what its documentation says about a table that was just built.
use grpc_jni_client.Prelude.{
  ℕ, ℤ, ◌≡◌, Bool, true, false, not, ◌&&◌, ◌==◌, Option, none, some, String, List, [], ◌∷◌,
  if◌then◌else◌,
}
use grpc_jni_client.Messages.{Float}
use grpc_jni_client.Messages.Ranges.{Scalar, width, InRange, FloatFits, IsByteVector}

-- One call on a builder between `StartTable` and `EndTable`: `AddElement` with the slot, the type
-- (the width in bytes for a floating-point value), the value and the default, which is zero for a
-- floating-point value; or `AddOffset` of a string or of a vector, `none` for a null.
pub data Write : Type 0 where
  element : ℕ → Scalar → ℤ → ℤ → Write
  float_element : ℕ → ℕ → Float → Write
  string : ℕ → Option String → Write
  vector : ℕ → Option (List ℕ) → Write

abbrev pub slot : Write → ℕ
slot (element k _ _ _) = k
slot (float_element k _ _) = k
slot (string k _) = k
slot (vector k _) = k

-- What is left of a floating-point value: a value that compares equal to the default 0.0 is not
-- written, so minus zero is read as zero.
abbrev pub settled_float : Float → Float
settled_float v = if v.magnitude == 0 then record { negative = false; magnitude = 0 } else v

-- The write to a slot, and whether no slot is written twice.
abbrev pub written : ℕ → List Write → Option Write
written k [] = none
written k (w ∷ ws) = if slot w == k then some w else written k ws

abbrev pub absent : ℕ → List Write → Bool
absent k [] = true
absent k (w ∷ ws) = not (slot w == k) && absent k ws

abbrev pub distinct : List Write → Bool
distinct [] = true
distinct (w ∷ ws) = absent (slot w) ws && distinct ws

-- `build` is the table that its builder's calls leave.
-- `finish` gives the bytes of the builder after `Finish` of that table, and `get_root` the root table of
-- a buffer; `verify_root` is what `VerifyBuffer` looks at besides the table's own `Verify`.
-- `verify_string` and `verify_vector` are applied to what a slot refers to.
pub record Library : Type 1 where
  pub Table : Type 0
  pub build : List Write → Table
  pub get_field : ℕ → Scalar → ℤ → Table → ℤ
  pub get_float : ℕ → ℕ → Table → Float
  pub get_string : ℕ → Table → Option String
  pub get_vector : ℕ → Table → Option (List ℕ)
  pub verify_table_start : Table → Bool
  pub verify_field : ℕ → ℕ → Table → Bool
  pub verify_offset : ℕ → Table → Bool
  pub verify_string : ℕ → Table → Bool
  pub verify_vector : ℕ → Table → Bool
  pub end_table : Table → Bool
  pub finish : List Write → List ℕ
  pub get_root : List ℕ → Table
  pub verify_root : List ℕ → Bool

-- A slot that was written once reads as it was written, if its value is one of its type and it is read
-- with the type and the default of the write, and verifies.
pub record LibraryRules (lib : Library) : Type 0 where
  pub field_rule :
      (k : ℕ) (t : Scalar) (v d : ℤ) (ws : List Write)
      → InRange t v
      → distinct ws ≡ true
      → written k ws ≡ some (element k t v d)
      → (lib.get_field k t d (lib.build ws) ≡ v)
        × (lib.verify_field k (width t) (lib.build ws) ≡ true)
  pub float_rule :
      (k size : ℕ) (v : Float) (ws : List Write)
      → FloatFits size v
      → distinct ws ≡ true
      → written k ws ≡ some (float_element k size v)
      → (lib.get_float k size (lib.build ws) ≡ settled_float v)
        × (lib.verify_field k size (lib.build ws) ≡ true)
  pub string_rule :
      (k : ℕ) (s : Option String) (ws : List Write)
      → distinct ws ≡ true
      → written k ws ≡ some (string k s)
      → (lib.get_string k (lib.build ws) ≡ s)
        × (lib.verify_offset k (lib.build ws) ≡ true)
        × (lib.verify_string k (lib.build ws) ≡ true)
  pub vector_rule :
      (k : ℕ) (bytes : Option (List ℕ)) (ws : List Write)
      → IsByteVector bytes
      → distinct ws ≡ true
      → written k ws ≡ some (vector k bytes)
      → (lib.get_vector k (lib.build ws) ≡ bytes)
        × (lib.verify_offset k (lib.build ws) ≡ true)
        × (lib.verify_vector k (lib.build ws) ≡ true)
  pub start_rule : (ws : List Write) → lib.verify_table_start (lib.build ws) ≡ true
  pub end_rule : (ws : List Write) → lib.end_table (lib.build ws) ≡ true
  pub root_rule : (ws : List Write) → lib.get_root (lib.finish ws) ≡ lib.build ws
  pub verify_root_rule : (ws : List Write) → lib.verify_root (lib.finish ws) ≡ true
