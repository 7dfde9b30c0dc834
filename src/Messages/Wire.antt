-- ===== src/Messages/Wire.antt =====
-- A byte format by which the theorems on messages are tried: a buffer is the list of its builder's calls.
-- Not the format of FlatBuffers, which is third-party code; it obeys the same rules.
use grpc_jni_client.Prelude.{
  ℕ, zero, suc, ℤ, pos, negsuc, ◌≡◌, refl, Bool, true, false, Option, none, some, List, [], ◌∷◌,
  ◌++◌, length, String,
}
use Prim.Native.Nat.{Ordering, compare}
use Prim.Native.Char.{IsLt, IsScalar, Char, char, code, nul}
use text.Mathlib.TextEquality.{Char-path}
use grpc_jni_client.Messages.{Float}
use grpc_jni_client.Messages.Ranges.{Scalar, uint8, int8, int32, uint32, int64}
use grpc_jni_client.Messages.Library.{
  Write, element, float_element, settled_float, string, vector, written, Library, LibraryRules,
}

-- `IsScalar` is three comparisons under helpers that are private to its module; these have the same
-- clauses.
abbrev Both : Ordering → Ordering → Type 0
Both Ordering.lt o = IsLt o
Both Ordering.eq _ = ⊥
Both Ordering.gt _ = ⊥

abbrev CharCode : Ordering → Ordering → Ordering → Type 0
CharCode Ordering.lt _ _ = Unit
CharCode Ordering.eq o p = Both o p
CharCode Ordering.gt o p = Both o p

abbrev dec_IsLt : (o : Ordering) → Dec (IsLt o)
dec_IsLt Ordering.lt = yes tt
dec_IsLt Ordering.eq = no (λ e. e)
dec_IsLt Ordering.gt = no (λ e. e)

abbrev dec_both : (o p : Ordering) → Dec (Both o p)
dec_both Ordering.lt p = dec_IsLt p
dec_both Ordering.eq _ = no (λ e. e)
dec_both Ordering.gt _ = no (λ e. e)

abbrev dec_scalar : (o p q : Ordering) → Dec (CharCode o p q)
dec_scalar Ordering.lt _ _ = yes tt
dec_scalar Ordering.eq p q = dec_both p q
dec_scalar Ordering.gt p q = dec_both p q

abbrev pick : (n : ℕ) → Dec (IsScalar n) → Char
pick n (yes s) = char n s
pick n (no _) = nul

abbrev char_of : ℕ → Char
char_of n = pick n (dec_scalar (compare n 55296) (compare 57343 n) (compare n 1114112))

pick-yes : (n : ℕ) (s : IsScalar n) (d : Dec (IsScalar n)) → pick n d ≡ char n s
pick-yes n s (yes t) = Char-path (char n t) (char n s) refl
pick-yes n s (no f) = absurd (f s)

char_of-code : (c : Char) → char_of (code c) ≡ c
char_of-code (char n s) = pick-yes n s _

abbrev codes : String → List ℕ
codes String.[] = []
codes (String.◌∷◌ c s) = code c ∷ codes s

abbrev text_size : String → ℕ
text_size String.[] = 0
text_size (String.◌∷◌ c s) = suc (text_size s)

abbrev read_text : ℕ → List ℕ → String × List ℕ
read_text zero l = (String.[], l)
read_text (suc n) [] = (String.[], [])
read_text (suc n) (x ∷ l) = let (s, rest) = read_text n l in (String.◌∷◌ (char_of x) s, rest)

read_text-codes :
    (s : String) (rest : List ℕ) → read_text (text_size s) (codes s ++ rest) ≡ (s, rest)
read_text-codes String.[] rest = refl
read_text-codes (String.◌∷◌ c s) rest = simp (read_text-codes s rest, char_of-code c)

abbrev scalar_code : Scalar → ℕ
scalar_code uint8 = 0
scalar_code int8 = 1
scalar_code int32 = 2
scalar_code uint32 = 3
scalar_code int64 = 4

abbrev scalar_of : ℕ → Scalar
scalar_of zero = uint8
scalar_of (suc zero) = int8
scalar_of (suc (suc zero)) = int32
scalar_of (suc (suc (suc zero))) = uint32
scalar_of (suc (suc (suc (suc _)))) = int64

scalar_of-scalar_code : (t : Scalar) → scalar_of (scalar_code t) ≡ t
scalar_of-scalar_code uint8 = refl
scalar_of-scalar_code int8 = refl
scalar_of-scalar_code int32 = refl
scalar_of-scalar_code uint32 = refl
scalar_of-scalar_code int64 = refl

abbrev int_of : ℕ → ℕ → ℤ
int_of zero n = pos n
int_of (suc _) n = negsuc n

abbrev sign : ℤ → ℕ
sign (pos _) = 0
sign (negsuc _) = 1

abbrev size_of : ℤ → ℕ
size_of (pos n) = n
size_of (negsuc n) = n

int_of-sign : (v : ℤ) → int_of (sign v) (size_of v) ≡ v
int_of-sign (pos n) = refl
int_of-sign (negsuc n) = refl

abbrev float_of : ℕ → ℕ → Float
float_of zero n = record { negative = false; magnitude = n }
float_of (suc _) n = record { negative = true; magnitude = n }

abbrev float_sign : Bool → ℕ
float_sign false = 0
float_sign true = 1

signed : (b : Bool) (n : ℕ) → float_of (float_sign b) n ≡ record { negative = b; magnitude = n }
signed false n = refl
signed true n = refl

float_of-float_sign : (v : Float) → float_of (float_sign v.negative) v.magnitude ≡ v
float_of-float_sign v = signed v.negative v.magnitude

abbrev take_bytes : ℕ → List ℕ → List ℕ × List ℕ
take_bytes zero l = ([], l)
take_bytes (suc n) [] = ([], [])
take_bytes (suc n) (x ∷ l) = let (b, rest) = take_bytes n l in (x ∷ b, rest)

take_bytes-append : (b rest : List ℕ) → take_bytes (length b) (b ++ rest) ≡ (b, rest)
take_bytes-append [] rest = refl
take_bytes-append (x ∷ b) rest = simp (take_bytes-append b rest)

-- A call with what follows it.
abbrev put : Write → List ℕ → List ℕ
put (element k t v d) rest = 0 ∷ k ∷ scalar_code t ∷ sign v ∷ size_of v ∷ sign d ∷ size_of d ∷ rest
put (string k none) rest = 1 ∷ k ∷ rest
put (string k (some s)) rest = 2 ∷ k ∷ text_size s ∷ codes s ++ rest
put (vector k none) rest = 3 ∷ k ∷ rest
put (float_element k size v) rest = 5 ∷ k ∷ size ∷ float_sign v.negative ∷ v.magnitude ∷ rest
put (vector k (some b)) rest = 4 ∷ k ∷ length b ∷ b ++ rest

abbrev with_text : ℕ → String × List ℕ → Write × List ℕ
with_text k (s, rest) = (string k (some s), rest)

abbrev with_bytes : ℕ → List ℕ × List ℕ → Write × List ℕ
with_bytes k (b, rest) = (vector k (some b), rest)

abbrev get : List ℕ → Write × List ℕ
get (zero ∷ k ∷ t ∷ a ∷ b ∷ c ∷ d ∷ rest) =
    (element k (scalar_of t) (int_of a b) (int_of c d), rest)
get (suc zero ∷ k ∷ rest) = (string k none, rest)
get (suc (suc zero) ∷ k ∷ n ∷ rest) = with_text k (read_text n rest)
get (suc (suc (suc zero)) ∷ k ∷ rest) = (vector k none, rest)
get (suc (suc (suc (suc zero))) ∷ k ∷ n ∷ rest) = with_bytes k (take_bytes n rest)
get (suc (suc (suc (suc (suc _)))) ∷ k ∷ size ∷ a ∷ b ∷ rest) =
    (float_element k size (float_of a b), rest)
get _ = (string 0 none, [])

get-put : (w : Write) (rest : List ℕ) → get (put w rest) ≡ (w, rest)
get-put (element k t v d) rest = rw (scalar_of-scalar_code t, int_of-sign v, int_of-sign d) refl
get-put (string k none) rest = refl
get-put (string k (some s)) rest = rw (read_text-codes s rest) refl
get-put (vector k none) rest = refl
get-put (float_element k size v) rest = rw (float_of-float_sign v) refl
get-put (vector k (some b)) rest = rw (take_bytes-append b rest) refl

abbrev put_all : List Write → List ℕ
put_all [] = []
put_all (w ∷ ws) = put w (put_all ws)

abbrev get_all : ℕ → List ℕ → List Write
get_all zero l = []
get_all (suc n) l = let (w, rest) = get l in w ∷ get_all n rest

get_all-put_all : (ws : List Write) → get_all (length ws) (put_all ws) ≡ ws
get_all-put_all [] = refl
get_all-put_all (w ∷ ws) = rw (get-put w (put_all ws), get_all-put_all ws) refl

abbrev decode : List ℕ → List Write
decode [] = []
decode (n ∷ l) = get_all n l

decode-encode : (ws : List Write) → decode (length ws ∷ put_all ws) ≡ ws
decode-encode ws = get_all-put_all ws

abbrev field_of : ℤ → Option Write → ℤ
field_of d (some (element _ _ v _)) = v
field_of d _ = d

abbrev read_float : Option Write → Float
read_float (some (float_element _ _ v)) = settled_float v
read_float _ = record { negative = false; magnitude = 0 }

abbrev string_of : Option Write → Option String
string_of (some (string _ s)) = s
string_of _ = none

abbrev vector_of : Option Write → Option (List ℕ)
vector_of (some (vector _ bytes)) = bytes
vector_of _ = none

abbrev pub calls : Library
calls = record {
  Table = List Write;
  build = λ ws. ws;
  get_field = λ k t d ws. field_of d (written k ws);
  get_float = λ k size ws. read_float (written k ws);
  get_string = λ k ws. string_of (written k ws);
  get_vector = λ k ws. vector_of (written k ws);
  verify_table_start = λ ws. true;
  verify_field = λ k size ws. true;
  verify_offset = λ k ws. true;
  verify_string = λ k ws. true;
  verify_vector = λ k ws. true;
  end_table = λ ws. true;
  finish = λ ws. length ws ∷ put_all ws;
  get_root = decode;
  verify_root = λ bytes. true;
}

pub calls-LibraryRules : LibraryRules calls
calls-LibraryRules = record {
  field_rule = λ k t v d ws r h e. (rw e refl, refl);
  float_rule = λ k size v ws r h e. (rw e refl, refl);
  string_rule = λ k s ws h e. (rw e refl, refl, refl);
  vector_rule = λ k bytes ws r h e. (rw e refl, refl, refl);
  start_rule = λ ws. refl;
  end_rule = λ ws. refl;
  root_rule = decode-encode;
  verify_root_rule = λ ws. refl;
}
