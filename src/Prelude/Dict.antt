-- ===== src/Prelude/Dict.antt =====
-- `std::unordered_map` with string keys. The program never iterates over one but to log it.
use mathlib.Core.Path.{◌≡◌, refl}
use mathlib.Core.Bool.{Bool, true, false}
use mathlib.Core.Option.{Option, none, some}
use mathlib.Core.List.{List, [], ◌∷◌}
use native.Mathlib.Omega.{arith}
use Prim.Native.String.{String}
use text.Mathlib.Text.{◌==◌}
use text.Mathlib.TextEquality.{eq_iff}

pub record Dict {ℓ} (V : Type ℓ) : Type ℓ where
  entries : List (String × V)

abbrev pub choose {ℓ} : {A : Type ℓ} → Bool → A → A → A
choose true a b = a
choose false a b = b

module _ {ℓ} {V : Type ℓ} where
  find : String → List (String × V) → Option V
  find k [] = none
  find k ((j, v) ∷ m) = choose (j == k) (some v) (find k m)

  assign : String → V → List (String × V) → List (String × V)
  assign k v [] = (k, v) ∷ []
  assign k v ((j, w) ∷ m) = choose (j == k) ((j, v) ∷ m) ((j, w) ∷ assign k v m)

  pub empty : Dict V
  empty = record { entries = [] }

  unfoldable pub lookup : String → Dict V → Option V
  unfolding find
  lookup k d = find k d.entries

  -- m[k] = v
  unfoldable pub insert : String → V → Dict V → Dict V
  unfolding assign
  insert k v d = record { entries = assign k v d.entries }

  find-assign :
      (k j : String) (v : V) (m : List (String × V))
      → find j (assign k v m) ≡ choose (k == j) (some v) (find j m)
  unfolding find assign
  find-assign k j v [] = refl
  find-assign k j v ((i, w) ∷ m) =
      ground (arith, eq_iff k j, eq_iff i k, eq_iff i j, find-assign k j v m)

  pub lookup-insert :
      (k j : String) (v : V) (d : Dict V)
      → lookup j (insert k v d) ≡ choose (k == j) (some v) (lookup j d)
  unfolding lookup insert
  lookup-insert k j v d = find-assign k j v d.entries

  pub lookup-empty : (k : String) → lookup k empty ≡ none
  unfolding lookup empty find
  lookup-empty k = refl
