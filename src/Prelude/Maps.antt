-- ===== src/Prelude/Maps.antt =====
-- `BTreeMap<String, V>` as a list of entries in the order of the keys, which is the order of
-- iteration. `BTreeSet<String>` is a map into the unit type.
use Prim.Native.Nat.{Ordering}
use Prim.Native.String.{String, compare}
use mathlib.Core.Path.{◌≡◌, refl}
use mathlib.Core.Bool.{Bool, true, false, ◌||◌}
use mathlib.Core.Option.{Option, none, some}
use mathlib.Core.List.{List, [], ◌∷◌}
use native.Mathlib.Omega.{arith}
use text.Mathlib.TextEquality.{path_by_compare}
use text.Mathlib.TextPositions.{compare_refl}
use wiki_coding.Prelude.Tests.{◌==◌, string_eq, if◌then◌else◌}

abbrev pub Map {ℓ} : Type ℓ → Type ℓ
Map V = List (String × V)

abbrev pub StringSet : Type 0
StringSet = Map (Unit {0})

abbrev pub is_some {ℓ} : {A : Type ℓ} → Option A → Bool
is_some none = false
is_some (some a) = true

module _ {ℓ} {V : Type ℓ} where
  unfoldable pub get : String → Map V → Option V
  get k [] = none
  get k ((j, v) ∷ m) = if k == j then some v else get k m

  unfoldable pub insert : String → V → Map V → Map V
  insert k v [] = (k, v) ∷ []
  insert k v ((j, w) ∷ m) =
      let rest = insert k v m in
      elim (compare k j) [
        | Ordering.lt ↦ (k, v) ∷ (j, w) ∷ m
        | Ordering.eq ↦ (k, v) ∷ m
        | Ordering.gt ↦ (j, w) ∷ rest
      ]

  unfoldable pub remove : String → Map V → Map V
  remove k [] = []
  remove k ((j, v) ∷ m) = let rest = remove k m in if k == j then m else (j, v) ∷ rest

  unfoldable pub contains_key : String → Map V → Bool
  unfolding get
  contains_key k m = is_some (get k m)

  abbrev pub values : Map V → List V
  values [] = []
  values ((k, v) ∷ m) = v ∷ values m

  -- `for value in map.values_mut()`.
  unfoldable pub map_values : (V → V) → Map V → Map V
  map_values f [] = []
  map_values f ((k, v) ∷ m) = (k, f v) ∷ map_values f m

  -- `*map.get_mut(key) = f(..)`: nothing is changed where the key is missing.
  unfoldable pub update : String → (V → V) → Map V → Map V
  update k f [] = []
  update k f ((j, v) ∷ m) = if k == j then (j, f v) ∷ m else (j, v) ∷ update k f m

  -- What is read after an insertion.
  pub get-insert :
      (k j : String) (v : V) (m : Map V)
      → get j (insert k v m) ≡ (if j == k then some v else get j m)
  unfolding get insert
  get-insert k j v [] = refl
  get-insert k j v ((i, w) ∷ m) =
      ground (arith, path_by_compare k i, compare_refl k, get-insert k j v m)

  pub get-update :
      (k j : String) (f : V → V) (m : Map V)
      → get j (update k f m)
        ≡ (if j == k then elim (get j m) [ none ↦ none | some v ↦ some (f v) ] else get j m)
  unfolding get update
  get-update k j f [] = ground arith
  get-update k j f ((i, w) ∷ m) = ground (arith, get-update k j f m)

  pub get-remove : (k j : String) (m : Map V) → (j == k) ≡ false → get j (remove k m) ≡ get j m
  unfolding get remove
  get-remove k j [] other = refl
  get-remove k j ((i, w) ∷ m) other = ground (arith, get-remove k j m other)

  pub get-map_values :
      (k : String) (f : V → V) (m : Map V)
      → get k (map_values f m) ≡ elim (get k m) [ none ↦ none | some v ↦ some (f v) ]
  unfolding get map_values
  get-map_values k f [] = refl
  get-map_values k f ((i, w) ∷ m) = ground (arith, get-map_values k f m)

pub contains_key-insert :
    (k j : String) (m : StringSet) → contains_key j (insert k tt m) ≡ ((j == k) || contains_key j m)
unfolding contains_key
contains_key-insert k j m = ground (arith, get-insert k j tt m)
