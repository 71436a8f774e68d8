-- ===== src/Prelude/Dict.antt =====
-- A JavaScript `Map` with text keys: its entries in the order of the first insertion.
use Prim.Native.String.{String}
use mathlib.Core.Path.{◌≡◌, refl, subst}
use mathlib.Core.Bool.{Bool, true, false}
use mathlib.Core.List.{List, [], ◌∷◌}
use mathlib.Core.Option.{Option, none, some, some-injective}
use native.Mathlib.Omega.{arith}
use text.Mathlib.Text.{◌==◌ as str_eq}
use text.Mathlib.TextEquality.{eq_iff}
use hood_sentry.Prelude.Tests.{if◌then◌else◌}
use hood_sentry.Prelude.Items.{All}

module _ {ℓ} {V : Type ℓ} where
  -- `map.get(key)`
  unfoldable pub get_value : String → List (String × V) → Option V
  get_value key [] = none
  get_value key ((k, old) ∷ entries) =
      let later = get_value key entries in if str_eq k key then some old else later

  -- `map.set(key, value)`: an entry that is there keeps its place.
  unfoldable pub set_value : String → V → List (String × V) → List (String × V)
  set_value key value [] = (key, value) ∷ []
  set_value key value ((k, old) ∷ entries) =
      if str_eq k key then (k, value) ∷ entries else (k, old) ∷ set_value key value entries

  pub get_value-set_value :
      (key other : String) (value : V) (entries : List (String × V))
      → get_value other (set_value key value entries)
        ≡ (if str_eq key other then some value else get_value other entries)
  unfolding get_value set_value
  get_value-set_value key other value [] = refl
  get_value-set_value key other value ((k, old) ∷ entries) =
      let same_k = eq_iff k key in
      let other_k = eq_iff k other in
      let same_other = eq_iff key other in
      ground (arith, same_k, other_k, same_other, get_value-set_value key other value entries)

  -- A property of the values that every entry has, and the new one.
  pub set_value-All {κ} :
      (P : V → Type κ) (k : String) (v : V) (m : List (String × V))
      → P v
      → All (λ e. P e.1) m
      → All (λ e. P e.1) (set_value k v m)
  unfolding set_value
  set_value-All P k v [] p h = (p, tt)
  set_value-All P k v ((j, w) ∷ m) p (q, h) =
      elim (str_eq j k)
        as (λ b. All (λ e. P e.1) (if b then (j, v) ∷ m else (j, w) ∷ set_value k v m)) [
          | true ↦ (p, h)
          | false ↦ (q, set_value-All P k v m p h)
        ]

  pub get_value-All {κ} :
      (P : V → Type κ) (k : String) (m : List (String × V)) {v : V}
      → All (λ e. P e.1) m
      → get_value k m ≡ some v
      → P v
  unfolding get_value
  get_value-All P k [] h e = cc
  get_value-All P k ((j, w) ∷ m) (q, h) e = go (get_value-All P k m h) (str_eq j k) e
    where
      go :
          {v : V}
          → (get_value k m ≡ some v → P v)
          → (b : Bool) → (if b then some w else get_value k m) ≡ some v
          → P v
      go ih true d = subst P (some-injective _ _ d) q
      go ih false d = ih d
