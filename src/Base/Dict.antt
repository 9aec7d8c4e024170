-- ===== src/Base/Dict.antt =====
-- A map from texts in key order: base::DictValue, base::flat_map, std::map<std::string, _> and
-- std::map<GURL, _>, which is ordered by the URL's spec.
use Prim.Native.Nat.{Ordering}
use Prim.Native.String.{String, compare}
use mathlib.Core.Path.{◌≡◌, refl}
use mathlib.Core.Bool.{Bool}
use mathlib.Core.List.{List, [], ◌∷◌}
use mathlib.Core.Option.{Option, none, some}
use native.Mathlib.Omega.{arith}
use text.Mathlib.TextEquality.{eq_iff}
use chromium_adblock.Base.Tests.{◌=s=◌, if◌then◌else◌, is_some}

abbrev pub Dict : Type 0 → Type 0
Dict V = List (String × V)

module _ {V : Type 0} where
  -- `map.find(key)`: the value, or `none` for `end()`.
  unfoldable pub find : Dict V → String → Option V
  find [] key = none
  find ((name, value) ∷ entries) key =
      let later = find entries key in if name =s= key then some value else later

  -- `map[key] = new_value`: the key order is kept and the value of a known key replaced.
  unfoldable pub set : Dict V → String → V → Dict V
  set [] key new_value = (key, new_value) ∷ []
  set ((name, value) ∷ entries) key new_value =
      let later = set entries key new_value in
      elim (compare name key) [
        | Ordering.eq ↦ (key, new_value) ∷ entries
        | Ordering.gt ↦ (key, new_value) ∷ (name, value) ∷ entries
        | Ordering.lt ↦ (name, value) ∷ later
      ]

  -- `map.erase(key)`.
  unfoldable pub erase : Dict V → String → Dict V
  erase [] key = []
  erase ((name, value) ∷ entries) key =
      let later = erase entries key in if name =s= key then later else (name, value) ∷ later

  unfoldable pub contains : Dict V → String → Bool
  unfolding find
  contains entries key = is_some (find entries key)

  pub find-set :
      (entries : Dict V) (key other : String) (new_value : V)
      → find (set entries key new_value) other
        ≡ (if key =s= other then some new_value else find entries other)
  unfolding find set
  find-set [] key other new_value = refl
  find-set ((name, value) ∷ entries) key other new_value = ground (
    arith,
    find-set entries key other new_value,
    eq_iff name key,
    eq_iff name other,
    eq_iff key other,
  )

  pub find-erase :
      (entries : Dict V) (key other : String)
      → find (erase entries key) other ≡ (if key =s= other then none else find entries other)
  unfolding find erase
  find-erase [] key other = ground arith
  find-erase ((name, value) ∷ entries) key other =
      ground
        (arith, find-erase entries key other, eq_iff name key, eq_iff name other, eq_iff key other)
