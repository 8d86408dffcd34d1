-- ===== src/Prelude/UnorderedMap.antt =====
-- `std::unordered_map` with string keys, as an association list. The standard leaves its iteration
-- order open; here it is the list's.
use Prim.Native.String.{String}
use mathlib.Core.List.{List, [], ◌∷◌, ◌++◌}
use mathlib.Core.Option.{Option, none, some}
use mathlib.Core.Bool.{false}
use mathlib.Core.Path.{◌≡◌, refl}
use native.Mathlib.Omega.{arith}
use text.Mathlib.TextEquality.{eq_iff}
use city_life_core.Prelude.Tests.{if◌then◌else◌, is_some}
use city_life_core.Prelude.Text.{str_eq}

abbrev pub UnorderedMap {ℓ} : Type ℓ → Type ℓ
UnorderedMap V = List (String × V)

module _ {ℓ} {V : Type ℓ} where
  -- find
  unfoldable pub find : String → UnorderedMap V → Option V
  find k [] = none
  find k ((j, v) ∷ m) = if str_eq j k then some v else find k m

  -- operator[] and assignment; an `emplace` of a key that is not there
  unfoldable pub assign : String → V → UnorderedMap V → UnorderedMap V
  assign k v [] = (k, v) ∷ []
  assign k v ((j, w) ∷ m) = if str_eq j k then (k, v) ∷ m else (j, w) ∷ assign k v m

  -- erase
  unfoldable pub erase : String → UnorderedMap V → UnorderedMap V
  erase k [] = []
  erase k ((j, v) ∷ m) = let rest = erase k m in if str_eq j k then rest else (j, v) ∷ rest

  pub find-assign :
      (k j : String) (v : V) (m : UnorderedMap V)
      → find j (assign k v m) ≡ (if str_eq k j then some v else find j m)
  unfolding find assign
  find-assign k j v [] = refl
  find-assign k j v ((i, w) ∷ m) =
      ground (arith, eq_iff k j, eq_iff i k, eq_iff i j, find-assign k j v m)

  pub find-erase :
      (k j : String) (m : UnorderedMap V)
      → find j (erase k m) ≡ (if str_eq k j then none else find j m)
  unfolding find erase
  find-erase k j [] = ground arith
  find-erase k j ((i, v) ∷ m) = ground (arith, find-erase k j m, eq_iff i k, eq_iff i j, eq_iff k j)

  -- A new key comes at the end.
  pub assign-new :
      (k : String) (v : V) (m : UnorderedMap V)
      → is_some (find k m) ≡ false
      → assign k v m ≡ m ++ (k, v) ∷ []
  unfolding find assign
  assign-new k v [] h = refl
  assign-new k v ((i, w) ∷ m) h = ground (arith, assign-new k v m)
