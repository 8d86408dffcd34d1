-- ===== src/Sim/Snapshots/Visibility.antt =====
-- What a snapshot shows.
use city_life_core.Prelude.{
  ℕ, ◌≡◌, Bool, false, ◌||◌, ◌&&◌, String, List, [], ◌∷◌, if◌then◌else◌, count_if, str_eq,
}
use city_life_core.Sim.Engine.Saving.{contains}

-- How often an id is listed.
abbrev pub times : String → List String → ℕ
times id values = count_if (λ v. str_eq v id) values

-- An id is listed once or not at all.
abbrev Once : List String → Type 0
Once values = (id : String) → times id values ≡ (if contains values id then 1 else 0)

module _ {A : Type 0} (visible : A → Bool) (id_of : A → String) where
  -- Some visible element has the id.
  abbrev pub shown : String → List A → Bool
  shown id [] = false
  shown id (x ∷ xs) = (visible x && str_eq (id_of x) id) || shown id xs
