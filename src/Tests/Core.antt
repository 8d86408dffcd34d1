-- ===== src/Tests/Core.antt =====
-- A clock, a world and a registry at work.
use city_life_core.Prelude.{◌≡◌, [], ◌∷◌, arith}
use city_life_core.Core.Time.{GameTime}
use city_life_core.Core.World.{World, advance_all}
use city_life_core.Core.World.History.{IsValid, advance_all-IsValid}
use city_life_core.Data.Validation.{ok}
use city_life_core.Data.Registry.{
  DataRegistry, ResourceDefinition, BuildingDefinition, validate_references,
}
use city_life_core.Data.Registry.Lookup.{all_resolved, ok-validate_references}

abbrev late : GameTime
late = record { tick = 18446744073709551610 }

abbrev new_world : World
new_world = record {
  config = record { name = "delta"; seed = 7 };
  time = record { tick = 0 };
  event_log = record {
    events = record { id = 1; tick = 0; type = "world.created"; payload = "delta" } ∷ [];
    next_id = 2;
  };
}

advance_all-IsValid_example : IsValid (advance_all new_world (5 ∷ 0 ∷ 7 ∷ []))
advance_all-IsValid_example =
    advance_all-IsValid new_world (5 ∷ 0 ∷ 7 ∷ []) (omega arith) (omega arith)

abbrev grain : ResourceDefinition
grain = record { id = "grain"; display_name = "Grain"; category = ""; base_value = 4 }

abbrev mill : BuildingDefinition
mill = record {
  id = "mill";
  display_name = "Mill";
  category = "food";
  worker_slots = 3;
  required_profession_id = "";
  input_resource_ids = "grain" ∷ [];
  output_resource_ids = "flour" ∷ [];
}

abbrev mill_registry : DataRegistry
mill_registry = record {
  resources = ("grain", grain) ∷ [];
  currencies = [];
  buildings = ("mill", mill) ∷ [];
  professions = [];
  settlements = [];
}

ok-validate_references_example :
    ok (validate_references mill_registry) ≡ all_resolved mill_registry mill_registry.buildings
ok-validate_references_example = ok-validate_references mill_registry
