-- ===== src/Sim/Snapshots.antt =====
-- include/clc/sim/SnapshotSync.hpp and src/clc/sim/SnapshotSync.cpp: what of a runtime is shown to
-- whom.
pub mod Visibility
use city_life_core.Prelude.{
  ℕ, Bool, true, false, not, ◌||◌, ◌&&◌, String, List, [], ◌∷◌, ◌++◌, length, ltb, if◌then◌else◌,
  is_empty, str_eq, str_lt, ◌<>◌, to_string,
}
use city_life_core.Prelude.Sort.{sort}
use city_life_core.Data.Validation.{ValidationReport, empty_report, error_if}
use city_life_core.Sim.Caravans.{CaravanState}
use city_life_core.Sim.Engine.Days.{snapshot}
use city_life_core.Sim.Engine.Saving.{contains}
use city_life_core.Sim.Ownership.{settlement_owner, caravan_owner}
use city_life_core.Sim.Runtime.{SimulationRuntime}
use city_life_core.Sim.Settlement.{SettlementState}

-- enum class SnapshotVisibilityScope
pub data SnapshotVisibilityScope : Type 0 where
  full : SnapshotVisibilityScope
  public_view : SnapshotVisibilityScope
  faction : SnapshotVisibilityScope
  settlement : SnapshotVisibilityScope

-- struct SnapshotRequest
pub record SnapshotRequest : Type 0 where
  pub scope : SnapshotVisibilityScope
  pub requester_actor_id : String
  pub faction_id : String
  pub settlement_id : String
  pub requested_tick : ℕ

-- struct RuntimeSnapshotSummary
pub record RuntimeSnapshotSummary : Type 0 where
  pub version : String
  pub scope : SnapshotVisibilityScope
  pub faction_id : String
  pub settlement_id : String
  pub tick : ℕ
  pub day : ℕ
  pub settlement_count : ℕ
  pub visible_settlement_count : ℕ
  pub caravan_count : ℕ
  pub visible_caravan_count : ℕ
  pub route_count : ℕ
  pub market_price_count : ℕ
  pub event_count : ℕ
  pub visible_settlement_ids : List String
  pub visible_caravan_ids : List String

-- core_version_string of include/clc/core/Version.hpp
abbrev core_version_string : String
core_version_string = "4.0.0"

-- push_if_unique
push_if_unique : List String → String → List String
push_if_unique values value = if contains values value then values else values ++ value ∷ []

-- snapshot_visibility_scope_name
pub snapshot_visibility_scope_name : SnapshotVisibilityScope → String
snapshot_visibility_scope_name full = "full"
snapshot_visibility_scope_name public_view = "public"
snapshot_visibility_scope_name faction = "faction"
snapshot_visibility_scope_name settlement = "settlement"

abbrev is_faction : SnapshotVisibilityScope → Bool
is_faction faction = true
is_faction _ = false

abbrev is_settlement : SnapshotVisibilityScope → Bool
is_settlement settlement = true
is_settlement _ = false

-- validate_snapshot_request
pub validate_snapshot_request : SnapshotRequest → ValidationReport
validate_snapshot_request q =
    error_if (is_settlement q.scope && is_empty q.settlement_id) "snapshot.settlement_id"
      "settlement_id must not be empty for settlement snapshots"
      (error_if (is_faction q.scope && is_empty q.faction_id) "snapshot.faction_id"
        "faction_id must not be empty for faction snapshots" empty_report)

-- `visible` in the loop over the settlements
unfoldable pub settlement_visible : SimulationRuntime → SnapshotRequest → SettlementState → Bool
settlement_visible runtime q s = elim q.scope [
  | full ↦ true
  | public_view ↦ true
  | faction ↦ str_eq (settlement_owner runtime.ownership s.id) q.faction_id
  | settlement ↦ str_eq s.id q.settlement_id
]

-- `visible` in the loop over the caravans
unfoldable pub caravan_visible : SimulationRuntime → SnapshotRequest → CaravanState → Bool
caravan_visible runtime q c = elim q.scope [
  | full ↦ true
  | public_view ↦ true
  | faction ↦ str_eq (caravan_owner runtime.ownership c.id) q.faction_id
  | settlement ↦
      str_eq c.origin_settlement_id q.settlement_id
      || str_eq c.destination_settlement_id q.settlement_id
]

-- Both loops: the ids of what is visible, each once.
collect_visible : {A : Type 0} → (A → Bool) → (A → String) → List String → List A → List String
unfolding push_if_unique
collect_visible visible id_of values [] = values
collect_visible visible id_of values (x ∷ xs) =
    collect_visible visible id_of (if visible x then push_if_unique values (id_of x) else values) xs

-- make_runtime_snapshot_summary
pub make_runtime_snapshot_summary : SimulationRuntime → SnapshotRequest → RuntimeSnapshotSummary
unfolding collect_visible
make_runtime_snapshot_summary runtime q =
    let settlements = runtime.engine.settlements in
    let caravans = runtime.caravans.caravans in
    let settlement_ids = sort str_lt (
      collect_visible (settlement_visible runtime q) (λ (s : SettlementState). s.id) []
        settlements) in
    let caravan_ids =
      sort str_lt
        (collect_visible (caravan_visible runtime q) (λ (c : CaravanState). c.id) [] caravans) in
    record {
      version = core_version_string;
      scope = q.scope;
      faction_id = q.faction_id;
      settlement_id = q.settlement_id;
      tick = runtime.time.tick;
      day = runtime.engine.current_day;
      settlement_count = length settlements;
      visible_settlement_count = length settlement_ids;
      caravan_count = length caravans;
      visible_caravan_count = length caravan_ids;
      route_count = length runtime.routes.routes;
      market_price_count = length (snapshot runtime.engine).market.prices;
      event_count = length runtime.engine.events;
      visible_settlement_ids = settlement_ids;
      visible_caravan_ids = caravan_ids;
    }

-- validate_runtime_snapshot_summary
pub validate_runtime_snapshot_summary : RuntimeSnapshotSummary → ValidationReport
validate_runtime_snapshot_summary s =
    error_if (ltb s.caravan_count s.visible_caravan_count) "snapshot.visible_caravan_count"
      "visible caravan count exceeds caravan count"
      (error_if (ltb s.settlement_count s.visible_settlement_count)
        "snapshot.visible_settlement_count" "visible settlement count exceeds settlement count"
        (error_if (is_empty s.version) "snapshot.version" "version must not be empty" empty_report))

-- runtime_snapshot_summary_digest
pub runtime_snapshot_summary_digest : RuntimeSnapshotSummary → String
runtime_snapshot_summary_digest s =
    "runtime_snapshot"
    <> ";version="
    <> s.version
    <> ";scope="
    <> snapshot_visibility_scope_name s.scope
    <> ";tick="
    <> to_string s.tick
    <> ";day="
    <> to_string s.day
    <> ";settlements="
    <> to_string s.settlement_count
    <> ";visible_settlements="
    <> to_string s.visible_settlement_count
    <> ";caravans="
    <> to_string s.caravan_count
    <> ";visible_caravans="
    <> to_string s.visible_caravan_count
    <> ";routes="
    <> to_string s.route_count
    <> ";market_prices="
    <> to_string s.market_price_count
    <> ";events="
    <> to_string s.event_count
    <> (if is_empty s.faction_id then "" else ";faction=" <> s.faction_id)
    <> (if is_empty s.settlement_id then "" else ";settlement=" <> s.settlement_id)
