-- ===== src/Sim/Factions.antt =====
-- include/clc/sim/Factions.hpp and src/clc/sim/Factions.cpp: factions, what they think of one
-- another and what they let one another do.
pub mod Access
use city_life_core.Prelude.{
  ℕ, ◌+◌, ◌≡◌, Bool, true, false, not, ◌&&◌, ◌||◌, String, Option, none, some, List, [], ◌∷◌, ◌++◌,
  length, find_if, keep_if, if◌then◌else◌, is_empty, is_some, str_eq, ◌<>◌, to_string,
}
use city_life_core.Prelude.Int.{ℤ, pos, negsuc, ltb_ℤ, leb_ℤ}
use city_life_core.Data.Validation.{ValidationReport, empty_report, add_error, error_if, ok}

-- enum class FactionAccessLevel
pub data FactionAccessLevel : Type 0 where
  blocked restricted neutral trusted allied : FactionAccessLevel

-- struct FactionState
pub record FactionState : Type 0 where
  pub id : String
  pub display_name : String

-- struct FactionReputation
pub record FactionReputation : Type 0 where
  pub from_faction_id : String
  pub to_faction_id : String
  pub value : ℤ

-- struct FactionAccessReport
pub record FactionAccessReport : Type 0 where
  pub from_faction_id : String
  pub to_faction_id : String
  pub reputation : ℤ
  pub access : FactionAccessLevel
  pub can_trade : Bool
  pub can_issue_contract : Bool
  pub can_receive_contract : Bool
  pub reason : String

-- struct FactionCatalog
pub record FactionCatalog : Type 0 where
  pub factions : List FactionState
  pub reputations : List FactionReputation

-- validate_faction
pub validate_faction : FactionState → ValidationReport
validate_faction f =
    error_if (is_empty f.display_name) ("simulation.faction." <> f.id)
      "faction display_name must not be empty"
      (error_if (is_empty f.id) "simulation.faction" "faction id must not be empty" empty_report)

-- validate_faction_reputation
pub validate_faction_reputation : FactionReputation → ValidationReport
validate_faction_reputation r =
    error_if
      (not (is_empty r.from_faction_id)
        && not (is_empty r.to_faction_id)
        && str_eq r.from_faction_id r.to_faction_id)
      ("simulation.faction.reputation." <> r.from_faction_id)
      "faction reputation endpoints must be different"
      (error_if (is_empty r.to_faction_id) "simulation.faction.reputation"
        "to_faction_id must not be empty"
        (error_if (is_empty r.from_faction_id) "simulation.faction.reputation"
          "from_faction_id must not be empty" empty_report))

-- faction_by_id
pub faction_by_id : FactionCatalog → String → Option FactionState
faction_by_id catalog id = find_if (λ f. str_eq f.id id) catalog.factions

-- faction_exists
pub faction_exists : FactionCatalog → String → Bool
faction_exists catalog id = is_some (faction_by_id catalog id)

-- add_faction
pub add_faction : FactionCatalog → FactionState → FactionCatalog × ValidationReport
add_faction catalog f =
    let report = validate_faction f in
    if not (ok report)
    then (catalog, report)
    else if faction_exists catalog f.id
    then (catalog, add_error report ("simulation.faction." <> f.id) "duplicate faction id")
    else (record catalog { factions = catalog.factions ++ f ∷ [] }, report)

abbrev pub faction_count : FactionCatalog → ℕ
faction_count catalog = length catalog.factions

-- The loop of set_faction_reputation, with the `push_back` after it.
write_reputation : FactionReputation → List FactionReputation → List FactionReputation
write_reputation r [] = r ∷ []
write_reputation r (x ∷ xs) =
    if str_eq x.from_faction_id r.from_faction_id && str_eq x.to_faction_id r.to_faction_id
    then record x { value = r.value } ∷ xs
    else x ∷ write_reputation r xs

-- set_faction_reputation
pub set_faction_reputation :
    FactionCatalog → String → String → ℤ → FactionCatalog × ValidationReport
unfolding write_reputation
set_faction_reputation catalog from to value =
    let reputation : FactionReputation = record {
      from_faction_id = from;
      to_faction_id = to;
      value = value;
    } in
    let report = validate_faction_reputation reputation in
    let known =
      error_if (not (faction_exists catalog to)) ("simulation.faction." <> to)
        "unknown target faction"
        (error_if (not (faction_exists catalog from)) ("simulation.faction." <> from)
          "unknown source faction" report) in
    if not (ok report)
    then (catalog, report)
    else if not (ok known)
    then (catalog, known)
    else (record catalog { reputations = write_reputation reputation catalog.reputations }, known)

find_reputation : List FactionReputation → String → String → ℤ
find_reputation [] from to = pos 0
find_reputation (x ∷ xs) from to =
    if str_eq x.from_faction_id from && str_eq x.to_faction_id to
    then x.value
    else find_reputation xs from to

-- faction_reputation
pub faction_reputation : FactionCatalog → String → String → ℤ
unfolding find_reputation
faction_reputation catalog from to = find_reputation catalog.reputations from to

-- faction_reputations_from
pub faction_reputations_from : FactionCatalog → String → List FactionReputation
faction_reputations_from catalog id = keep_if (λ r. str_eq r.from_faction_id id) catalog.reputations

-- faction_reputations_to
pub faction_reputations_to : FactionCatalog → String → List FactionReputation
faction_reputations_to catalog id = keep_if (λ r. str_eq r.to_faction_id id) catalog.reputations

-- faction_access_level_name
pub faction_access_level_name : FactionAccessLevel → String
faction_access_level_name blocked = "blocked"
faction_access_level_name restricted = "restricted"
faction_access_level_name neutral = "neutral"
faction_access_level_name trusted = "trusted"
faction_access_level_name allied = "allied"

-- classify_faction_access
pub classify_faction_access : ℤ → FactionAccessLevel
classify_faction_access reputation =
    if leb_ℤ reputation (negsuc 74)
    then blocked
    else if ltb_ℤ reputation (pos 0)
    then restricted
    else if leb_ℤ (pos 75) reputation
    then allied
    else if leb_ℤ (pos 25) reputation
    then trusted
    else neutral

-- The report of the two early returns.
abbrev no_access : String → String → String → FactionAccessReport
no_access from to reason = record {
  from_faction_id = from;
  to_faction_id = to;
  reputation = pos 0;
  access = blocked;
  can_trade = false;
  can_issue_contract = false;
  can_receive_contract = false;
  reason = reason;
}

-- The `switch`, from the defaults on.
access_report : String → String → ℤ → FactionAccessLevel → FactionAccessReport
access_report from to reputation access =
    let report : FactionAccessReport = record {
      from_faction_id = from;
      to_faction_id = to;
      reputation = reputation;
      access = access;
      can_trade = true;
      can_issue_contract = true;
      can_receive_contract = true;
      reason = "";
    } in
    elim access [
      | blocked ↦ record report {
        can_trade = false;
        can_issue_contract = false;
        can_receive_contract = false;
        reason = "reputation blocks interaction";
      }
      | restricted ↦ record report {
        can_issue_contract = false;
        reason = "restricted reputation allows limited trade only";
      }
      | neutral ↦ record report { reason = "neutral access" }
      | trusted ↦ record report { reason = "trusted access" }
      | allied ↦ record report { reason = "allied access" }
    ]

-- make_faction_access_report
pub make_faction_access_report : FactionCatalog → String → String → FactionAccessReport
unfolding access_report
make_faction_access_report catalog from to =
    if is_empty from || is_empty to
    then no_access from to "faction ids must not be empty"
    else if not (faction_exists catalog from) || not (faction_exists catalog to)
    then no_access from to "unknown faction"
    else if str_eq from to
    then record (access_report from to (pos 100) allied) { reason = "same faction" }
    else access_report from to (faction_reputation catalog from to)
        (classify_faction_access (faction_reputation catalog from to))

abbrev number_text : ℤ → String
number_text (pos n) = to_string n
number_text (negsuc n) = "-" <> to_string (n + 1)

abbrev yes_no : Bool → String
yes_no b = if b then "yes" else "no"

-- faction_access_report_digest
pub faction_access_report_digest : FactionAccessReport → String
faction_access_report_digest r =
    "faction_access"
    <> ";from="
    <> r.from_faction_id
    <> ";to="
    <> r.to_faction_id
    <> ";reputation="
    <> number_text r.reputation
    <> ";access="
    <> faction_access_level_name r.access
    <> ";trade="
    <> yes_no r.can_trade
    <> ";issue_contract="
    <> yes_no r.can_issue_contract
    <> ";receive_contract="
    <> yes_no r.can_receive_contract
