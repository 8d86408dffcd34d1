-- ===== src/Sim/Server.antt =====
-- include/clc/sim/ServerAuthoritative.hpp and src/clc/sim/ServerAuthoritative.cpp: actions that a
-- server takes on behalf of its players, and the audit of them.
pub mod Sequences
pub mod Audit
use city_life_core.Prelude.{
  ℕ, ◌+◌, Bool, true, false, not, ◌&&◌, String, Option, none, some, List, [], ◌∷◌, length, find_if,
  ltb, leb, ◌==◌, if◌then◌else◌, is_empty, str_eq, wrap64, ◌<>◌, to_string,
}
use city_life_core.Data.Validation.{
  ValidationReport, ValidationMessage, empty_report, error_if, warning_if, add_error, add_warning,
  merge_validation, ok,
}
use city_life_core.Sim.Actions.{
  RuntimeAction, RuntimeActionResult, validate_runtime_action, dispatch_runtime_action,
}
use city_life_core.Sim.Runtime.{SimulationRuntime}

-- struct ServerSessionIdentity
pub record ServerSessionIdentity : Type 0 where
  pub player_id : String
  pub session_id : String
  pub connection_id : String

-- struct ServerShardDescriptor
pub record ServerShardDescriptor : Type 0 where
  pub shard_id : String
  pub owner_service_id : String
  pub region_id : String
  pub partition_id : String
  pub authoritative : Bool

-- struct ServerRuntimeActionEnvelope
pub record ServerRuntimeActionEnvelope : Type 0 where
  pub sequence : ℕ
  pub submitted_tick : ℕ
  pub shard_id : String
  pub session : ServerSessionIdentity
  pub action : RuntimeAction

-- struct ServerRuntimeActionAuditRecord
pub record ServerRuntimeActionAuditRecord : Type 0 where
  pub sequence : ℕ
  pub submitted_tick : ℕ
  pub resulting_day : ℕ
  pub shard_id : String
  pub action_id : String
  pub action_type : String
  pub actor_id : String
  pub player_id : String
  pub session_id : String
  pub accepted : Bool
  pub validation_status : String
  pub error_code : String
  pub event_count : ℕ
  pub diagnostic_count : ℕ

-- struct ServerRuntimeActionDispatchResult
pub record ServerRuntimeActionDispatchResult : Type 0 where
  pub action_result : RuntimeActionResult
  pub audit : ServerRuntimeActionAuditRecord
  pub validation : ValidationReport

-- struct ServerActionSequenceSummary
pub record ServerActionSequenceSummary : Type 0 where
  pub record_count : ℕ
  pub accepted_count : ℕ
  pub rejected_count : ℕ
  pub first_sequence : ℕ
  pub last_sequence : ℕ
  pub contiguous : Bool
  pub strictly_increasing : Bool

-- validate_server_session_identity
pub validate_server_session_identity : ServerSessionIdentity → ValidationReport
validate_server_session_identity s =
    error_if (is_empty s.session_id) "server.session.session_id" "session_id must not be empty" (
      error_if (is_empty s.player_id) "server.session.player_id" "player_id must not be empty"
        empty_report)

-- validate_server_shard_descriptor
pub validate_server_shard_descriptor : ServerShardDescriptor → ValidationReport
validate_server_shard_descriptor s =
    warning_if (not s.authoritative) "server.shard.authoritative"
      "non-authoritative shard descriptors are informational only"
      (error_if (is_empty s.owner_service_id) "server.shard.owner_service_id"
        "owner_service_id must not be empty"
        (error_if (is_empty s.shard_id) "server.shard.shard_id" "shard_id must not be empty"
          empty_report))

-- validate_server_runtime_action_envelope
pub validate_server_runtime_action_envelope : ServerRuntimeActionEnvelope → ValidationReport
unfolding validate_server_session_identity
validate_server_runtime_action_envelope v =
    let report =
      error_if (is_empty v.shard_id) "server.action.shard_id" "shard_id must not be empty" (
        error_if (v.sequence == 0) "server.action.sequence" "sequence must be greater than zero"
          empty_report) in
    let merged =
      merge_validation (merge_validation report (validate_server_session_identity v.session))
        (validate_runtime_action v.action) in
    warning_if
      (not (is_empty v.action.actor_id) && not (str_eq v.action.actor_id v.session.player_id))
      "server.action.actor_id" "actor_id differs from host-owned player_id" merged

abbrev first_message : ValidationReport → String
first_message report = elim report.messages [
  | [] ↦ "invalid server action envelope"
  | m ∷ _ ↦ m.message
]

-- The result for an envelope that is not valid.
refused_envelope : ServerRuntimeActionEnvelope → ValidationReport → RuntimeActionResult
refused_envelope v validation = record {
  action_id = v.action.action_id;
  type = v.action.type;
  accepted = false;
  validation_status = "invalid";
  error_code = "invalid_action";
  message = first_message validation;
  validation = validation;
  command = none;
  events = [];
}

-- status_or_invalid
status_or_invalid : RuntimeActionResult → ValidationReport → String
status_or_invalid result validation =
    if not (is_empty result.validation_status)
    then result.validation_status
    else if ok validation
    then "accepted"
    else "invalid"

-- The audit record and the result of dispatch_server_runtime_action.
audited :
    SimulationRuntime
    → ServerRuntimeActionEnvelope
    → ValidationReport
    → RuntimeActionResult
    → ServerRuntimeActionDispatchResult
unfolding status_or_invalid
audited after v validation result = record {
  action_result = result;
  audit = record {
    sequence = v.sequence;
    submitted_tick = v.submitted_tick;
    resulting_day = after.engine.current_day;
    shard_id = v.shard_id;
    action_id = v.action.action_id;
    action_type = v.action.type;
    actor_id = v.action.actor_id;
    player_id = v.session.player_id;
    session_id = v.session.session_id;
    accepted = result.accepted;
    validation_status = status_or_invalid result validation;
    error_code = result.error_code;
    event_count = length result.events;
    diagnostic_count = length result.validation.messages;
  };
  validation = validation;
}

-- dispatch_server_runtime_action
pub dispatch_server_runtime_action :
    SimulationRuntime
    → ServerRuntimeActionEnvelope
    → SimulationRuntime × ServerRuntimeActionDispatchResult
unfolding refused_envelope audited
dispatch_server_runtime_action r v =
    let validation = validate_server_runtime_action_envelope v in
    let (engine, result) = dispatch_runtime_action r.engine v.action in
    let after = record r { engine = engine } in
    if ok validation
    then (after, audited after v validation result)
    else (r, audited r v validation (refused_envelope v validation))

-- The loop of summarize_server_action_sequence from the second record on, with the record before
-- it.
count_pairs :
    ℕ
    → List ServerRuntimeActionAuditRecord
    → ServerActionSequenceSummary
    → ServerActionSequenceSummary
count_pairs previous [] s = s
count_pairs previous (x ∷ xs) s = count_pairs x.sequence xs (record s {
  accepted_count = if x.accepted then s.accepted_count + 1 else s.accepted_count;
  rejected_count = if x.accepted then s.rejected_count else s.rejected_count + 1;
  last_sequence = x.sequence;
  strictly_increasing = not (leb x.sequence previous) && s.strictly_increasing;
  contiguous = x.sequence == wrap64 (previous + 1) && s.contiguous;
})

-- summarize_server_action_sequence
pub summarize_server_action_sequence :
    List ServerRuntimeActionAuditRecord → ServerActionSequenceSummary
unfolding count_pairs
summarize_server_action_sequence [] = record {
  record_count = 0;
  accepted_count = 0;
  rejected_count = 0;
  first_sequence = 0;
  last_sequence = 0;
  contiguous = true;
  strictly_increasing = true;
}
summarize_server_action_sequence (x ∷ xs) = count_pairs x.sequence xs (record {
  record_count = length (x ∷ xs);
  accepted_count = if x.accepted then 1 else 0;
  rejected_count = if x.accepted then 0 else 1;
  first_sequence = x.sequence;
  last_sequence = x.sequence;
  contiguous = true;
  strictly_increasing = true;
})

-- The loop of validate_server_action_sequence.
check_pairs : ℕ → List ServerRuntimeActionAuditRecord → ValidationReport → ValidationReport
check_pairs previous [] report = report
check_pairs previous (x ∷ xs) report = check_pairs x.sequence xs (
    if leb x.sequence previous
    then add_error report "server.sequence.order"
        "action audit sequence must be strictly increasing"
    else error_if (not (x.sequence == wrap64 (previous + 1))) "server.sequence.gap"
        "action audit sequence must be contiguous" report)

-- validate_server_action_sequence
pub validate_server_action_sequence : List ServerRuntimeActionAuditRecord → ℕ → ValidationReport
unfolding check_pairs
validate_server_action_sequence [] expected =
    add_warning empty_report "server.sequence" "action audit sequence is empty"
validate_server_action_sequence (x ∷ xs) expected = check_pairs x.sequence xs (
    error_if (not (x.sequence == expected)) "server.sequence.first"
      "first sequence does not match expected first sequence" empty_report)

abbrev yes_or_no : Bool → String
yes_or_no b = if b then "yes" else "no"

-- server_shard_descriptor_digest
pub server_shard_descriptor_digest : ServerShardDescriptor → String
server_shard_descriptor_digest s =
    "server_shard"
    <> ";id="
    <> s.shard_id
    <> ";owner="
    <> s.owner_service_id
    <> ";region="
    <> s.region_id
    <> ";partition="
    <> s.partition_id
    <> ";authoritative="
    <> yes_or_no s.authoritative

-- server_runtime_action_audit_digest
pub server_runtime_action_audit_digest : ServerRuntimeActionAuditRecord → String
server_runtime_action_audit_digest a =
    "server_action_audit"
    <> ";sequence="
    <> to_string a.sequence
    <> ";shard="
    <> a.shard_id
    <> ";action="
    <> a.action_id
    <> ";type="
    <> a.action_type
    <> ";actor="
    <> a.actor_id
    <> ";player="
    <> a.player_id
    <> ";session="
    <> a.session_id
    <> ";accepted="
    <> yes_or_no a.accepted
    <> ";status="
    <> a.validation_status
    <> ";error="
    <> a.error_code
    <> ";events="
    <> to_string a.event_count
    <> ";diagnostics="
    <> to_string a.diagnostic_count
    <> ";day="
    <> to_string a.resulting_day

-- server_action_sequence_summary_digest
pub server_action_sequence_summary_digest : ServerActionSequenceSummary → String
server_action_sequence_summary_digest s =
    "server_action_sequence"
    <> ";records="
    <> to_string s.record_count
    <> ";accepted="
    <> to_string s.accepted_count
    <> ";rejected="
    <> to_string s.rejected_count
    <> ";first="
    <> to_string s.first_sequence
    <> ";last="
    <> to_string s.last_sequence
    <> ";contiguous="
    <> yes_or_no s.contiguous
    <> ";strictly_increasing="
    <> yes_or_no s.strictly_increasing

-- server_action_audit_by_sequence
pub server_action_audit_by_sequence :
    List ServerRuntimeActionAuditRecord → ℕ → Option ServerRuntimeActionAuditRecord
server_action_audit_by_sequence records sequence = find_if (λ r. r.sequence == sequence) records
