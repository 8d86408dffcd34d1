-- ===== src/Tests/Server.antt =====
-- The server, snapshots and reviews at work.
use city_life_core.Prelude.{
  refl, false, ◌≤◌, u64_max, ℕ, ◌+◌, ◌≡◌, true, [], ◌∷◌, length, arith, ◌&&◌, ◌==◌,
}
use city_life_core.Economy.Market.{MarketPrice}
use city_life_core.Economy.Trade as Trade
use city_life_core.Sim.Runtime.{SimulationRuntime}
use city_life_core.Sim.Storage.{amount}
use city_life_core.Prelude.UnorderedMap.{find}
use city_life_core.Data.Validation.{ok-error_if, ok-empty}
use city_life_core.Sim.Engine.{find_settlement}
use city_life_core.Sim.Safety.{
  review_buy_resource_safety, ledger_has_reference, any_entry, check_trade,
}
use city_life_core.Sim.Safety.Buying.{review_buy_resource_safety-holds}
use city_life_core.Sim.Snapshots.{SnapshotRequest, SnapshotVisibilityScope}
use city_life_core.Data.Validation.{ok}
use city_life_core.Sim.Actions.{RuntimeAction}
use city_life_core.Sim.Server.{
  ServerRuntimeActionEnvelope, ServerRuntimeActionAuditRecord, dispatch_server_runtime_action,
  summarize_server_action_sequence, validate_server_action_sequence,
}
use city_life_core.Sim.Server.Sequences.{
  counts_from, in_order, validate_server_action_sequence-exact,
}
use city_life_core.Sim.Server.Audit.{IsAudited, dispatch_server_runtime_action-IsAudited}
use city_life_core.Tests.Runtime.{coast}

abbrev supply : RuntimeAction
supply = record {
  action_id = "a1";
  type = "add_resource";
  actor_id = "host";
  target_id = "harbor";
  secondary_target_id = "";
  resource_id = "salt";
  amount = 6;
  days = 0;
  payload_json = "";
}

abbrev envelope : ServerRuntimeActionEnvelope
envelope = record {
  sequence = 1;
  submitted_tick = 12;
  shard_id = "shard";
  session = record { player_id = "p"; session_id = "s"; connection_id = "c" };
  action = supply;
}

dispatch_server_runtime_action-IsAudited_example :
    IsAudited coast envelope (dispatch_server_runtime_action coast envelope)
dispatch_server_runtime_action-IsAudited_example =
    dispatch_server_runtime_action-IsAudited coast envelope

abbrev audited : ℕ → ServerRuntimeActionAuditRecord
audited sequence = record {
  sequence = sequence;
  submitted_tick = 12;
  resulting_day = 0;
  shard_id = "shard";
  action_id = "a1";
  action_type = "add_resource";
  actor_id = "host";
  player_id = "p";
  session_id = "s";
  accepted = true;
  validation_status = "accepted";
  error_code = "";
  event_count = 1;
  diagnostic_count = 0;
}

validate_server_action_sequence-exact_example :
    let records = audited 1 ∷ audited 2 ∷ [] in
    let s = summarize_server_action_sequence records in
    (ok (validate_server_action_sequence records 1) ≡ counts_from 1 records)
    × ((in_order s && s.first_sequence == 1) ≡ counts_from 1 records)
    × (s.accepted_count + s.rejected_count ≡ length records)
validate_server_action_sequence-exact_example =
    validate_server_action_sequence-exact (audited 1) (audited 2 ∷ []) 1
      (omega arith, (omega arith, tt))

-- What the guild may see.
abbrev guild_request : SnapshotRequest
guild_request = record {
  scope = SnapshotVisibilityScope.faction;
  requester_actor_id = "p";
  faction_id = "guild";
  settlement_id = "";
  requested_tick = 0;
}

abbrev salt_price : MarketPrice
salt_price = record {
  resource_id = "salt";
  base_value = 9;
  supply = 40;
  demand = 40;
  price = 9;
  reason = "balanced";
}

-- The coast with coins.
abbrev rich_coast : SimulationRuntime
rich_coast = record coast { wallet = record { coins = 100 } }

no_salt : amount (record { entries = [] }) salt_price.resource_id + 3 ≤ u64_max
unfolding amount find
no_salt = omega arith

purchase-allowed :
    (review_buy_resource_safety rich_coast "p" "harbor" salt_price 3 "b1").allowed ≡ true
unfolding review_buy_resource_safety check_trade find_settlement ledger_has_reference any_entry
purchase-allowed = simp (ok-error_if, ok-empty) (ground arith)

review_buy_resource_safety-holds_example :
    let (w', _, result) =
      Trade.buy_resource rich_coast.wallet (record { entries = [] }) salt_price 3 in
    (result.ok ≡ true)
    × (w'.coins + (review_buy_resource_safety rich_coast "p" "harbor" salt_price 3 "b1").total_price
        ≡ 100)
    × (ledger_has_reference rich_coast.ledger "b1" ≡ false)
review_buy_resource_safety-holds_example =
    review_buy_resource_safety-holds rich_coast "p" "harbor" "b1" salt_price 3
      (record { entries = [] }) (omega arith) refl (omega arith) no_salt purchase-allowed
