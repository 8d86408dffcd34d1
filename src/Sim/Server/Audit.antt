-- ===== src/Sim/Server/Audit.antt =====
-- The audit of a server's action tells what it did to the runtime.
use city_life_core.Prelude.{
  ◌+◌, ◌≡◌, refl, sym, ap, ◌⊎◌, inl, inr, true, false, List, ◌++◌, append-nil, length,
  length-append, if_cases, arith,
}
use city_life_core.Data.Validation.{ok}
use city_life_core.Sim.Actions.{dispatch_runtime_action}
use city_life_core.Sim.Actions.Dispatch.{dispatch_runtime_action-Tells}
use city_life_core.Sim.Engine.{SimulationEvent}
use city_life_core.Sim.Runtime.{SimulationRuntime}
use city_life_core.Sim.Server.{
  ServerRuntimeActionEnvelope, ServerRuntimeActionDispatchResult, audited, refused_envelope,
  validate_server_runtime_action_envelope, dispatch_server_runtime_action,
}

-- A runtime after an action, and the result and the audit that go with it.
abbrev pub IsAudited :
    SimulationRuntime
    → ServerRuntimeActionEnvelope
    → SimulationRuntime × ServerRuntimeActionDispatchResult
    → Type 0
IsAudited r v (r', d) =
    (r' ≡ record r { engine = r'.engine })
    × (r'.engine.events ≡ r.engine.events ++ d.action_result.events)
    × (length r'.engine.events ≡ length r.engine.events + d.audit.event_count)
    × (d.audit.accepted ≡ ok d.action_result.validation)
    × (d.audit.resulting_day ≡ r'.engine.current_day)
    × ((ok (validate_server_runtime_action_envelope v) ≡ true)
        ⊎ ((r' ≡ r) × (d.audit.accepted ≡ false)))

-- Whatever envelope a server dispatches, it touches nothing of the runtime but the engine; the
-- result's events are exactly those by which the engine's log has grown, and the audit has their
-- number, the engine's day afterwards, and whether the result's validation is ok. An envelope that
-- is not valid is not accepted and leaves the runtime as it was.
pub dispatch_server_runtime_action-IsAudited :
    (r : SimulationRuntime) (v : ServerRuntimeActionEnvelope)
    → IsAudited r v (dispatch_server_runtime_action r v)
unfolding dispatch_server_runtime_action audited refused_envelope
dispatch_server_runtime_action-IsAudited r v =
    let validation = validate_server_runtime_action_envelope v in
    let (engine, result) = dispatch_runtime_action r.engine v.action in
    let (same, grown, _) = dispatch_runtime_action-Tells r.engine v.action in
    let counted = ap (λ (es : List SimulationEvent). length es) grown in
    if_cases (IsAudited r v) (ok validation) _ _
      (λ good. (
        refl,
        grown,
        omega (arith, counted, length-append r.engine.events result.events),
        same,
        refl,
        inl good,
      ))
      (λ bad.
        (refl, sym (append-nil r.engine.events), omega arith, sym bad, refl, inr (refl, refl)))
