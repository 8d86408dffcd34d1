-- ===== src/Sim/Runtime.antt =====
-- struct SimulationRuntime of include/clc/sim/SimulationRuntime.hpp: the engine, the clock and the
-- catalogs of one simulation.
pub mod Ticks
pub mod Arrivals
pub mod Days
use city_life_core.Core.Time.{GameTime}
use city_life_core.Data.Registry.{DataRegistry}
use city_life_core.Economy.Ledger.{EconomyLedger, empty_ledger}
use city_life_core.Economy.Trade.{Wallet}
use city_life_core.Sim.Caravans.{CaravanFleet}
use city_life_core.Sim.Contracts.{ContractCatalog}
use city_life_core.Sim.Engine.{SimulationEngine, new_engine}
use city_life_core.Sim.Factions.{FactionCatalog}
use city_life_core.Sim.Ownership.{OwnershipCatalog}
use city_life_core.Sim.Routes.{SettlementRouteCatalog}
use city_life_core.Prelude.{[]}

-- struct SimulationRuntime
pub record SimulationRuntime : Type 0 where
  pub engine : SimulationEngine
  pub time : GameTime
  pub routes : SettlementRouteCatalog
  pub caravans : CaravanFleet
  pub factions : FactionCatalog
  pub ownership : OwnershipCatalog
  pub contracts : ContractCatalog
  pub wallet : Wallet
  pub ledger : EconomyLedger

-- SimulationRuntime::SimulationRuntime
abbrev pub new_runtime : DataRegistry → SimulationRuntime
new_runtime registry = record {
  engine = new_engine registry;
  time = record { tick = 0 };
  routes = record { routes = [] };
  caravans = record { caravans = [] };
  factions = record { factions = []; reputations = [] };
  ownership = record { settlements = []; caravans = [] };
  contracts = record { contracts = [] };
  wallet = record { coins = 0 };
  ledger = empty_ledger;
}
