-- ===== src/Lib.antt =====
-- City Life Core: a deterministic simulation library for settlements, trade and contracts, in C++.
--
-- The program. A `World` (include/clc/core) has a clock that saturates at the largest 64-bit tick
-- and a log of events. A `DataRegistry` (include/clc/data) holds the definitions of a game, each
-- accepted or refused with a `ValidationReport`. The economy (include/clc/economy) has the market's
-- prices, trades between a wallet and a storage, a ledger of trades and rewards, and the matching
-- of orders. The simulation (include/clc/sim) has storages of resources, settlements that consume
-- and produce, routes, caravans that carry goods between settlements, factions that own them, and
-- contracts on deliveries that pay a reward. Every operation is a function on plain state: it
-- reports an error and returns early, or changes the state that it was given by reference.
--
-- The model. A struct is a record with the same fields, an enum a data type, a vector a list, an
-- unordered_map the list of its entries with one for each key (Prelude/UnorderedMap), a function on
-- references a function that returns the new states next to its result, and a pointer to an element
-- the element, or none where it is null. A 64-bit number is a natural number: sums and products are
-- saturating, guarded or wrapped exactly as the code has them, and the theorems name the inputs
-- that have to be in range. std::sort is an insertion sort, stable where the standard leaves the
-- order of equal elements open (Prelude/Sort). A report is the list of its messages, built by the
-- same tests in the same order.
--
-- The files:
--   Prelude: numbers, words, texts, lists, maps and sorting that the components share.
--   Core/Time, Core/EventLog, Core/World: include/clc/core/Time.hpp, src/clc/core/Time.cpp,
--   EventLog.cpp and World.cpp. What they promise: Core/Time/Laws, Core/World/History.
--   Data/Validation, Data/Registry: src/clc/data/Validation.cpp and DataRegistry.cpp. Data/Registry/Lookup.
--   Economy/Market and Economy/Pressure: src/clc/economy/Market.cpp. Economy/Market/Pricing and
--   Reports, Economy/Pressure/Bounds.
--   Economy/Ledger: src/clc/economy/Ledger.cpp, with Summary. Economy/Ledger/Journal and
--   Economy/Ledger/Summary/Resources.
--   Economy/Trade: src/clc/economy/Trade.cpp. Economy/Trade/Exchange and Atomic.
--   Economy/Orders: src/clc/economy/Orders.cpp. Economy/Orders/Conservation and Crossing.
--   Sim/Storage: src/clc/sim/Storage.cpp. Sim/Storage/Amounts, Invariant and Transfer.
--   Sim/Settlement: src/clc/sim/Settlement.cpp. Sim/Settlement/Remainders, Invariant,
--   Stocks and Ticks; the report of a settlement is in Sim/Settlement/Reports.
--   Sim/Routes, Sim/Caravans: src/clc/sim/Routes.cpp and Caravans.cpp. Sim/Caravans/Journeys and Cargo.
--   Sim/Factions, Sim/Ownership: src/clc/sim/Factions.cpp and Ownership.cpp. Sim/Factions/Access.
--   Sim/Contracts: src/clc/sim/Contracts.cpp and ContractRewards.cpp, with Fulfillment and Summary.
--   Sim/Contracts/Lifecycle and Reachability, Sim/Contracts/Fulfillment/Delivery and Authority.
--   Sim/Engine: src/clc/sim/SimulationEngine.cpp. Goods and Transfers are about transfers, Identity and
--   Steps about what an engine can become; Commands has the methods that log what they did, Days the
--   days and scenarios, Presets the scenario presets, Saving `export_state` and `restore_state`.
--   Sim/Runtime: include/clc/sim/SimulationRuntime.hpp and src/clc/sim/SimulationRuntimeTick.cpp, with
--   Ticks and Arrivals for the runs by ticks and Days for those by days. Ticks/Steps,
--   Arrivals/Progress and Days/Course.
--   Sim/Workflow: src/clc/sim/SimulationRuntimeWorkflow.cpp, with Delivery, Checks, Bulk and Fulfilling,
--   and in ArrivalContracts the end of SimulationRuntimeTick.cpp. Cargo,
--   Delivery/Stocks, Delivery/Entries, Delivery/Refusals, Delivery/Outcome and Fulfilling/First.
--   Sim/Events: src/clc/sim/SimulationRuntimeEvents.cpp, with Deliveries, and Logs for the checks. Events/Order.
--   Sim/Snapshots: src/clc/sim/SnapshotSync.cpp. Snapshots/Visibility.
--   Sim/Safety: src/clc/sim/MultiplayerEconomySafety.cpp. Safety/Buying.
--   Sim/Actions: src/clc/sim/ActionBridge.cpp. Actions/Dispatch.
--   Sim/Server: src/clc/sim/ServerAuthoritative.cpp. Server/Audit and Server/Sequences.
--   Tests: the theorems at concrete inputs.
--
-- How the parts interact. A trade works on a wallet, a storage and, with a ledger, on a journal. A
-- caravan loads from and unloads into the storage of a settlement. A contract is fulfilled from a
-- storage or a caravan's cargo, pays a wallet and is entered in the ledger. Each of these is one
-- function over the states that it touches, and its clients use only the theorems of those states.
-- The engine has the settlements, the market and the log; the runtime has the engine next to the
-- clock, the caravans and the contracts, and a workflow is a function on the whole runtime, which
-- it hands back with its result. An action is validated and dispatched to a command of the engine;
-- the server puts an audit record beside it. The reports of a runtime become the events of a log,
-- and a snapshot shows of it what its request may see. A review says beforehand whether a trade or
-- a reward may go ahead.
--
-- Loops over lists and counts are structural recursion. The two while loops of the runtime by ticks
-- run on fuel and return none without it. Fuel of at least the ticks of the run is enough, since
-- each step takes at least one of them.
--
-- Not modelled: the JSON of actions, the payloads and checksum of runtime events, runtime
-- scenarios, action authority, processors, production and logistics, large worlds, the layers on
-- settlements and the economy, persistence and replay, the C interface, the loader of data packs,
-- and the catalogs and readiness reports, which hold texts. The aliased call of `transfer`, with one
-- storage on both sides, is a flag of the function; elsewhere two references are two objects.
pub mod Prelude
pub mod Core
pub mod Data
pub mod Economy
pub mod Sim
pub mod Tests
