-- ===== src/Economy/Market/Demands.antt =====
-- Setting the demand for a resource.
use city_life_core.Prelude.{ℕ, ◌≡◌, false, String, [], ◌∷◌, ◌++◌, ◌==◌, is_empty, is_some, arith}
use city_life_core.Prelude.UnorderedMap.{find, assign-new}
use city_life_core.Data.Validation.{empty_report}
use city_life_core.Economy.Market.{MarketState, set_demand}

pub set_demand-quiet :
    (m : MarketState) (k : String) (n : ℕ)
    → is_empty k ≡ false
    → (set_demand m k n).1 ≡ empty_report
unfolding set_demand
set_demand-quiet m k n h = ground arith

pub set_demand-fresh :
    (m : MarketState) (k : String) (n : ℕ)
    → is_empty k ≡ false
    → (n == 0) ≡ false
    → is_some (find k m.demands) ≡ false
    → (set_demand m k n).0.demands ≡ m.demands ++ (k, n) ∷ []
unfolding set_demand
set_demand-fresh m k n h p new = ground (arith, assign-new k n m.demands new)
