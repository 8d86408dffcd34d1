-- ===== src/Sim/Factions/Access.antt =====
-- Setting a reputation, and what a reputation allows.
use city_life_core.Prelude.{
  ◌≡◌, Bool, not, ◌&&◌, ◌||◌, String, List, [], ◌∷◌, if◌then◌else◌, is_empty, str_eq, arith, eq_iff,
}
use city_life_core.Prelude.Int.{ℤ, pos, negsuc, leb_ℤ}
use city_life_core.Data.Validation.{ok}
use city_life_core.Sim.Factions.{
  FactionReputation, FactionCatalog, faction_exists, write_reputation, set_faction_reputation,
  find_reputation, faction_reputation, classify_faction_access, access_report,
  make_faction_access_report,
}

find-write_reputation :
    (r : FactionReputation) (xs : List FactionReputation) (a b : String)
    → find_reputation (write_reputation r xs) a b ≡ (
        if str_eq r.from_faction_id a && str_eq r.to_faction_id b
        then r.value
        else find_reputation xs a b)
unfolding find_reputation write_reputation
find-write_reputation r [] a b = ground arith
find-write_reputation r (x ∷ xs) a b = ground (
  arith,
  eq_iff x.from_faction_id r.from_faction_id,
  eq_iff x.to_faction_id r.to_faction_id,
  eq_iff x.from_faction_id a,
  eq_iff x.to_faction_id b,
  eq_iff r.from_faction_id a,
  eq_iff r.to_faction_id b,
  find-write_reputation r xs a b,
)

-- Setting a reputation changes that of the one pair, in the one direction, if the report has no
-- error, and none otherwise.
set_faction_reputation-exact :
    (k : FactionCatalog) (from to : String) (v : ℤ) (a b : String)
    → let (k', report) = set_faction_reputation k from to v in
      faction_reputation k' a b
      ≡ (if ok report && (str_eq from a && str_eq to b) then v else faction_reputation k a b)
unfolding set_faction_reputation faction_reputation
set_faction_reputation-exact k from to v a b = ground (
  arith,
  find-write_reputation (record { from_faction_id = from; to_faction_id = to; value = v })
      k.reputations a b,
)

access-level :
    (a b : String) (v : ℤ)
    → let r = access_report a b v (classify_faction_access v) in
      (r.can_trade ≡ not (leb_ℤ v (negsuc 74)))
      × (r.can_issue_contract ≡ leb_ℤ (pos 0) v)
      × (r.can_receive_contract ≡ r.can_trade)
unfolding access_report classify_faction_access
access-level a b (pos n) = (ground arith, ground arith, ground arith)
access-level a b (negsuc n) = (ground arith, ground arith, ground arith)

-- Whether both factions are named and known.
abbrev pub both_known : FactionCatalog → String → String → Bool
both_known k a b = not (is_empty a) && not (is_empty b) && faction_exists k a && faction_exists k b

-- Between two factions that are named and known, or within one, contracts are issued exactly where
-- the reputation is not negative, and trade and the receipt of contracts are allowed exactly where
-- it is above -75; a faction may do everything with itself, and nothing is allowed with an unknown
-- one.
pub make_faction_access_report-exact :
    (k : FactionCatalog) (a b : String)
    → let r = make_faction_access_report k a b in
      let v = faction_reputation k a b in
      (r.can_trade ≡ (both_known k a b && (str_eq a b || not (leb_ℤ v (negsuc 74)))))
      × (r.can_issue_contract ≡ (both_known k a b && (str_eq a b || leb_ℤ (pos 0) v)))
      × (r.can_receive_contract ≡ r.can_trade)
unfolding make_faction_access_report
make_faction_access_report-exact k a b =
    let level = access-level a b (faction_reputation k a b) in
    let own = access-level a b (pos 100) in (ground arith, ground arith, ground arith)
