-- ===== src/Economy/Ledger/Summary/Resources.antt =====
-- The summary of each resource agrees with the totals of the ledger.
use city_life_core.Prelude.{
  ℕ, ◌+◌, ◌≤◌, ◌≡◌, ◌∙◌, refl, ap, inl, inr, ◌&&◌, String, Option, none, some, List, [], ◌∷◌, map,
  find_if, count_if, sum_by, min, max, u64_max, if◌then◌else◌, str_eq, arith, eq_iff, Bool-cases,
  saturating_add-eq-min,
}
use city_life_core.Prelude.Sort.{sort, sum_by-sort, count_if-sort}
use city_life_core.Economy.Ledger.{
  LedgerEntry, LedgerEntryType, EconomyLedger, same_type, total_bought, total_sold,
}
use city_life_core.Economy.Ledger.Journal.{sum_of, totals-exact}
use city_life_core.Economy.Ledger.Summary.{
  LedgerResourceSummary, LedgerSummary, add_to_resource, add_entry, add_to_totals, add_entries,
  net_resource, resource_before, empty_summary, make_ledger_summary, ledger_resource_summary_by_id,
  new_resource,
}

-- The quantity of a resource that a summary counts for a kind of entry.
abbrev pub quantity_of : LedgerEntryType → LedgerResourceSummary → ℕ
quantity_of LedgerEntryType.buy r = r.bought_quantity
quantity_of LedgerEntryType.sell r = r.sold_quantity
quantity_of LedgerEntryType.contract_reward r = r.contract_reward_quantity

-- The same, over all summaries with the id.
abbrev figure : LedgerEntryType → String → List LedgerResourceSummary → ℕ
figure t j = sum_by (λ r. if str_eq r.resource_id j then quantity_of t r else 0)

abbrev named : String → List LedgerResourceSummary → ℕ
named j = count_if (λ r. str_eq r.resource_id j)

abbrev gain : LedgerEntryType → String → LedgerEntry → ℕ
gain t j e = if same_type e.type t && str_eq e.resource_id j then e.quantity else 0

figure_unnamed :
    (t : LedgerEntryType) (j : String) (rs : List LedgerResourceSummary)
    → named j rs ≡ 0
    → figure t j rs ≡ 0
figure_unnamed t j [] h = refl
figure_unnamed t j (r ∷ rs) h = ground (arith, figure_unnamed t j rs)

add_to_resource-id :
    (type : LedgerEntryType) (e : LedgerEntry) (r : LedgerResourceSummary)
    → (add_to_resource type e r).resource_id ≡ r.resource_id
unfolding add_to_resource
add_to_resource-id type e r = ground arith

add_to_resource-gain :
    (type t : LedgerEntryType) (e : LedgerEntry) (r : LedgerResourceSummary)
    → quantity_of t r ≤ u64_max
    → quantity_of t (add_to_resource type e r)
      ≡ min (quantity_of t r + (if same_type type t then e.quantity else 0)) u64_max
unfolding add_to_resource
add_to_resource-gain type t e r h =
    let sum = saturating_add-eq-min (quantity_of t r) e.quantity h in ground arith

named-add_entry :
    (j : String) (e : LedgerEntry) (rs : List LedgerResourceSummary)
    → named j (add_entry e rs) ≡ (if str_eq e.resource_id j then max (named j rs) 1 else named j rs)
unfolding add_entry
named-add_entry j e [] =
    rw (add_to_resource-id e.type e (new_resource e.resource_id)) (ground arith)
named-add_entry j e (r ∷ rs) =
    let same = add_to_resource-id e.type e r in
    elim (Bool-cases (str_eq r.resource_id e.resource_id)) [
      | inl k ↦ rw (k, same) (ground (arith, eq_iff r.resource_id e.resource_id))
      | inr k ↦ rw k (
          ground (
            arith,
            named-add_entry j e rs,
            eq_iff r.resource_id e.resource_id,
            eq_iff r.resource_id j,
            eq_iff e.resource_id j,
          ))
    ]

figure-add_entry :
    (t : LedgerEntryType) (j : String) (e : LedgerEntry) (rs : List LedgerResourceSummary)
    → named j rs ≤ 1
    → figure t j rs ≤ u64_max
    → figure t j (add_entry e rs) ≡ min (figure t j rs + gain t j e) u64_max
unfolding add_entry
figure-add_entry t j e [] n h =
    let got = add_to_resource-gain e.type t e (new_resource e.resource_id) (ground arith) in
    rw (add_to_resource-id e.type e (new_resource e.resource_id)) (ground arith)
figure-add_entry t j e (r ∷ rs) n h =
    let same = add_to_resource-id e.type e r in
    elim (Bool-cases (str_eq r.resource_id e.resource_id)) [
      | inl k ↦
          rw (k, same)
            (ground (
              arith,
              eq_iff r.resource_id e.resource_id,
              eq_iff r.resource_id j,
              eq_iff e.resource_id j,
              add_to_resource-gain e.type t e r,
              figure_unnamed t j rs,
            ))
      | inr k ↦ rw k (
          ground (
            arith,
            figure-add_entry t j e rs,
            eq_iff r.resource_id e.resource_id,
            eq_iff r.resource_id j,
            eq_iff e.resource_id j,
            figure_unnamed t j rs,
          ))
    ]

resources-add_to_totals :
    (type : LedgerEntryType) (e : LedgerEntry) (s : LedgerSummary)
    → (add_to_totals type e s).resources ≡ s.resources
unfolding add_to_totals
resources-add_to_totals type e s = ground arith

-- The loop keeps at most one summary for each id and sums exactly, up to the bound.
add_entries-figure :
    (t : LedgerEntryType) (j : String) (es : List LedgerEntry) (s : LedgerSummary)
    → named j s.resources ≤ 1
    → figure t j s.resources ≤ u64_max
    → let rs = (add_entries s es).resources in
      (named j rs ≤ 1)
      × (figure t j rs ≡ min (figure t j s.resources + sum_of t (λ e. e.quantity) j es) u64_max)
unfolding add_entries
add_entries-figure t j [] s n h = (n, omega arith)
add_entries-figure t j (e ∷ es) s n h =
    let s1 : LedgerSummary = record s {
      entry_count = s.entry_count + 1;
      resources = add_entry e s.resources;
    } in
    let same = resources-add_to_totals e.type e s1 in
    let names = named-add_entry j e s.resources in
    let sums = figure-add_entry t j e s.resources n h in
    let carried = ap (figure t j) same in
    let (n', f) =
      add_entries-figure t j es (add_to_totals e.type e s1) (rw same (ground arith))
        (rw same (omega arith)) in
    (n', omega (arith, f, carried, sums))

-- Netting and sorting keep what is counted.
figure-net :
    (t : LedgerEntryType) (j : String) (rs : List LedgerResourceSummary)
    → (figure t j (map net_resource rs) ≡ figure t j rs)
      × (named j (map net_resource rs) ≡ named j rs)
unfolding net_resource
figure-net t j [] = (refl, refl)
figure-net t j (r ∷ rs) = let (f, n) = figure-net t j rs in (ground arith, ground arith)

-- What is found under an id, nothing where there is no summary.
abbrev pub found_quantity : LedgerEntryType → Option LedgerResourceSummary → ℕ
found_quantity t none = 0
found_quantity t (some r) = quantity_of t r

found-eq-figure :
    (t : LedgerEntryType) (j : String) (rs : List LedgerResourceSummary)
    → named j rs ≤ 1
    → found_quantity t (find_if (λ r. str_eq r.resource_id j) rs) ≡ figure t j rs
found-eq-figure t j [] h = refl
found-eq-figure t j (r ∷ rs) h = elim (Bool-cases (str_eq r.resource_id j)) [
  | inl e ↦ rw e (ground (arith, figure_unnamed t j rs))
  | inr e ↦ rw e (ground (arith, found-eq-figure t j rs))
]

summary-found :
    (t : LedgerEntryType) (l : EconomyLedger) (j : String)
    → found_quantity t (ledger_resource_summary_by_id (make_ledger_summary l) j)
      ≡ min (sum_of t (λ e. e.quantity) j l.entries) u64_max
unfolding make_ledger_summary ledger_resource_summary_by_id
summary-found t l j =
    let rs = (add_entries empty_summary l.entries).resources in
    let (n, f) = add_entries-figure t j l.entries empty_summary (omega arith) (omega arith) in
    let (f', n') = figure-net t j rs in
    let sorted =
      sum_by-sort resource_before (λ r. if str_eq r.resource_id j then quantity_of t r else 0)
        (map net_resource rs) in
    let counted =
      count_if-sort resource_before (λ r. str_eq r.resource_id j) (map net_resource rs) in
    found-eq-figure t j (sort resource_before (map net_resource rs)) (omega (arith, counted, n', n))
    ∙ sorted
    ∙ f'
    ∙ omega (arith, f)

-- What the summary of a ledger says was bought and sold of a resource is what the ledger's own
-- totals say, for every resource; a resource without a summary was neither bought nor sold.
pub make_ledger_summary-agrees :
    (l : EconomyLedger) (id : String)
    → let found = ledger_resource_summary_by_id (make_ledger_summary l) id in
      (found_quantity LedgerEntryType.buy found ≡ total_bought l id)
      × (found_quantity LedgerEntryType.sell found ≡ total_sold l id)
make_ledger_summary-agrees l id =
    let (bought, sold, _) = totals-exact l id in
    (
      omega (arith, bought, summary-found LedgerEntryType.buy l id),
      omega (arith, sold, summary-found LedgerEntryType.sell l id),
    )
