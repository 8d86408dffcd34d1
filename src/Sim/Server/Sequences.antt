-- ===== src/Sim/Server/Sequences.antt =====
-- Which audit sequences are valid.
use city_life_core.Prelude.{
  ℕ, ◌+◌, ◌≤◌, ◌≡◌, refl, ap, ◌∙◌, inl, inr, Bool-cases, length, Bool, true, not, ◌&&◌, List, [],
  ◌∷◌, All, leb, ◌==◌, if◌then◌else◌, arith, u64_max, wrap64,
}
use city_life_core.Data.Validation.{
  ValidationReport, empty_report, error_if, ok, ok-empty, ok-error_if, ok-add_error_if,
}
use city_life_core.Sim.Server.{
  ServerRuntimeActionAuditRecord, ServerActionSequenceSummary, count_pairs, check_pairs,
  summarize_server_action_sequence, validate_server_action_sequence,
}

-- The sequence numbers count up by one from `first`.
abbrev pub counts_from : ℕ → List ServerRuntimeActionAuditRecord → Bool
counts_from first [] = true
counts_from first (x ∷ xs) = x.sequence == first && counts_from (first + 1) xs

-- Sequence numbers are 64-bit numbers.
abbrev pub InRange : ServerRuntimeActionAuditRecord → Type 0
InRange x = x.sequence ≤ u64_max

-- One pair of neighbours, with what the rest counts from.
pair :
    (x : ServerRuntimeActionAuditRecord) (xs : List ServerRuntimeActionAuditRecord) (previous : ℕ)
    (b : Bool)
    → previous ≤ u64_max
    → x.sequence ≤ u64_max
    → (counts_from (x.sequence + 1) xs
        && not (leb x.sequence previous)
        && (x.sequence == wrap64 (previous + 1))
        && b)
      ≡ (counts_from (previous + 1) (x ∷ xs) && b)
pair x xs previous b h k = elim (Bool-cases (x.sequence == previous + 1)) [
  | inl e ↦
      let next : x.sequence ≡ previous + 1 = ground arith in
      let rest : counts_from (x.sequence + 1) xs ≡ counts_from (previous + 1 + 1) xs =
        ap (λ n. counts_from (n + 1) xs) next in
      ground arith
  | inr e ↦ ground arith
]

ok-check_pairs :
    (xs : List ServerRuntimeActionAuditRecord) (previous : ℕ) (report : ValidationReport)
    → previous ≤ u64_max
    → All InRange xs
    → ok (check_pairs previous xs report) ≡ (counts_from (previous + 1) xs && ok report)
unfolding check_pairs
ok-check_pairs [] previous report h k = refl
ok-check_pairs (x ∷ xs) previous report h (here, rest) =
    ok-check_pairs xs x.sequence _ here rest
    ∙ simp (ok-add_error_if, ok-error_if) (ground (arith, pair x xs previous (ok report) h here))

-- The verdict of a summary: contiguous and strictly increasing.
abbrev pub in_order : ServerActionSequenceSummary → Bool
in_order s = s.contiguous && s.strictly_increasing

count_pairs-in_order :
    (xs : List ServerRuntimeActionAuditRecord) (previous : ℕ) (s : ServerActionSequenceSummary)
    → previous ≤ u64_max
    → All InRange xs
    → (in_order (count_pairs previous xs s) ≡ (counts_from (previous + 1) xs && in_order s))
      × ((count_pairs previous xs s).first_sequence ≡ s.first_sequence)
      × ((count_pairs previous xs s).accepted_count + (count_pairs previous xs s).rejected_count
          ≡ s.accepted_count + s.rejected_count + length xs)
unfolding count_pairs
count_pairs-in_order [] previous s h k = (refl, refl, omega arith)
count_pairs-in_order (x ∷ xs) previous s h (here, rest) =
    let (ordered, first, counted) = count_pairs-in_order xs x.sequence _ here rest in
    (
      ordered ∙ ground (arith, pair x xs previous (in_order s) h here),
      first,
      ground (arith, counted),
    )

-- An audit of 64-bit sequence numbers that is not empty is valid from `first` on exactly when its
-- numbers count up by one from `first`, which is also what its summary says; the summary counts
-- every record as accepted or as rejected.
pub validate_server_action_sequence-exact :
    (x : ServerRuntimeActionAuditRecord) (xs : List ServerRuntimeActionAuditRecord) (first : ℕ)
    → All InRange (x ∷ xs)
    → let s = summarize_server_action_sequence (x ∷ xs) in
      (ok (validate_server_action_sequence (x ∷ xs) first) ≡ counts_from first (x ∷ xs))
      × ((in_order s && s.first_sequence == first) ≡ counts_from first (x ∷ xs))
      × (s.accepted_count + s.rejected_count ≡ length (x ∷ xs))
unfolding validate_server_action_sequence summarize_server_action_sequence
validate_server_action_sequence-exact x xs first (here, rest) =
    let report =
      error_if (not (x.sequence == first)) "server.sequence.first"
        "first sequence does not match expected first sequence" empty_report in
    let start : ServerActionSequenceSummary = record {
      record_count = length (x ∷ xs);
      accepted_count = if x.accepted then 1 else 0;
      rejected_count = if x.accepted then 0 else 1;
      first_sequence = x.sequence;
      last_sequence = x.sequence;
      contiguous = true;
      strictly_increasing = true;
    } in
    let (ordered, kept, counted) = count_pairs-in_order xs x.sequence start here rest in
    let verdict = ok-check_pairs xs x.sequence report here rest in
    let given =
      ok-error_if (not (x.sequence == first)) "server.sequence.first"
        "first sequence does not match expected first sequence" empty_report in
    elim (Bool-cases (x.sequence == first)) [
      | inl e ↦
          let same : x.sequence ≡ first = ground arith in
          let from : counts_from (x.sequence + 1) xs ≡ counts_from (first + 1) xs =
            ap (λ n. counts_from (n + 1) xs) same in
          (verdict ∙ ground (arith, given, ok-empty), ground arith, ground (arith, counted))
      | inr e ↦ (verdict ∙ ground (arith, given, ok-empty), ground arith, ground (arith, counted))
    ]
