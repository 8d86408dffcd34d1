-- ===== src/Data/Validation.antt =====
-- include/clc/data/Validation.hpp and src/clc/data/Validation.cpp. A report is the list of its
-- messages; `add_error` and `add_warning` put one at the end.
use city_life_core.Prelude.{
  ℕ, ◌+◌, ◌≡◌, refl, Bool, true, false, not, ◌&&◌, String, List, [], ◌∷◌, ◌++◌, count_if,
  count_if-append, ◌==◌, if◌then◌else◌, arith,
}

-- enum class ValidationSeverity
pub data ValidationSeverity : Type 0 where
  warning error : ValidationSeverity

-- struct ValidationMessage
pub record ValidationMessage : Type 0 where
  pub severity : ValidationSeverity
  pub path : String
  pub message : String

-- class ValidationReport
pub record ValidationReport : Type 0 where
  pub messages : List ValidationMessage

abbrev pub is_error : ValidationMessage → Bool
is_error m = elim m.severity [
  | ValidationSeverity.warning ↦ false
  | ValidationSeverity.error ↦ true
]

abbrev pub is_warning : ValidationMessage → Bool
is_warning m = not (is_error m)

abbrev pub empty_report : ValidationReport
empty_report = record { messages = [] }

unfoldable pub add_error : ValidationReport → String → String → ValidationReport
add_error r path message = record {
  messages =
      r.messages
      ++ record { severity = ValidationSeverity.error; path = path; message = message } ∷ [];
}

unfoldable pub add_warning : ValidationReport → String → String → ValidationReport
add_warning r path message = record {
  messages =
      r.messages
      ++ record { severity = ValidationSeverity.warning; path = path; message = message } ∷ [];
}

unfoldable pub error_count : ValidationReport → ℕ
error_count r = count_if is_error r.messages

unfoldable pub warning_count : ValidationReport → ℕ
warning_count r = count_if is_warning r.messages

unfoldable pub ok : ValidationReport → Bool
unfolding error_count
ok r = error_count r == 0

-- `if (test) { report.add_error(path, message); }`
unfoldable pub error_if : Bool → String → String → ValidationReport → ValidationReport
error_if test path message r = if test then add_error r path message else r

-- `if (test) { report.add_warning(path, message); }`
unfoldable pub warning_if : Bool → String → String → ValidationReport → ValidationReport
warning_if test path message r = if test then add_warning r path message else r

-- A report of one error, as the early returns make it.
unfoldable pub error_report : String → String → ValidationReport
error_report path message = add_error empty_report path message

-- The body of the loop of `merge_validation`.
add_message : ValidationReport → ValidationSeverity → ValidationMessage → ValidationReport
add_message target ValidationSeverity.error m = add_error target m.path m.message
add_message target ValidationSeverity.warning m = add_warning target m.path m.message

-- The loop: every message once more, at the end of `target`.
merge_messages : ValidationReport → List ValidationMessage → ValidationReport
unfolding add_message
merge_messages target [] = target
merge_messages target (m ∷ ms) = merge_messages (add_message target m.severity m) ms

-- merge_validation of src/clc/sim/SimulationRuntimeTick.cpp
pub merge_validation : ValidationReport → ValidationReport → ValidationReport
unfolding merge_messages
merge_validation target source = merge_messages target source.messages

pub merge_validation-empty : (r : ValidationReport) → merge_validation r empty_report ≡ r
unfolding merge_validation
merge_validation-empty r = refl

pub error_count-add_error :
    (r : ValidationReport) (p m : String) → error_count (add_error r p m) ≡ error_count r + 1
unfolding error_count add_error
error_count-add_error r p m = omega (arith, count_if-append {0} is_error r.messages)

pub error_count-add_warning :
    (r : ValidationReport) (p m : String) → error_count (add_warning r p m) ≡ error_count r
unfolding error_count add_warning
error_count-add_warning r p m = omega (arith, count_if-append {0} is_error r.messages)

pub ok-empty : ok empty_report ≡ true
unfolding ok
ok-empty = refl

pub ok-add_error : (r : ValidationReport) (p m : String) → ok (add_error r p m) ≡ false
unfolding ok
ok-add_error r p m = ground (arith, error_count-add_error r p m)

pub ok-add_warning : (r : ValidationReport) (p m : String) → ok (add_warning r p m) ≡ ok r
unfolding ok
ok-add_warning r p m = ground (arith, error_count-add_warning r p m)

pub ok-error_report : (p m : String) → ok (error_report p m) ≡ false
unfolding error_report
ok-error_report p m = ok-add_error _ p m

pub ok-error_if :
    (b : Bool) (p m : String) (r : ValidationReport) → ok (error_if b p m r) ≡ (not b && ok r)
unfolding error_if
ok-error_if true p m r = ok-add_error r p m
ok-error_if false p m r = refl

pub ok-warning_if :
    (b : Bool) (p m : String) (r : ValidationReport) → ok (warning_if b p m r) ≡ ok r
unfolding warning_if
ok-warning_if true p m r = ok-add_warning r p m
ok-warning_if false p m r = refl

pub ok-add_error_if :
    (b : Bool) (p m : String) (r x : ValidationReport)
    → ok (if b then add_error r p m else x) ≡ (not b && ok x)
ok-add_error_if true p m r x = ok-add_error r p m
ok-add_error_if false p m r x = refl

-- The verdict of a report, read off the tests that built it.
pub ruleset verdicts =
    (ok-empty, ok-add_error, ok-add_warning, ok-error_report, ok-error_if, ok-warning_if)

-- An early return with an error, `s` left as it is, and otherwise `x`.
module _ {S : Type 0} where
  pub ok-refuse_if :
      (b : Bool) (s : S) (p m : String) (x : S × ValidationReport)
      → ok (if b then (s, error_report p m) else x).1 ≡ (not b && ok x.1)
  ok-refuse_if true s p m x = ok-error_report p m
  ok-refuse_if false s p m x = refl

  -- It keeps the state when the verdict is an error, if the rest does.
  pub refuse_if-same :
      (b : Bool) (s : S) (p m : String) (x : S × ValidationReport)
      → (ok x.1 ≡ false → x.0 ≡ s)
      → ok (if b then (s, error_report p m) else x).1 ≡ false
      → (if b then (s, error_report p m) else x).0 ≡ s
  refuse_if-same true s p m x h k = refl
  refuse_if-same false s p m x h k = h k

  -- A verdict without errors comes from the rest.
  pub refuse_if-passes :
      (b : Bool) (s : S) (p m : String) (x : S × ValidationReport)
      → ok (if b then (s, error_report p m) else x).1 ≡ true
      → (ok x.1 ≡ true) × (b ≡ false) × ((if b then (s, error_report p m) else x) ≡ x)
  refuse_if-passes true s p m x h = ground (arith, ok-error_report p m)
  refuse_if-passes false s p m x h = (h, refl, refl)
