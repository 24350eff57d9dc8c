-- ===== src/Hack/Results.antt =====
-- hack/verify-rollouts-e2e-tests/main.go: what the log of the end-to-end tests says of each test.
-- Texts are indexed by bytes, as in Go, and a slice takes whole characters.
pub mod Runs
use argo_rollouts_manager.Go.Text.{trim_space}
use Prim.Native.String.{len, slice}
use text.Mathlib.Text.{find?, starts_with}
use argo_rollouts_manager.Controllers.Scope.{contains}
use argo_rollouts_manager.Controllers.Metadata.{contains_text}
use argo_rollouts_manager.Go.Errors.{Result, ok, err, panic, new_error, append}
use argo_rollouts_manager.Go.Maps.{lookup, insert}
use argo_rollouts_manager.Base.{
  ◌∷◌, ◌++◌, ◌+◌, ◌-◌, Bool, Option, String, List, false, ℕ, some, [], any, if◌then◌else◌, not,
  true, leb, all, ◌&&◌, suc, ◌||◌, none,
}

-- What the body of the loop over the lines finds: nothing, a failed or a passed test by its name, or
-- indices at which the slice panics.
pub data Line : Type 0 where
  skipped out_of_range : Line
  failed passed : String → Line

-- `line[i:j]`
unfoldable pub go_slice : String → ℕ → ℕ → Option String
go_slice line i j = if leb i j && leb j (len line) then some (slice line i j) else none

abbrev pub suite_or_test : Option String → Line
suite_or_test none = out_of_range
suite_or_test (some text) =
    let name = trim_space text in if contains_text name "/" then failed name else skipped

-- The name up to one place before the round brace; an index below zero is out of range.
abbrev pub up_to : String → ℕ → Option ℕ → Line
up_to line i (some (suc j)) = suite_or_test (go_slice line i j)
up_to line i _ = out_of_range

-- A line that starts with `===` and has `FAIL`.
unfoldable pub failed_line : String → Line
failed_line line = elim (find? line "test/e2e") [
  | none ↦ skipped
  | some i ↦ up_to line (i + len "test/e2e" + 1) (find? line "(")
]

abbrev pub between : String → Option ℕ → Option ℕ → Line
between line (some brace) (some dot) =
    if leb (brace - 1) (dot + 1) then skipped else passed (slice line (dot + 1) (brace - 1))
between line _ _ = skipped

-- A line that has `PASS` and a dot.
unfoldable pub passed_line : String → Line
passed_line line = between line (find? line "(") (find? line ".")

unfoldable pub parse_line : String → Line
parse_line line =
    if not (contains_text line "test/e2e")
    then skipped
    else if starts_with line "===" && contains_text line "FAIL"
    then failed_line line
    else if contains_text line "PASS" && contains_text line "."
    then passed_line line
    else skipped

-- The variables of `parseTestResultsFromFile`.
pub record Log : Type 0 where
  pub at_least_one_pass_seen : Bool
  pub at_least_one_fail_seen : Bool
  pub test_results : List (String × List String)

abbrev pub or_nil : Option (List String) → List String
or_nil none = []
or_nil (some lines) = lines

-- `testResults[testName]`
abbrev pub runs_at : String → List (String × List String) → List String
runs_at name results = or_nil (lookup name results)

-- Whether the results of a test are recorded: it is no suite, and not expected to fail.
unfoldable pub is_recorded : List String → String → Bool
is_recorded expected name = not (contains expected name) && contains_text name "/"

-- `testResults[testName] = append(testResults[testName], line)`
unfoldable pub record_line :
    List String → String → String → List (String × List String) → List (String × List String)
record_line expected name line results =
    if is_recorded expected name
    then insert name (runs_at name results ++ line ∷ []) results
    else results

unfoldable pub step : List String → String → Line → Log → Result Log
step expected line skipped log = ok log
step expected line out_of_range log = panic
step expected line (failed name) log = ok (record log {
  at_least_one_fail_seen = true;
  test_results = record_line expected name line log.test_results;
})
step expected line (passed name) log = ok (record log {
  at_least_one_pass_seen = true;
  test_results = record_line expected name line log.test_results;
})

abbrev pub then_result : {A B : Type 0} → Result A → (A → Result B) → Result B
then_result (ok a) f = f a
then_result (err e) f = err e
then_result panic f = panic

unfoldable pub parse_lines : List String → List String → Log → Result Log
parse_lines expected [] log = ok log
parse_lines expected (line ∷ lines) log =
    then_result (step expected line (parse_line line) log) (parse_lines expected lines)

abbrev show_bool : Bool → String
show_bool b = if b then "true" else "false"

abbrev pub empty_log : Log
empty_log = record {
  at_least_one_pass_seen = false;
  at_least_one_fail_seen = false;
  test_results = [];
}

-- Both a pass and a fail must have occurred.
unfoldable pub checked_log : Log → Result (List (String × List String))
checked_log log =
    if not log.at_least_one_fail_seen || not log.at_least_one_pass_seen
    then err (
        new_error (
          append
            "there may be something wrong with the parser: we expect to see both at least one pass, and at least one fail, in the parsed output: "
            (append (show_bool log.at_least_one_fail_seen)
              (append " " (show_bool log.at_least_one_pass_seen)))))
    else ok log.test_results

-- `parseTestResultsFromFile`
unfoldable pub parse_test_results_from_file :
    List String → List String → Result (List (String × List String))
parse_test_results_from_file lines expected =
    then_result (parse_lines expected lines empty_log) checked_log

-- `passFound`
unfoldable pub pass_found : List String → Bool
pass_found runs = any (λ line. contains_text line "PASS") runs

-- The loop over the names, as far as `atLeastOneTestPermFail` goes, and what `main` reports after it.
unfoldable pub report_results : List (String × List String) → Result (Unit {0})
report_results [] = err (new_error "no test results found")
report_results (r ∷ results) =
    if all (λ run. pass_found run.1) (r ∷ results)
    then ok tt
    else err (new_error "at least one test failure occurred")

-- `main`, from the lines of the log on; an error is reported with an exit code of 1.
unfoldable pub verify_tests : List String → List String → Result (Unit {0})
verify_tests expected lines =
    then_result (parse_test_results_from_file lines expected) report_results
