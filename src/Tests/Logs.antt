-- ===== src/Tests/Logs.antt =====
-- A log of the end-to-end tests.
use argo_rollouts_manager.Go.Errors.{panic, ok}
use argo_rollouts_manager.Hack.Results.{
  pass_found, parse_test_results_from_file, verify_tests, runs_at, report_results, is_recorded,
  parse_line,
}
use argo_rollouts_manager.Base.{◌∷◌, ◌≡◌, List, [], String, true, refl, any}
use argo_rollouts_manager.Hack.Results.Runs.{verify_tests-passed, is_about, runs_of}

abbrev expected : List String
expected = "TestFunctionalSuite/TestControllerMetrics" ∷ []

-- One test that fails and then passes, and one that is expected to fail.
abbrev log : List String
log =
    "=== FAIL: test/e2e TestCanarySuite/TestStep (unknown)"
    ∷ "=== FAIL: test/e2e TestFunctionalSuite/TestControllerMetrics (unknown)"
    ∷ "=== FAIL: test/e2e TestCanarySuite (unknown)"
    ∷ "PASS test/e2e.TestCanarySuite/TestStep (20.91s)" ∷ "DONE 6 runs" ∷ []

-- What is recorded of it.
abbrev recorded : List (String × List String)
recorded =
    (
      "TestCanarySuite/TestStep",
      "=== FAIL: test/e2e TestCanarySuite/TestStep (unknown)"
          ∷ "PASS test/e2e.TestCanarySuite/TestStep (20.91s)" ∷ [],
    )
    ∷ []

log_run : parse_test_results_from_file log expected ≡ ok recorded
unfolding parse_test_results_from_file argo_rollouts_manager.Hack.Results.parse_lines
    argo_rollouts_manager.Hack.Results.step parse_line
    argo_rollouts_manager.Hack.Results.failed_line argo_rollouts_manager.Hack.Results.go_slice
    argo_rollouts_manager.Go.Text.trim_space argo_rollouts_manager.Hack.Results.passed_line
    argo_rollouts_manager.Hack.Results.checked_log argo_rollouts_manager.Hack.Results.record_line
    is_recorded argo_rollouts_manager.Controllers.Scope.contains
    argo_rollouts_manager.Go.Maps.insert argo_rollouts_manager.Go.Maps.lookup
log_run = refl

log_verified : verify_tests expected log ≡ ok tt
unfolding verify_tests report_results pass_found
log_verified = rw log_run refl

canary_recorded : is_recorded expected "TestCanarySuite/TestStep" ≡ true
unfolding is_recorded argo_rollouts_manager.Controllers.Scope.contains
canary_recorded = refl

canary_seen : any (λ line. is_about "TestCanarySuite/TestStep" (parse_line line)) log ≡ true
unfolding is_about parse_line argo_rollouts_manager.Hack.Results.failed_line
    argo_rollouts_manager.Hack.Results.go_slice argo_rollouts_manager.Go.Text.trim_space
canary_seen = refl

-- A line of a failed test without a round brace.
no_brace :
    parse_test_results_from_file ("=== FAIL: test/e2e TestCanarySuite/TestStep" ∷ []) [] ≡ panic
unfolding parse_test_results_from_file argo_rollouts_manager.Hack.Results.parse_lines
    argo_rollouts_manager.Hack.Results.step parse_line
    argo_rollouts_manager.Hack.Results.failed_line
no_brace = refl

verify_tests-passed_example : pass_found (runs_of "TestCanarySuite/TestStep" log) ≡ true
verify_tests-passed_example =
    verify_tests-passed expected log "TestCanarySuite/TestStep" log_verified canary_recorded
      canary_seen
