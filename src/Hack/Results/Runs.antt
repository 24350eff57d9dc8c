-- ===== src/Hack/Results/Runs.antt =====
-- hack/verify-rollouts-e2e-tests/main.go: what is recorded of the runs of a test.
use argo_rollouts_manager.Go.Errors.{Result, ok, err, panic, ok_inj}
use argo_rollouts_manager.Go.Maps.{insert, lookup-insert, lookup}
use mathlib.Core.List.{append-nil, append_assoc}
use argo_rollouts_manager.Base.{
  ◌∷◌, ◌++◌, String, List, Bool, false, keep, ◌≡◌, ◌==◌, if◌then◌else◌, true, [], Bool-cases, inl,
  text_cases, eq_refl, inr, ==-eq_false, ap, Option, refl, some, ◌∙◌, sym, arith, any, all, not,
  ◌≢◌, subst, ◌||◌, none, ◌⊎◌,
}
use argo_rollouts_manager.Hack.Results.{
  Log, Line, skipped, out_of_range, failed, passed, record_line, is_recorded, runs_at, parse_line,
  step, parse_lines, or_nil, then_result, report_results, verify_tests, checked_log,
  parse_test_results_from_file, empty_log, pass_found,
}

-- Whether a line is about a test.
unfoldable pub is_about : String → Line → Bool
is_about name skipped = false
is_about name out_of_range = false
is_about name (failed other) = other == name
is_about name (passed other) = other == name

-- The lines that are about a test, in order.
unfoldable pub runs_of : String → List String → List String
runs_of name lines = keep (λ line. is_about name (parse_line line)) lines

branches :
    (b : Bool) (v : List String) (o : Option (List String))
    → or_nil (if b then some v else o) ≡ (if b then v else or_nil o)
branches true v o = refl
branches false v o = refl

runs_at-insert :
    (m n : String) (v : List String) (t : List (String × List String))
    → runs_at n (insert m v t) ≡ (if m == n then v else runs_at n t)
runs_at-insert m n v t = ap or_nil (lookup-insert m n v t) ∙ branches (m == n) v (lookup n t)

runs_at-record_line :
    (expected : List String) (n m line : String) (t : List (String × List String))
    → is_recorded expected n ≡ true
    → runs_at n (record_line expected m line t) ≡ runs_at n t ++ (if m == n then line ∷ [] else [])
unfolding record_line
runs_at-record_line expected n m line t h = elim (text_cases m n) [
  | inl e ↦ rw (e, h, runs_at-insert n n (runs_at n t ++ line ∷ []) t, eq_refl n) refl
  | inr d ↦ elim (Bool-cases (is_recorded expected m)) [
    | inl r ↦
        rw
          (
            r,
            runs_at-insert m n (runs_at m t ++ line ∷ []) t,
            ==-eq_false m n d,
            append-nil (runs_at n t),
          )
          refl
    | inr r ↦ rw (r, ==-eq_false m n d, append-nil (runs_at n t)) refl
  ]
]

runs_at-step :
    (expected : List String) (n line : String) (found : Line) (log after : Log)
    → is_recorded expected n ≡ true
    → step expected line found log ≡ ok after
    → runs_at n after.test_results
      ≡ runs_at n log.test_results ++ (if is_about n found then line ∷ [] else [])
unfolding step is_about
runs_at-step expected n line skipped log after r h =
    ap (λ a. runs_at n a.test_results) (sym (ok_inj h))
    ∙ sym (append-nil (runs_at n log.test_results))
runs_at-step expected n line out_of_range log after r h = ground arith
runs_at-step expected n line (failed m) log after r h =
    ap (λ a. runs_at n a.test_results) (sym (ok_inj h))
    ∙ runs_at-record_line expected n m line log.test_results r
runs_at-step expected n line (passed m) log after r h =
    ap (λ a. runs_at n a.test_results) (sym (ok_inj h))
    ∙ runs_at-record_line expected n m line log.test_results r

then_result_inv :
    {A B : Type 0} (r : Result A) (f : A → Result B) (b : B)
    → then_result r f ≡ ok b
    → (a : A) × (r ≡ ok a) × (f a ≡ ok b)
then_result_inv (ok a) f b h = (a, refl, h)
then_result_inv (err e) f b h = ground arith
then_result_inv panic f b h = ground arith

keep_cons :
    (p : String → Bool) (x : String) (xs : List String)
    → (if p x then x ∷ [] else []) ++ keep p xs ≡ keep p (x ∷ xs)
keep_cons p x xs = elim (Bool-cases (p x)) [ inl e ↦ rw e refl | inr e ↦ rw e refl ]

runs_at-parse_lines :
    (expected : List String) (n : String) (lines : List String) (log after : Log)
    → is_recorded expected n ≡ true
    → parse_lines expected lines log ≡ ok after
    → runs_at n after.test_results ≡ runs_at n log.test_results ++ runs_of n lines
unfolding parse_lines runs_of
runs_at-parse_lines expected n [] log after r h =
    ap (λ a. runs_at n a.test_results) (sym (ok_inj h))
    ∙ sym (append-nil (runs_at n log.test_results))
runs_at-parse_lines expected n (line ∷ lines) log after r h =
    let (next, one, rest) =
      then_result_inv (step expected line (parse_line line) log) (parse_lines expected lines) after
        h in
    runs_at-parse_lines expected n lines next after r rest
    ∙ ap (λ xs. xs ++ runs_of n lines)
        (runs_at-step expected n line (parse_line line) log next r one)
    ∙ append_assoc (runs_at n log.test_results)
        (if is_about n (parse_line line) then line ∷ [] else []) (runs_of n lines)
    ∙ ap (λ xs. runs_at n log.test_results ++ xs)
        (keep_cons (λ l. is_about n (parse_line l)) line lines)

checked_log_inv :
    (log : Log) (results : List (String × List String))
    → checked_log log ≡ ok results
    → log.test_results ≡ results
unfolding checked_log
checked_log_inv log results h =
    elim (Bool-cases (not log.at_least_one_fail_seen || not log.at_least_one_pass_seen)) [
      | inl e ↦ cc (rw e at h)
      | inr e ↦ ok_inj (rw e at h)
    ]

-- When the log of the end-to-end tests is parsed without an error, what is recorded of a test that
-- is neither a suite nor expected to fail are the lines of the log that are about it, in order.
pub parse_test_results_from_file-runs :
    (expected lines : List String) (results : List (String × List String)) (n : String)
    → parse_test_results_from_file lines expected ≡ ok results
    → is_recorded expected n ≡ true
    → runs_at n results ≡ runs_of n lines
unfolding parse_test_results_from_file lookup
parse_test_results_from_file-runs expected lines results n h r =
    let (log, parsed, checked) =
      then_result_inv (parse_lines expected lines empty_log) checked_log results h in
    ap (runs_at n) (sym (checked_log_inv log results checked))
    ∙ runs_at-parse_lines expected n lines empty_log log r parsed

pass_found-lookup :
    (n : String) (t : List (String × List String))
    → all (λ run. pass_found run.1) t ≡ true
    → (lookup n t ≡ none) ⊎ (pass_found (runs_at n t) ≡ true)
unfolding lookup
pass_found-lookup n [] h = inl refl
pass_found-lookup n ((m, v) ∷ t) h = elim (Bool-cases (m == n)) [
  | inl e ↦ inr (rw e (ground arith))
  | inr e ↦ rw e (pass_found-lookup n t (ground arith))
]

report_results-all :
    (results : List (String × List String))
    → report_results results ≡ ok tt
    → all (λ run. pass_found run.1) results ≡ true
unfolding report_results
report_results-all [] h = refl
report_results-all (run ∷ results) h =
    elim (Bool-cases (all (λ run. pass_found run.1) (run ∷ results))) [
      | inl e ↦ e
      | inr e ↦ cc (rw e at h)
    ]

any-keep : (p : String → Bool) (xs : List String) → any p xs ≡ true → keep p xs ≢ []
any-keep p [] h e = cc h
any-keep p (x ∷ xs) h e = elim (Bool-cases (p x)) [
  | inl y ↦ cc (rw y at e)
  | inr y ↦ any-keep p xs (rw y at h) (rw y at e)
]

-- When the check of the log ends without an error, every test that a line of the log is about, and
-- which is neither a suite nor expected to fail, has a line with PASS among those that are about
-- it.
pub verify_tests-passed :
    (expected lines : List String) (n : String)
    → verify_tests expected lines ≡ ok tt
    → is_recorded expected n ≡ true
    → any (λ line. is_about n (parse_line line)) lines ≡ true
    → pass_found (runs_of n lines) ≡ true
unfolding verify_tests runs_of
verify_tests-passed expected lines n h r seen =
    let (results, parsed, reported) =
      then_result_inv (parse_test_results_from_file lines expected) report_results tt h in
    let recorded = parse_test_results_from_file-runs expected lines results n parsed r in
    elim (pass_found-lookup n results (report_results-all results reported)) [
      | inl e ↦
          absurd (
            any-keep (λ line. is_about n (parse_line line)) lines seen (sym recorded ∙ ap or_nil e))
      | inr e ↦ subst (λ xs. pass_found xs ≡ true) recorded e
    ]
