-- ===== src/Services/Shipwright/Iteration.antt =====
-- crew/shipwright_graph.py: one iteration asks the model for the files of a phase and runs the
-- phase's tests on them.
use grand_line.Common.{
  Text, last_n, count, ℕ, ℤ, pos, zero, String, Bool, true, false, ◌+◌, ◌&&◌, Option, none, some,
  List, [], ◌∷◌, ◌++◌, ◌==◌, ltb, str_eq, if◌then◌else◌, length,
}
use grand_line.Model.World.{HealthCheck}
use grand_line.Model.Exec.{Result, ok, and_then}

-- schemas/shipwright.py, `BuildArtifactSpec`
pub record BuildArtifactSpec : Type 0 where
  pub file_path : String
  pub content : String
  pub language : String

-- What `json.loads` and the validation of `ShipwrightOutputSpec` make of an answer.
pub data Parsed : Type 0 where
  parsed : List BuildArtifactSpec → Parsed
  rejected : Text → Parsed

-- The fields of schemas/execution.py's `ExecutionResult` that the code reads.
pub record ExecutionResult : Type 0 where
  pub exit_code : ℤ
  pub stdout : Text

-- `ShipwrightState`, without the ids and the raw answer.
pub record ShipwrightState : Type 0 where
  pub phase_number : ℕ
  pub poneglyph : String
  pub health_checks : List HealthCheck
  pub iteration : ℕ
  pub last_test_output : Option Text
  pub injected_context : List String
  pub redirect_instruction : Option String
  pub generated_files : Option (List BuildArtifactSpec)
  pub exit_code : Option ℤ
  pub stdout : Text
  pub passed_count : ℕ
  pub failed_count : ℕ
  pub total_count : ℕ
  pub error : Option Text

-- The sections of a user message, without their fixed wording.
pub data Section : Type 0 where
  poneglyph_section : ℕ → String → Section
  tests_section : List HealthCheck → Section
  redirect_section : String → Section
  context_section : List String → Section
  attempt_section : Text → Section

abbrev pub redirect_part : Option String → List Section
redirect_part none = []
redirect_part (some r) = if str_eq r "" then [] else redirect_section r ∷ []

abbrev pub context_part : List String → List Section
context_part [] = []
context_part (c ∷ cs) = context_section (c ∷ cs) ∷ []

abbrev pub attempt_part : ℕ → Option Text → List Section
attempt_part i none = []
attempt_part i (some []) = []
attempt_part i (some (x ∷ xs)) = if ltb 1 i then attempt_section (last_n 2000 (x ∷ xs)) ∷ [] else []

unfoldable pub build_user_message : ShipwrightState → List Section
build_user_message s =
    poneglyph_section s.phase_number s.poneglyph
      ∷ tests_section s.health_checks
      ∷ redirect_part s.redirect_instruction
    ++ context_part s.injected_context
    ++ attempt_part s.iteration s.last_test_output

-- The texts "PASSED" and "FAILED".
abbrev pub passed_word : Text
passed_word = 80 ∷ 65 ∷ 83 ∷ 83 ∷ 69 ∷ 68 ∷ []

abbrev pub failed_word : Text
failed_word = 70 ∷ 65 ∷ 73 ∷ 76 ∷ 69 ∷ 68 ∷ []

abbrev pub is_zero : ℤ → Bool
is_zero (pos zero) = true
is_zero _ = false

pub record Counts : Type 0 where
  pub passed : ℕ
  pub failed : ℕ
  pub total : ℕ

-- `_parse_counts`, from the two counts of words.
abbrev pub counts_from : ℕ → ℕ → ℤ → ℕ → Counts
counts_from p f exit_code hint =
    let at_least_one = if ltb hint 1 then 1 else hint in
    if (p == 0) && (f == 0)
    then (if is_zero exit_code
        then record { passed = hint; failed = 0; total = hint }
        else record { passed = 0; failed = at_least_one; total = at_least_one })
    else record { passed = p; failed = f; total = p + f }

unfoldable pub parse_counts : Text → ℤ → ℕ → Counts
parse_counts stdout exit_code hint =
    counts_from (count passed_word stdout) (count failed_word stdout) exit_code hint

-- `files[path] = content`
abbrev pub put_file : String → String → List (String × String) → List (String × String)
put_file path content [] = (path, content) ∷ []
put_file path content ((p, c) ∷ files) =
    let rest = put_file path content files in
    if str_eq p path then (path, content) ∷ files else (p, c) ∷ rest

abbrev pub put_generated : List BuildArtifactSpec → List (String × String) → List (String × String)
put_generated [] files = files
put_generated (f ∷ fs) files = put_generated fs (put_file f.file_path f.content files)

abbrev pub put_checks : List HealthCheck → List (String × String) → List (String × String)
put_checks [] files = files
put_checks (hc ∷ hcs) files = put_checks hcs (put_file hc.file_path hc.content files)

-- The files of a test run: a health check replaces a generated file of its path.
unfoldable pub test_files : List BuildArtifactSpec → List HealthCheck → List (String × String)
test_files generated checks = put_checks checks (put_generated generated [])

abbrev pub with_parsed : Parsed → ShipwrightState → ShipwrightState
with_parsed (parsed fs) s = record s { generated_files = some fs; error = none }
with_parsed (rejected e) s = record s { generated_files = none; error = some e }

abbrev pub with_result : ExecutionResult → ShipwrightState → ShipwrightState
with_result r s =
    let c = parse_counts r.stdout r.exit_code (length s.health_checks) in
    record s {
      exit_code = some r.exit_code;
      stdout = r.stdout;
      passed_count = c.passed;
      failed_count = c.failed;
      total_count = c.total;
    }

-- `route i m` is the model's answer to message `m` of iteration `i`, and `execute i fs` the result
-- of its tests on the files `fs`; both may raise. `parse_output` is the parser of an answer.
module _ (route : ℕ → List Section → Result String) (parse_output : String → Parsed)
    (execute : ℕ → List (String × String) → Result ExecutionResult) where
  unfoldable pub generate : ShipwrightState → Result ShipwrightState
  unfolding build_user_message
  generate s =
      and_then (route s.iteration (build_user_message s))
        (λ raw. ok (with_parsed (parse_output raw) s))

  unfoldable pub run_tests_on :
      Option (List BuildArtifactSpec) → ShipwrightState → Result ShipwrightState
  unfolding test_files
  run_tests_on none s = ok (record s {
    exit_code = none;
    stdout = [];
    passed_count = 0;
    failed_count = 0;
    total_count = length s.health_checks;
  })
  run_tests_on (some generated) s =
      and_then (execute s.iteration (test_files generated s.health_checks))
        (λ r. ok (with_result r s))

  unfoldable pub run_tests : ShipwrightState → Result ShipwrightState
  unfolding run_tests_on
  run_tests s = run_tests_on s.generated_files s

  -- The graph of two nodes.
  unfoldable pub invoke : ShipwrightState → Result ShipwrightState
  unfolding generate run_tests
  invoke s = and_then (generate s) run_tests
