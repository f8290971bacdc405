-- ===== src/Services/Doctor/Laws.antt =====
-- What the Doctor writes: health checks for drafted phases, in files of the workspace.
use grand_line.Common.{
  ℕ, suc, ◌≡◌, refl, sym, if◌then◌else◌, any_by, String, Bool, true, false, ◌&&◌, ◌||◌, Option,
  none, some, List, [], ◌∷◌, map, arith, ap, &&-left, &&-right, all_by, codes, leb, length, str_eq,
  Bool-cases, inl, inr,
}
use Prim.Native.String.{count}
use grand_line.Dial.Value.{Value, null, bool, int, negative, real, str, arr, dict, Fields}
use grand_line.Model.Voyage
use grand_line.Model.World.{World, Poneglyph, HealthCheck, Event, status_of, set_status}
use grand_line.Model.Exec.{Result, ok, raise, and_then}
use grand_line.Pipeline.Guards.{poneglyph_phases, health_check_phases}
use grand_line.Services.Doctor.Input.{
  GraphInput, content_fields, append_input, poneglyphs_to_graph_input,
}
use grand_line.Services.Paths.{split_slash, validate_relative_path}
use grand_line.Services.Paths.Laws.{stays_below, validate_relative_path-stays_below}
use grand_line.Services.Publishing.{numbered}
use grand_line.Services.Doctor.Writing.{
  HealthCheckSpec, check_fields_ok, distinct_paths, validate_unique_file_paths, check_numbers,
  is_subset, validate_health_checks, generate_checks, check_row, finish_checks, check_input,
  write_health_checks,
}

-- The file of a health check lies in the workspace.
abbrev pub in_workspace : String → Bool
in_workspace path = stays_below 0 (split_slash (codes path))

-- JSON that is no object.
abbrev is_no_object : Option Value → Bool
is_no_object none = false
is_no_object (some (dict fs)) = false
is_no_object (some _) = true

abbrev pub some_no_object : (String → Option Value) → List Poneglyph → Bool
some_no_object loads ps = any_by (λ (p : Poneglyph). is_no_object (loads p.content)) ps

-- What the Doctor promises of health checks for these poneglyphs.
abbrev pub Written :
    (String → Option Value) → List Poneglyph → World → Result (List HealthCheck) × World → Type 0
Written loads ps w (ok rows, w') =
    (w'.health_checks ≡ rows)
    × (is_subset (health_check_phases rows) (poneglyph_phases ps) ≡ true)
    × (all_by (λ (h : HealthCheck). in_workspace h.file_path) rows ≡ true)
    × (status_of w' ≡ Voyage.charted)
    × (some_no_object loads ps ≡ false)
Written loads ps w (raise e, w') =
    (w'.health_checks ≡ w.health_checks)
    × (status_of w' ≡ (if some_no_object loads ps then Voyage.tdd else Voyage.charted))

abbrev is_missing : {A : Type 0} → Option A → Bool
is_missing none = true
is_missing (some _) = false

content_fields-missing : (o : Option Value) → is_missing (content_fields o) ≡ is_no_object o
content_fields-missing none = refl
content_fields-missing (some null) = refl
content_fields-missing (some (bool b)) = refl
content_fields-missing (some (int n)) = refl
content_fields-missing (some (negative n)) = refl
content_fields-missing (some (real s)) = refl
content_fields-missing (some (str s)) = refl
content_fields-missing (some (arr vs)) = refl
content_fields-missing (some (dict fs)) = refl

append_input-missing :
    (p : Poneglyph) (o : Option Fields) (rest : Option (List GraphInput))
    → is_missing (append_input p o rest) ≡ (is_missing o || is_missing rest)
append_input-missing p none rest = refl
append_input-missing p (some fs) none = refl
append_input-missing p (some fs) (some inputs) = refl

inputs-missing :
    (loads : String → Option Value) (ps : List Poneglyph)
    → is_missing (poneglyphs_to_graph_input loads ps) ≡ some_no_object loads ps
unfolding poneglyphs_to_graph_input
inputs-missing loads [] = refl
inputs-missing loads (p ∷ ps) = ground (
  arith,
  append_input-missing p (content_fields (loads p.content)) (poneglyphs_to_graph_input loads ps),
  content_fields-missing (loads p.content),
  inputs-missing loads ps,
)

abbrev spec_in_workspace : HealthCheckSpec → Bool
spec_in_workspace s = in_workspace s.file_path

last_of_six : (a b c d e f : Bool) → (a && b && c && d && e && f) ≡ true → f ≡ true
last_of_six a b c d e f h = ground arith

middle_of_three : (a b c : Bool) → (a && b && c) ≡ true → b ≡ true
middle_of_three a b c h = ground arith

check_fields_ok-in_workspace :
    (s : HealthCheckSpec) → check_fields_ok s ≡ true → in_workspace s.file_path ≡ true
unfolding check_fields_ok
check_fields_ok-in_workspace s h = validate_relative_path-stays_below (codes s.file_path) (
    last_of_six (leb 1 s.phase_number) (leb 1 (count s.file_path)) (leb (count s.file_path) 500)
      (leb 1 (count s.content)) (str_eq s.framework "pytest" || str_eq s.framework "vitest")
      (validate_relative_path (codes s.file_path)) h)

all-in_workspace :
    (specs : List HealthCheckSpec)
    → all_by check_fields_ok specs ≡ true
    → all_by spec_in_workspace specs ≡ true
all-in_workspace [] h = refl
all-in_workspace (s ∷ specs) h = ground (
  arith,
  check_fields_ok-in_workspace s (&&-left (check_fields_ok s) (all_by check_fields_ok specs) h),
  all-in_workspace specs (&&-right (check_fields_ok s) (all_by check_fields_ok specs) h),
)

-- What holds of the specifications that a graph returns.
abbrev Kept : (List HealthCheckSpec → Type 0) → Result (Option (List HealthCheckSpec)) → Type 0
Kept P (ok (some specs)) = P specs
Kept P _ = Unit

abbrev InWorkspace : List HealthCheckSpec → Type 0
InWorkspace specs = all_by spec_in_workspace specs ≡ true

Kept-validate :
    (specs : List HealthCheckSpec) → Kept InWorkspace (ok (validate_unique_file_paths specs))
unfolding validate_unique_file_paths
Kept-validate specs =
    elim (Bool-cases
      (leb 1 (length specs) && all_by check_fields_ok specs && distinct_paths specs)) [
        | inl e ↦ rw e (
            all-in_workspace specs (
              middle_of_three (leb 1 (length specs)) (all_by check_fields_ok specs)
                (distinct_paths specs) e))
        | inr e ↦ rw e tt
      ]

module _ (up : Event → Bool) (route : List GraphInput → Result String)
    (parse_json : String → Option (List HealthCheckSpec)) (fresh : ℕ → ℕ) where
  Kept-health_checks :
      (raw : String) → Kept InWorkspace (ok (validate_health_checks up route parse_json fresh raw))
  unfolding validate_health_checks
  Kept-health_checks raw =
      elim (parse_json raw)
        as (λ found.
          Kept InWorkspace
            (ok (elim found [ none ↦ none | some specs ↦ validate_unique_file_paths specs ]))) [
              | none ↦ tt
              | some specs ↦ Kept-validate specs
            ]

  Kept-generate :
      (inputs : List GraphInput)
      → Kept InWorkspace (generate_checks up route parse_json fresh inputs)
  unfolding generate_checks
  Kept-generate inputs =
      elim (route inputs)
        as (λ answer.
          Kept InWorkspace
            (and_then answer (λ raw. ok (validate_health_checks up route parse_json fresh raw)))) [
              | ok raw ↦ Kept-health_checks raw
              | raise e ↦ tt
            ]

  health_check_phases-rows :
      (ps : List Poneglyph) (i : ℕ) (specs : List HealthCheckSpec)
      → health_check_phases (map (check_row up route parse_json fresh ps) (numbered i specs))
        ≡ check_numbers specs
  health_check_phases-rows ps i [] = refl
  health_check_phases-rows ps i (s ∷ specs) =
      ap (λ ns. s.phase_number ∷ ns) (health_check_phases-rows ps (suc i) specs)

  rows-in_workspace :
      (ps : List Poneglyph) (i : ℕ) (specs : List HealthCheckSpec)
      → all_by
          (λ (h : HealthCheck). in_workspace h.file_path)
          (map (check_row up route parse_json fresh ps) (numbered i specs))
        ≡ all_by spec_in_workspace specs
  rows-in_workspace ps i [] = refl
  rows-in_workspace ps i (s ∷ specs) =
      ap (λ b. in_workspace s.file_path && b) (rows-in_workspace ps (suc i) specs)

  module _ (loads : String → Option Value) (ps : List Poneglyph) where
    finish_checks-Written :
        (r : Result (Option (List HealthCheckSpec))) (w : World)
        → some_no_object loads ps ≡ false
        → Kept InWorkspace r
        → Written loads ps w (finish_checks up route parse_json fresh ps r w)
    finish_checks-Written (raise e) w u k = (refl, rw u refl)
    finish_checks-Written (ok none) w u k = (refl, rw u refl)
    finish_checks-Written (ok (some specs)) w u k =
        elim (Bool-cases (is_subset (check_numbers specs) (poneglyph_phases ps))) [
          | inl e ↦ rw e (
            refl,
            rw (health_check_phases-rows ps 0 specs) e,
            rw (rows-in_workspace ps 0 specs) k,
            refl,
            u,
          )
          | inr e ↦ rw e (refl, rw u refl)
        ]

    check_input-Written :
        (o : Option (List GraphInput)) (w : World)
        → is_missing o ≡ some_no_object loads ps
        → Written loads ps w (check_input up route parse_json fresh ps o (set_status Voyage.tdd w))
    unfolding check_input
    check_input-Written none w u = (refl, rw (sym u) refl)
    check_input-Written (some inputs) w u =
        finish_checks-Written (generate_checks up route parse_json fresh inputs)
          (set_status Voyage.tdd w) (sym u) (Kept-generate inputs)

    -- Whatever the model and the parsers do: if `write_health_checks` returns health checks, the voyage
    -- is CHARTED, they are its only ones, each is for a phase with a poneglyph, the path of none climbs
    -- out of the workspace, and the content of no poneglyph is JSON but no object. If it raises, the
    -- health checks are as before, and the voyage is CHARTED, or left in TDD when the content of some
    -- poneglyph is JSON but no object.
    pub write_health_checks-Written :
        (w : World) → Written loads ps w (write_health_checks up route parse_json fresh loads ps w)
    unfolding write_health_checks
    write_health_checks-Written w =
        check_input-Written (poneglyphs_to_graph_input loads ps) w (inputs-missing loads ps)
