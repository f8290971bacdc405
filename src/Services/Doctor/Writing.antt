-- ===== src/Services/Doctor/Writing.antt =====
-- services/doctor_service.py: `write_health_checks`. The best-effort commit to git is left out.
use Prim.Native.String.{count}
use grand_line.Common.{
  ℕ, String, Bool, true, not, ◌&&◌, ◌||◌, Option, none, some, List, [], ◌∷◌, map, leb, str_eq,
  if◌then◌else◌, length, all_by, any_by, contains, codes,
}
use grand_line.Model.Voyage
use grand_line.Model.World.{
  World, Poneglyph, HealthCheck, tdd, Reason, health_check_parse_failed,
  health_check_phase_mismatch, doctor_error, other, CrewAction, Event, set_status, add_card,
}
use grand_line.Model.Exec.{Result, ok, raise, and_then, Exec}
use grand_line.Pipeline.Guards.{poneglyph_phases}
use grand_line.Pipeline.Building.{poneglyph_of}
use grand_line.Dial.Value.{Value}
use grand_line.Services.Doctor.Input.{GraphInput, poneglyphs_to_graph_input}
use grand_line.Services.Paths.{validate_relative_path}
use grand_line.Services.Publishing.{publish_series, add_actions, publish_actions, give_up, numbered}

-- `HealthCheckSpec`
pub record HealthCheckSpec : Type 0 where
  pub phase_number : ℕ
  pub file_path : String
  pub content : String
  pub framework : String

unfoldable pub check_fields_ok : HealthCheckSpec → Bool
unfolding validate_relative_path
check_fields_ok s =
    leb 1 s.phase_number
    && leb 1 (count s.file_path)
    && leb (count s.file_path) 500
    && leb 1 (count s.content)
    && (str_eq s.framework "pytest" || str_eq s.framework "vitest")
    && validate_relative_path (codes s.file_path)

abbrev pub distinct_paths : List HealthCheckSpec → Bool
distinct_paths [] = true
distinct_paths (s ∷ specs) =
    not (any_by (λ (t : HealthCheckSpec). str_eq t.file_path s.file_path) specs)
    && distinct_paths specs

-- `DoctorOutputSpec.model_validate`; `none` is a `ValueError`.
unfoldable pub validate_unique_file_paths : List HealthCheckSpec → Option (List HealthCheckSpec)
unfolding check_fields_ok
validate_unique_file_paths specs =
    if leb 1 (length specs) && all_by check_fields_ok specs && distinct_paths specs
    then some specs
    else none

abbrev pub check_numbers : List HealthCheckSpec → List ℕ
check_numbers specs = map (λ (s : HealthCheckSpec). s.phase_number) specs

-- `xs.issubset(ys)`
abbrev pub is_subset : List ℕ → List ℕ → Bool
is_subset xs ys = all_by (λ n. contains n ys) xs

abbrev pub linked_id : Option Poneglyph → Option ℕ
linked_id none = none
linked_id (some p) = some p.id

-- `route` is the model's answer about the input, `parse_json` reads the specifications from it,
-- and `fresh i` is the id of the i-th new row.
module _ (up : Event → Bool) (route : List GraphInput → Result String)
    (parse_json : String → Option (List HealthCheckSpec)) (fresh : ℕ → ℕ) where
  unfoldable pub validate_health_checks : String → Option (List HealthCheckSpec)
  unfolding validate_unique_file_paths
  validate_health_checks raw = elim (parse_json raw) [
    | none ↦ none
    | some specs ↦ validate_unique_file_paths specs
  ]

  -- The graph of two nodes.
  unfoldable pub generate_checks : List GraphInput → Result (Option (List HealthCheckSpec))
  unfolding validate_health_checks
  generate_checks inputs = and_then (route inputs) (λ raw. ok (validate_health_checks raw))

  abbrev pub check_row : List Poneglyph → ℕ × HealthCheckSpec → HealthCheck
  check_row poneglyphs (i, s) = record {
    id = fresh i;
    poneglyph_id = linked_id (poneglyph_of s.phase_number poneglyphs);
    phase_number = s.phase_number;
    file_path = s.file_path;
    content = s.content;
    framework = s.framework;
    last_run_passed = none;
    last_validation_run_id = none;
  }

  abbrev pub check_rows : List Poneglyph → List HealthCheckSpec → List HealthCheck
  check_rows poneglyphs specs = map (check_row poneglyphs) (numbered 0 specs)

  -- The old health checks of the voyage are deleted.
  abbrev pub record_checks : List Poneglyph → List HealthCheckSpec → World → World
  record_checks poneglyphs specs w =
      let rows = check_rows poneglyphs specs in
      let actions =
        map (λ (h : HealthCheck). CrewAction.health_check_written h.id h.phase_number h.framework)
          rows in
      let events =
        map (λ (h : HealthCheck). Event.health_check_written h.id h.phase_number h.file_path)
          rows in
      let carded =
        add_card tdd (Reason.health_checks_written (length rows) (check_numbers specs))
          (record w { health_checks = rows }) in
      publish_actions up actions
        (publish_series up events (set_status Voyage.charted (add_actions actions carded)))

  abbrev pub finish_checks :
      List Poneglyph → Result (Option (List HealthCheckSpec)) → Exec (List HealthCheck)
  finish_checks poneglyphs (raise e) w = give_up e w
  finish_checks poneglyphs (ok none) w = give_up (doctor_error health_check_parse_failed) w
  finish_checks poneglyphs (ok (some specs)) w =
      if is_subset (check_numbers specs) (poneglyph_phases poneglyphs)
      then (ok (check_rows poneglyphs specs), record_checks poneglyphs specs w)
      else give_up (doctor_error health_check_phase_mismatch) w

  -- The graph, for the input. The input is built before the `try`: what that raises resets no status.
  unfoldable pub check_input : List Poneglyph → Option (List GraphInput) → Exec (List HealthCheck)
  unfolding generate_checks
  check_input poneglyphs none w = (raise (other "AttributeError"), w)
  check_input poneglyphs (some inputs) w = finish_checks poneglyphs (generate_checks inputs) w

  -- `loads` is `json.loads`; `none` is a `JSONDecodeError`.
  unfoldable pub write_health_checks :
      (String → Option Value) → List Poneglyph → Exec (List HealthCheck)
  unfolding check_input poneglyphs_to_graph_input
  write_health_checks loads poneglyphs w =
      check_input poneglyphs (poneglyphs_to_graph_input loads poneglyphs) (set_status Voyage.tdd w)
