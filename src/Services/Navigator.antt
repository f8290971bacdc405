-- ===== src/Services/Navigator.antt =====
-- services/navigator_service.py, crew/navigator_graph.py and the specifications of
-- schemas/navigator.py: `draft_poneglyphs`. The metadata of a poneglyph is left out.
pub mod Laws
use Prim.Native.String.{count}
use grand_line.Common.{
  ℕ, String, Bool, true, false, not, ◌&&◌, Option, none, some, List, [], ◌∷◌, ◌++◌, map, ◌==◌, leb,
  if◌then◌else◌, length, all_by, contains,
}
use grand_line.Model.Voyage
use grand_line.Model.Voyage.{PhaseSpec}
use grand_line.Model.World.{
  World, Plan, Poneglyph, pdd, Reason, poneglyph_parse_failed, poneglyph_phase_mismatch,
  navigator_error, CrewAction, Event, set_status, add_card,
}
use grand_line.Model.Exec.{Result, ok, raise, and_then, Exec}
use grand_line.Plan.Spec.{numbers}
use grand_line.Services.Publishing.{publish_series, add_actions, publish_actions, give_up, numbered}

-- `PoneglyphContentSpec`
pub record PoneglyphContentSpec : Type 0 where
  pub phase_number : ℕ
  pub title : String
  pub task_description : String
  pub technical_constraints : List String
  pub expected_inputs : List String
  pub expected_outputs : List String
  pub test_criteria : List String
  pub file_paths : List String
  pub implementation_notes : String

abbrev pub content_fields_ok : PoneglyphContentSpec → Bool
content_fields_ok s =
    leb 1 s.phase_number
    && leb 1 (count s.title)
    && leb (count s.title) 200
    && leb 1 (count s.task_description)
    && leb 1 (length s.test_criteria)

-- `len(xs) == len(set(xs))`
abbrev pub all_distinct : List ℕ → Bool
all_distinct [] = true
all_distinct (x ∷ xs) = not (contains x xs) && all_distinct xs

abbrev pub spec_numbers : List PoneglyphContentSpec → List ℕ
spec_numbers specs = map (λ (s : PoneglyphContentSpec). s.phase_number) specs

-- `NavigatorOutputSpec.model_validate`; `none` is a `ValueError`.
unfoldable pub validate_unique_phases :
    List PoneglyphContentSpec → Option (List PoneglyphContentSpec)
validate_unique_phases specs =
    if leb 1 (length specs) && all_by content_fields_ok specs && all_distinct (spec_numbers specs)
    then some specs
    else none

-- `xs == ys` for two sets.
abbrev pub same_set : List ℕ → List ℕ → Bool
same_set xs ys = all_by (λ n. contains n ys) xs && all_by (λ n. contains n xs) ys

-- `route` is the model's answer about the phases, `parse_json` reads the specifications from it,
-- `dump_json` writes one, and `fresh i` is the id of the i-th new row.
module _ (up : Event → Bool) (route : List PhaseSpec → Result String)
    (parse_json : String → Option (List PoneglyphContentSpec))
    (dump_json : PoneglyphContentSpec → String) (fresh : ℕ → ℕ) where
  unfoldable pub validate_poneglyphs : String → Option (List PoneglyphContentSpec)
  unfolding validate_unique_phases
  validate_poneglyphs raw = elim (parse_json raw) [
    | none ↦ none
    | some specs ↦ validate_unique_phases specs
  ]

  -- The graph of two nodes.
  unfoldable pub generate_poneglyphs : List PhaseSpec → Result (Option (List PoneglyphContentSpec))
  unfolding validate_poneglyphs
  generate_poneglyphs phases = and_then (route phases) (λ raw. ok (validate_poneglyphs raw))

  abbrev pub poneglyph_row : ℕ × PoneglyphContentSpec → Poneglyph
  poneglyph_row (i, s) = record {
    id = fresh i;
    phase_number = s.phase_number;
    content = dump_json s;
  }

  abbrev pub poneglyph_rows : List PoneglyphContentSpec → List Poneglyph
  poneglyph_rows specs = map poneglyph_row (numbered 0 specs)

  -- The old poneglyphs of the voyage are deleted.
  abbrev pub record_poneglyphs : List PoneglyphContentSpec → World → World
  record_poneglyphs specs w =
      let rows = poneglyph_rows specs in
      let actions =
        map (λ (p : Poneglyph). CrewAction.poneglyph_drafted p.id p.phase_number) rows in
      let events = map (λ (p : Poneglyph). Event.poneglyph_drafted p.id p.phase_number) rows in
      let carded =
        add_card pdd (Reason.poneglyphs_drafted (length rows) (spec_numbers specs))
          (record w { poneglyphs = rows }) in
      publish_actions up actions
        (publish_series up events (set_status Voyage.charted (add_actions actions carded)))

  abbrev pub finish_poneglyphs :
      Plan → Result (Option (List PoneglyphContentSpec)) → Exec (List Poneglyph)
  finish_poneglyphs plan (raise e) w = give_up e w
  finish_poneglyphs plan (ok none) w = give_up (navigator_error poneglyph_parse_failed) w
  finish_poneglyphs plan (ok (some specs)) w =
      if same_set (spec_numbers specs) (numbers plan.phases)
      then (ok (poneglyph_rows specs), record_poneglyphs specs w)
      else give_up (navigator_error poneglyph_phase_mismatch) w

  unfoldable pub draft_poneglyphs : Plan → Exec (List Poneglyph)
  unfolding generate_poneglyphs
  draft_poneglyphs plan w =
      finish_poneglyphs plan (generate_poneglyphs plan.phases) (set_status Voyage.pdd w)
