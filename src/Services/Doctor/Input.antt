-- ===== src/Services/Doctor/Input.antt =====
-- services/doctor_service.py: `_poneglyphs_to_graph_input`, which flattens the contents of the
-- poneglyphs for the graph.
use grand_line.Common.{ℕ, String, Option, none, some, List, [], ◌∷◌, str_eq, if◌then◌else◌}
use grand_line.Dial.Value.{Value, arr, dict, nil, Fields, end, field, get}
use grand_line.Model.World.{Poneglyph}

-- `d.get(key, default)`
abbrev pub get_or : Value → String → Fields → Value
get_or default k end = default
get_or default k (field j v fs) = let rest = get_or default k fs in if str_eq j k then v else rest

-- An entry of the graph's input.
pub record GraphInput : Type 0 where
  pub phase_number : ℕ
  pub title : Value
  pub task_description : Value
  pub test_criteria : Value
  pub file_paths : Value

-- The content that was read, or the empty one when it could not be read; `none` when it has no `get`.
abbrev pub content_fields : Option Value → Option Fields
content_fields none = some end
content_fields (some (dict fs)) = some fs
content_fields (some _) = none

abbrev pub graph_input : Poneglyph → Fields → GraphInput
graph_input p content = record {
  phase_number = p.phase_number;
  title = get "title" content;
  task_description = get "task_description" content;
  test_criteria = get_or (arr nil) "test_criteria" content;
  file_paths = get_or (arr nil) "file_paths" content;
}

abbrev pub append_input :
    Poneglyph → Option Fields → Option (List GraphInput) → Option (List GraphInput)
append_input p none rest = none
append_input p (some content) none = none
append_input p (some content) (some inputs) = some (graph_input p content ∷ inputs)

-- `loads` is `json.loads`, and `none` a `JSONDecodeError` or `TypeError` of it. The result `none` is an
-- `AttributeError`: a content that is JSON, but no object, has no `get`.
unfoldable pub poneglyphs_to_graph_input :
    (String → Option Value) → List Poneglyph → Option (List GraphInput)
poneglyphs_to_graph_input loads [] = some []
poneglyphs_to_graph_input loads (p ∷ ps) =
    append_input p (content_fields (loads p.content)) (poneglyphs_to_graph_input loads ps)
