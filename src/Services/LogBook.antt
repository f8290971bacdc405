-- ===== src/Services/LogBook.antt =====
-- services/log_book_service.py: the knowledge about repositories that the Captain recalls. Calls of
-- the database are taken to succeed, and created_at is the time of a row.
use Prim.Native.String.{◌++◌ as ◌+s+◌}
use grand_line.Common.{
  ℕ, zero, suc, String, Bool, true, ◌&&◌, List, [], ◌∷◌, ◌++◌, keep, any_by, str_eq, ltb,
  if◌then◌else◌,
}

pub record LogBookEntry : Type 0 where
  pub repo : String
  pub author : String
  pub kind : String
  pub content : String
  pub created_at : ℕ

-- `record`
abbrev pub record_entry : LogBookEntry → List LogBookEntry → List LogBookEntry
record_entry e entries = entries ++ e ∷ []

-- `ORDER BY created_at DESC`
abbrev pub insert_newest : LogBookEntry → List LogBookEntry → List LogBookEntry
insert_newest e [] = e ∷ []
insert_newest e (f ∷ fs) =
    let rest = insert_newest e fs in if ltb e.created_at f.created_at then f ∷ rest else e ∷ f ∷ fs

abbrev pub newest_first : List LogBookEntry → List LogBookEntry
newest_first [] = []
newest_first (e ∷ es) = insert_newest e (newest_first es)

abbrev pub at_most : ℕ → List LogBookEntry → List LogBookEntry
at_most zero es = []
at_most (suc n) [] = []
at_most (suc n) (e ∷ es) = e ∷ at_most n es

-- No kinds are as if there were no filter.
abbrev pub is_of_kinds : List String → LogBookEntry → Bool
is_of_kinds [] e = true
is_of_kinds (k ∷ kinds) e = any_by (λ j. str_eq j e.kind) (k ∷ kinds)

unfoldable pub recall : String → ℕ → List String → List LogBookEntry → List LogBookEntry
recall repo limit kinds entries =
    at_most limit (
      newest_first (keep (λ (e : LogBookEntry). str_eq e.repo repo && is_of_kinds kinds e) entries))

abbrev pub entry_lines : List LogBookEntry → String
entry_lines [] = ""
entry_lines (e ∷ es) = "\n- (" +s+ e.kind +s+ ") " +s+ e.content +s+ entry_lines es

abbrev pub rendered : String → List LogBookEntry → String
rendered repo [] = ""
rendered repo (e ∷ es) =
    "## Log Book — prior knowledge for " +s+ repo +s+ "\n" +s+ entry_lines (e ∷ es)

-- `render_context`
unfoldable pub render_context : String → ℕ → List LogBookEntry → String
unfolding recall
render_context repo limit entries = rendered repo (recall repo limit [] entries)
