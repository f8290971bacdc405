-- ===== src/Deck/Pages.antt =====
-- The queries of `list_voyages` and `list_crew_actions` of api/v1/observation_deck.py: the rows behind a
-- cursor, newest first, up to a limit. A row is told by its time and its id.
pub mod Sorting
pub mod Whole
use grand_line.Common.{
  ℕ, zero, suc, ◌+◌, Bool, true, false, not, ◌&&◌, ◌||◌, Option, none, some, List, [], ◌∷◌, ◌++◌,
  ◌==◌, ltb, leb, if◌then◌else◌, length, keep,
}
use grand_line.Model.Voyage.{VoyageStatus, completed, failed, cancelled}

-- `Cursor`: the time and the id of the last row of a page.
pub record Cursor : Type 0 where
  pub ts : ℕ
  pub row_id : ℕ

-- The columns of a `Voyage` or of a `CrewAction` that a query reads: for the one the owner and
-- `updated_at`, for the other the voyage and `created_at`.
pub record DeckRow : Type 0 where
  pub id : ℕ
  pub parent : ℕ
  pub status : VoyageStatus
  pub at_time : ℕ

pub data StatusFilter : Type 0 where
  active terminal : StatusFilter

abbrev pub is_terminal_status : VoyageStatus → Bool
is_terminal_status completed = true
is_terminal_status failed = true
is_terminal_status cancelled = true
is_terminal_status s = false

abbrev pub has_asked_status : Option StatusFilter → VoyageStatus → Bool
has_asked_status none s = true
has_asked_status (some active) s = not (is_terminal_status s)
has_asked_status (some terminal) s = is_terminal_status s

-- `(time, id) < (cursor.ts, cursor.id)`, written out.
abbrev pub is_behind : Cursor → DeckRow → Bool
is_behind c r = ltb r.at_time c.ts || ((r.at_time == c.ts) && ltb r.id c.row_id)

abbrev pub behind : Option Cursor → DeckRow → Bool
behind none r = true
behind (some c) r = is_behind c r

abbrev pub cursor_of : DeckRow → Cursor
cursor_of r = record { ts = r.at_time; row_id = r.id }

-- `ORDER BY time DESC, id DESC`
abbrev pub insert_row : DeckRow → List DeckRow → List DeckRow
insert_row r [] = r ∷ []
insert_row r (q ∷ qs) =
    let rest = insert_row r qs in if is_behind (cursor_of q) r then q ∷ rest else r ∷ q ∷ qs

abbrev pub descending : List DeckRow → List DeckRow
descending [] = []
descending (r ∷ rs) = insert_row r (descending rs)

-- `LIMIT n`
abbrev pub first_rows : ℕ → List DeckRow → List DeckRow
first_rows zero rs = []
first_rows (suc n) [] = []
first_rows (suc n) (r ∷ rs) = r ∷ first_rows n rs

-- `rows[-1]`
abbrev pub last_row : DeckRow → List DeckRow → DeckRow
last_row r [] = r
last_row r (q ∷ qs) = last_row q qs

-- `next_cursor`: that of the last row of a full page.
abbrev pub next_of : ℕ → List DeckRow → Option Cursor
next_of limit [] = none
next_of limit (r ∷ rs) = if length (r ∷ rs) == limit then some (cursor_of (last_row r rs)) else none

abbrev pub page_rows : (DeckRow → Bool) → ℕ → Option Cursor → List DeckRow → List DeckRow
page_rows where_clause limit cursor table =
    first_rows limit (descending (keep (λ r. where_clause r && behind cursor r) table))

abbrev pub page : (DeckRow → Bool) → ℕ → Option Cursor → List DeckRow → List DeckRow × Option Cursor
page where_clause limit cursor table =
    let rows = page_rows where_clause limit cursor table in (rows, next_of limit rows)

unfoldable pub list_voyages :
    ℕ → Option StatusFilter → ℕ → Option Cursor → List DeckRow → List DeckRow × Option Cursor
list_voyages user status limit cursor table =
    page (λ r. (r.parent == user) && has_asked_status status r.status) limit cursor table

unfoldable pub list_crew_actions :
    ℕ → ℕ → Option Cursor → List DeckRow → List DeckRow × Option Cursor
list_crew_actions voyage limit cursor table = page (λ r. r.parent == voyage) limit cursor table

abbrev pub before_rows : List DeckRow → Option (List DeckRow) → Option (List DeckRow)
before_rows rows none = none
before_rows rows (some rest) = some (rows ++ rest)

abbrev pub next_page :
    (Cursor → Option (List DeckRow)) → List DeckRow → Option Cursor → Option (List DeckRow)
next_page go rows none = some rows
next_page go rows (some c) = before_rows rows (go c)

-- A client that follows the cursors to the end: one request for each unit of fuel.
abbrev pub follow :
    (Option Cursor → List DeckRow × Option Cursor) → ℕ → Option Cursor → Option (List DeckRow)
follow request zero cursor = none
follow request (suc fuel) cursor =
    next_page (λ c. follow request fuel (some c)) (request cursor).0 (request cursor).1
