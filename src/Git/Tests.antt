-- ===== src/Git/Tests.antt =====
-- A voyage whose repository is cloned, pushed and cleaned up, and the theorems at it.
use grand_line.Common.{
  ℕ, ◌≡◌, refl, pos, true, false, none, some, List, [], ◌∷◌, ◌++◌, ◌==◌, Text, codes, if◌then◌else◌,
  length,
}
use grand_line.Git.Shell.{quote, plain, read, unread}
use grand_line.Git.Shell.Laws.{read-quote}
use grand_line.Git.Checks.{is_branch_name, is_allowed_host, ParsedUrl}
use grand_line.Git.Desk.{returns, raises, other_error, created, Backend, Desk, ◌>>◌, ◌>>=◌, run}
use grand_line.Git.Reading.{read_branches}
use grand_line.Git.Service.{Settings}
use grand_line.Git.Laws.Accounts.{destroyed_in, lost_in, Accounted}
use grand_line.Git.Laws.Accounting.{keys}
use grand_line.Git.History.{push}
use grand_line.Git.Laws.Whole.{
  Operation, clone, pushing, cleanup, perform_each, perform_each-Accounted,
}

abbrev branch_text : Text
branch_text = codes "it's; rm -rf $HOME"

quote_run : quote (codes "a'b") ≡ codes "'a'\"'\"'b'"
unfolding quote
quote_run = refl

-- A name that begins with a dash is accepted, like one that ends with a line feed.
is_branch_name_run :
    (is_branch_name (codes "--force") ≡ true)
    × (is_branch_name (codes "main" ++ 10 ∷ []) ≡ true)
    × (is_branch_name (codes "a b") ≡ false)
unfolding is_branch_name
is_branch_name_run = (refl, refl, refl)

read-quote_example :
    read (quote branch_text ++ []) unread
    ≡ record { mode = plain; current = some branch_text; tokens = [] }
unfolding read
read-quote_example = read-quote branch_text [] none []

read_branches_run :
    read_branches (codes "main *" ++ 10 ∷ codes "  agent/doctor/1 " ++ 10 ∷ [])
    ≡ record { name = codes "main"; is_current = true }
      ∷ record { name = codes "agent/doctor/1"; is_current = false }
      ∷ []
unfolding read_branches
read_branches_run = refl

abbrev parse : Text → ParsedUrl
parse url = record { hostname = some (codes "github.com"); port = none; path = codes "/a/b.git" }

abbrev settings : Settings
settings = record {
  git_allowed_hosts = [];
  github_api_token = [];
  git_author_name = codes "Crew";
  git_author_email = codes "crew@grandline.dev";
  git_default_branch = codes "main";
}

-- The first clone fails, and the others succeed. The destroy of sandbox 0 returns, and that of any
-- other raises.
abbrev flaky : Backend
flaky = record {
  create = λ calls user. returns (length calls);
  execute = λ calls s command files.
      returns (record { exit_code = if length calls == 1 then pos 128 else pos 0; stdout = [] });
  destroy = λ calls s. if s == 0 then returns tt else raises (other_error "gone");
}

abbrev desk : Desk
desk = record { repos = []; repo_urls = []; calls = [] }

abbrev no_text : ℕ → Text
no_text n = codes "00000000"

abbrev operations : List Operation
operations =
    clone 1 9 (codes "https://github.com/a/b.git") none
    ∷ clone 1 9 (codes "https://github.com/a/b.git") none
    ∷ pushing 1 branch_text none
    ∷ clone 2 9 (codes "https://github.com/a/c.git") (some (codes "t"))
    ∷ cleanup 1
    ∷ []

perform_each-Accounted_example :
    Accounted (perform_each flaky parse settings no_text no_text operations desk)
perform_each-Accounted_example =
    perform_each-Accounted flaky parse settings no_text no_text operations desk (refl, refl)

-- The destroy of sandbox 0 returned, and that of sandbox 3 raised: its row is gone.
lost_run :
    (destroyed_in (perform_each flaky parse settings no_text no_text operations desk).calls
      ≡ 0 ∷ [])
    × (lost_in (perform_each flaky parse settings no_text no_text operations desk).calls ≡ 3 ∷ [])
    × (keys (perform_each flaky parse settings no_text no_text operations desk).repos ≡ 2 ∷ [])
unfolding perform_each ◌>>◌ ◌>>=◌ push is_branch_name is_allowed_host run
lost_run = (refl, refl, refl)

abbrev pushing_desk : Desk
pushing_desk = record {
  repos = (1, 5) ∷ [];
  repo_urls = (1, codes "https://github.com/a/b.git") ∷ [];
  calls = created 5 ∷ [];
}
