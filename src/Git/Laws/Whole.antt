-- ===== src/Git/Laws/Whole.antt =====
-- Series of operations of `GitService`.
use grand_line.Common.{ℕ, Option, List, [], ◌∷◌, Text}
use grand_line.Git.Checks.{ParsedUrl}
use grand_line.Git.Desk.{Backend, Desk}
use grand_line.Git.Service.{Settings, clone_repo, create_branch, list_branches, commit}
use grand_line.Git.History.{
  push, get_head_sha, get_log, check_conflicts, list_changed_files, diff_refs, get_file_content,
  cleanup_branches, cleanup_all,
}
use grand_line.Git.Laws.Operations.{
  create_branch-IsQuiet, list_branches-IsQuiet, commit-IsQuiet, push-IsQuiet, get_head_sha-IsQuiet,
  get_log-IsQuiet, check_conflicts-IsQuiet, list_changed_files-IsQuiet, diff_refs-IsQuiet,
  get_file_content-IsQuiet,
}
use grand_line.Git.Laws.Accounting.{Tracked, Tracked-Quiet}
use grand_line.Git.Laws.Accounts.{Accounted, Tracked-Accounted, Accounted-Tracked}
use grand_line.Git.Laws.Cloning.{clone_repo-Tracked}
use grand_line.Git.Laws.Cleaning.{cleanup_branches-Tracked, cleanup_all-Tracked}

-- A call of the service for a voyage.
pub data Operation : Type 0 where
  clone : ℕ → ℕ → Text → Option Text → Operation
  branch : ℕ → Text → Text → Operation
  branches : ℕ → Operation
  committing : ℕ → Text → Text → List (Text × Text) → Text → Operation
  pushing : ℕ → Text → Option Text → Operation
  head_sha : ℕ → Text → Operation
  log : ℕ → Text → ℕ → Operation
  conflicts changed_files : ℕ → Text → Text → Operation
  diffing : ℕ → Text → Text → Option Text → Operation
  file_content : ℕ → Text → Text → Operation
  cleanup : ℕ → Operation
  cleanup_everything : Operation

module _ (backend : Backend) (urlparse : Text → ParsedUrl) (settings : Settings)
    (hex decimal : ℕ → Text) where
  -- What an operation leaves behind, returned or raised.
  unfoldable pub perform : Operation → Desk → Desk
  unfolding clone_repo cleanup_branches cleanup_all
  perform (clone v user url token) d =
      (clone_repo backend urlparse settings hex decimal v user url token d).1
  perform (branch v crew base) d =
      (create_branch backend urlparse settings hex decimal v crew base d).1
  perform (branches v) d = (list_branches backend urlparse settings hex decimal v d).1
  perform (committing v message crew files login) d =
      (commit backend urlparse settings hex decimal v message crew files login d).1
  perform (pushing v name token) d = (push backend urlparse decimal v name token d).1
  perform (head_sha v ref) d = (get_head_sha backend urlparse decimal v ref d).1
  perform (log v name limit) d = (get_log backend urlparse decimal v name limit d).1
  perform (conflicts v name target) d = (check_conflicts backend urlparse decimal v name target d).1
  perform (changed_files v base head) d =
      (list_changed_files backend urlparse decimal v base head d).1
  perform (diffing v base head path) d = (diff_refs backend urlparse decimal v base head path d).1
  perform (file_content v ref path) d = (get_file_content backend urlparse decimal v ref path d).1
  perform (cleanup v) d = (cleanup_branches backend urlparse decimal v d).1
  perform cleanup_everything d = (cleanup_all backend urlparse decimal d).1

  unfoldable pub perform_each : List Operation → Desk → Desk
  unfolding perform
  perform_each [] d = d
  perform_each (o ∷ os) d = perform_each os (perform o d)

  perform-Tracked : (o : Operation) (d : Desk) → Tracked d → Tracked (perform o d)
  unfolding perform
  perform-Tracked (clone v user url token) d h =
      clone_repo-Tracked backend urlparse settings hex decimal v user url token d h
  perform-Tracked (branch v crew base) d h =
      Tracked-Quiet (create_branch-IsQuiet backend urlparse settings hex decimal v crew base d) h
  perform-Tracked (branches v) d h =
      Tracked-Quiet (list_branches-IsQuiet backend urlparse settings hex decimal v d) h
  perform-Tracked (committing v message crew files login) d h =
      Tracked-Quiet
        (commit-IsQuiet backend urlparse settings hex decimal v message crew files login d) h
  perform-Tracked (pushing v name token) d h =
      Tracked-Quiet (push-IsQuiet backend urlparse decimal v name token d) h
  perform-Tracked (head_sha v ref) d h =
      Tracked-Quiet (get_head_sha-IsQuiet backend urlparse decimal v ref d) h
  perform-Tracked (log v name limit) d h =
      Tracked-Quiet (get_log-IsQuiet backend urlparse decimal v name limit d) h
  perform-Tracked (conflicts v name target) d h =
      Tracked-Quiet (check_conflicts-IsQuiet backend urlparse decimal v name target d) h
  perform-Tracked (changed_files v base head) d h =
      Tracked-Quiet (list_changed_files-IsQuiet backend urlparse decimal v base head d) h
  perform-Tracked (diffing v base head path) d h =
      Tracked-Quiet (diff_refs-IsQuiet backend urlparse decimal v base head path d) h
  perform-Tracked (file_content v ref path) d h =
      Tracked-Quiet (get_file_content-IsQuiet backend urlparse decimal v ref path d) h
  perform-Tracked (cleanup v) d h = cleanup_branches-Tracked backend urlparse decimal v d h
  perform-Tracked cleanup_everything d h = cleanup_all-Tracked backend urlparse decimal d h

  perform_each-Tracked : (os : List Operation) (d : Desk) → Tracked d → Tracked (perform_each os d)
  unfolding perform_each
  perform_each-Tracked [] d h = h
  perform_each-Tracked (o ∷ os) d h = perform_each-Tracked os (perform o d) (perform-Tracked o d h)

  -- Whatever the backend answers, in every series of operations one after the other, returned or
  -- raised: if at first each sandbox that was created is that of a voyage, or was destroyed, or is one
  -- whose destroy raised, and the voyages with a sandbox are those with a URL, then so it is at the end.
  pub perform_each-Accounted :
      (os : List Operation) (d : Desk) → Accounted d → Accounted (perform_each os d)
  perform_each-Accounted os d h =
      Tracked-Accounted (perform_each os d) (perform_each-Tracked os d (Accounted-Tracked d h))
