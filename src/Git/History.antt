-- ===== src/Git/History.antt =====
-- The operations of `GitService` in services/git_service.py that push, read the history or clean up.
-- What `diff`, `get_file_content` and `push` give back beside the text that they got is left out.
use grand_line.Common.{
  ℕ, Bool, true, false, not, Option, none, some, List, [], ◌∷◌, ◌++◌, Text, codes,
}
use grand_line.Services.Paths.{occurs}
use grand_line.Git.Shell.{quote}
use grand_line.Git.Checks.{ParsedUrl, inject_token}
use grand_line.Git.Desk.{
  repo_not_cloned, git_ref_unresolvable, returns, destroy_call, Backend, Desk, Session, ◌>>=◌, ◌>>◌,
  pure, throw, called, lookup, without, get_sandbox, run, run_unchecked,
}
use grand_line.Git.Reading.{
  strip, GitCommitInfo, GitChangedFile, GitConflictInfo, read_log, read_changed_files,
  read_conflicts,
}
use grand_line.Git.Service.{
  in_repo, validate_branch_component, validate_repo_path, push_command, diff_command, merge_command,
}

-- `if not repo_url: raise`
abbrev pub url_or_raise : Option Text → Session Text
url_or_raise none = throw repo_not_cloned
url_or_raise (some []) = throw repo_not_cloned
url_or_raise (some (c ∷ url)) = pure (c ∷ url)

module _ (backend : Backend) (urlparse : Text → ParsedUrl) (decimal : ℕ → Text) where
  abbrev pub push_target : ℕ → Option Text → Session Text
  push_target voyage_id none = pure (codes "origin")
  push_target voyage_id (some token) = λ d.
      (url_or_raise (lookup voyage_id d.repo_urls) >>= λ repo_url.
      pure (quote (inject_token urlparse repo_url token)))
        d

  unfoldable pub push : ℕ → Text → Option Text → Session Unit
  push voyage_id branch token = do
    validate_branch_component branch
    sandbox_id ← get_sandbox voyage_id
    target ← push_target voyage_id token
    run backend sandbox_id (push_command target branch)
    pure tt

  abbrev pub sha_or_raise : Text → Session Text
  sha_or_raise [] = throw git_ref_unresolvable
  sha_or_raise (c ∷ sha) = pure (c ∷ sha)

  unfoldable pub get_head_sha : ℕ → Text → Session Text
  get_head_sha voyage_id ref = do
    validate_branch_component ref
    sandbox_id ← get_sandbox voyage_id
    stdout ←
        run backend sandbox_id (in_repo (codes "git rev-parse " ++ quote ref ++ codes "^{commit}"))
    sha_or_raise (strip stdout)

  unfoldable pub get_log : ℕ → Text → ℕ → Session (List GitCommitInfo)
  get_log voyage_id branch limit = do
    validate_branch_component branch
    sandbox_id ← get_sandbox voyage_id
    stdout ← run backend sandbox_id (
        in_repo (
          codes "git log "
          ++ quote branch
          ++ codes " -"
          ++ decimal limit
          ++ codes " --format='%H%x00%h%x00%s%x00%an%x00%aI'"))
    pure (read_log stdout)

  -- The unmerged files are asked for only when there are conflicts.
  abbrev pub conflicting : ℕ → Bool → Session (List Text)
  conflicting sandbox_id false = pure []
  conflicting sandbox_id true = do
    diff_out ← run backend sandbox_id (in_repo (codes "git diff --name-only --diff-filter=U"))
    pure (read_conflicts diff_out)

  unfoldable pub check_conflicts : ℕ → Text → Text → Session GitConflictInfo
  check_conflicts voyage_id branch target = do
    validate_branch_component branch
    validate_branch_component target
    sandbox_id ← get_sandbox voyage_id
    run backend sandbox_id (in_repo (codes "git fetch origin"))
    run backend sandbox_id (in_repo (codes "git checkout " ++ quote branch))
    merge_out ← run_unchecked backend sandbox_id (merge_command target)
    let has_conflicts = not (occurs (codes "EXIT:0") merge_out)
    files ← conflicting sandbox_id has_conflicts
    run_unchecked backend sandbox_id (in_repo (codes "git merge --abort"))
    pure (record { has_conflicts = has_conflicts; conflicting_files = files })

  unfoldable pub list_changed_files : ℕ → Text → Text → Session (List GitChangedFile)
  list_changed_files voyage_id base head = do
    validate_branch_component base
    validate_branch_component head
    sandbox_id ← get_sandbox voyage_id
    stdout ←
        run backend sandbox_id
          (in_repo (codes "git diff --name-status " ++ quote base ++ codes "..." ++ quote head))
    pure (read_changed_files stdout)

  abbrev pub validate_optional_path : Option Text → Session Unit
  validate_optional_path none = pure tt
  validate_optional_path (some path) = validate_repo_path path

  unfoldable pub diff_refs : ℕ → Text → Text → Option Text → Session Text
  diff_refs voyage_id base head path = do
    validate_branch_component base
    validate_branch_component head
    sandbox_id ← get_sandbox voyage_id
    validate_optional_path path
    run backend sandbox_id (diff_command base head path)

  unfoldable pub get_file_content : ℕ → Text → Text → Session Text
  get_file_content voyage_id ref path = do
    validate_branch_component ref
    validate_repo_path path
    sandbox_id ← get_sandbox voyage_id
    run backend sandbox_id (in_repo (codes "git show " ++ quote (ref ++ codes ":" ++ path)))

  -- `destroy` of the sandbox that was taken from the dictionary, if there was one.
  abbrev pub destroy_taken : Option ℕ → Session Unit
  destroy_taken none d = (returns tt, d)
  destroy_taken (some sandbox_id) d =
      let r = backend.destroy d.calls sandbox_id in (r, called (destroy_call r sandbox_id) d)

  unfoldable pub cleanup_branches : ℕ → Session Unit
  cleanup_branches voyage_id d =
      destroy_taken (lookup voyage_id d.repos)
        (record d { repos = without voyage_id d.repos; repo_urls = without voyage_id d.repo_urls })

  -- The sandboxes are destroyed one after the other; an error is logged and dropped.
  unfoldable pub destroy_each : List (ℕ × ℕ) → Desk → Desk
  destroy_each [] d = d
  destroy_each ((voyage_id, sandbox_id) ∷ rows) d =
      destroy_each rows (called (destroy_call (backend.destroy d.calls sandbox_id) sandbox_id) d)

  unfoldable pub cleanup_all : Session Unit
  unfolding destroy_each
  cleanup_all d = (returns tt, record (destroy_each d.repos d) { repos = []; repo_urls = [] })
