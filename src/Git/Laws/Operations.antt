-- ===== src/Git/Laws/Operations.antt =====
-- The operations that only run commands, each with its checks.
use grand_line.Common.{
  ℕ, Bool, true, false, Option, none, some, List, [], ◌∷◌, ◌++◌, Text, codes, map,
}
use grand_line.Git.Shell.{quote}
use grand_line.Git.Checks.{is_branch_name, is_repo_path, ParsedUrl, inject_token}
use grand_line.Git.Desk.{
  invalid_branch_name, invalid_path, Backend, Session, ◌>>=◌, ◌>>◌, pure, lookup, get_sandbox, run,
  run_unchecked,
}
use grand_line.Git.Reading.{
  GitBranchInfo, read_branches, read_log, read_changed_files, read_commit, read_conflicts, strip,
}
use grand_line.Git.Service.{
  Settings, in_repo, validate_branch_component, validate_repo_path, config_command, clone_command,
  branch_command, commit_command, push_command, diff_command, merge_command, with_token, token_or,
  branch_name, clone_steps, create_branch, list_branches, inject_files, author_of, login_or, commit,
}
use grand_line.Git.History.{
  url_or_raise, push_target, push, sha_or_raise, get_head_sha, get_log, conflicting,
  check_conflicts, list_changed_files, validate_optional_path, diff_refs, get_file_content,
}
use grand_line.Git.Laws.Frames.{
  Quiet-refl, IsQuiet, pure-IsQuiet, bind-IsQuiet, then-IsQuiet, ensure-IsQuiet,
  get_sandbox-IsQuiet, execute_in-IsQuiet, run-IsQuiet, run_unchecked-IsQuiet,
}

-- In a sandbox of the voyage, if it has one.
in_sandbox-IsQuiet :
    {A : Type 0} (voyage_id : ℕ) (f : ℕ → Session A)
    → ((s : ℕ) → IsQuiet (f s))
    → IsQuiet (get_sandbox voyage_id >>= f)
in_sandbox-IsQuiet voyage_id f k =
    bind-IsQuiet (get_sandbox voyage_id) f (get_sandbox-IsQuiet voyage_id) k

named-IsQuiet :
    {A : Type 0} (value : Text) (m : Session A)
    → IsQuiet m
    → IsQuiet (validate_branch_component value >> m)
named-IsQuiet value m h =
    then-IsQuiet (validate_branch_component value) m
      (ensure-IsQuiet (is_branch_name value) invalid_branch_name) h

placed-IsQuiet :
    {A : Type 0} (path : Text) (m : Session A) → IsQuiet m → IsQuiet (validate_repo_path path >> m)
placed-IsQuiet path m h =
    then-IsQuiet (validate_repo_path path) m (ensure-IsQuiet (is_repo_path path) invalid_path) h

module _ (backend : Backend) where
  -- A command, and what is done with its text.
  running-IsQuiet :
      {A : Type 0} (s : ℕ) (command : Text) (f : Text → Session A)
      → ((out : Text) → IsQuiet (f out))
      → IsQuiet (run backend s command >>= f)
  running-IsQuiet s command f k =
      bind-IsQuiet (run backend s command) f (run-IsQuiet backend s command) k

  -- A command whose text is not read.
  ran-IsQuiet :
      {A : Type 0} (s : ℕ) (command : Text) (k : Session A)
      → IsQuiet k
      → IsQuiet (run backend s command >> k)
  ran-IsQuiet s command k h =
      then-IsQuiet (run backend s command) k (run-IsQuiet backend s command) h

  reading-IsQuiet :
      {A : Type 0} (voyage_id : ℕ) (command : Text) (f : Text → A)
      → IsQuiet (get_sandbox voyage_id >>= λ s. run backend s command >>= λ out. pure (f out))
  reading-IsQuiet voyage_id command f =
      in_sandbox-IsQuiet voyage_id (λ s. run backend s command >>= λ out. pure (f out))
        (λ s. running-IsQuiet s command (λ out. pure (f out)) (λ out. pure-IsQuiet (f out)))

module _ (backend : Backend) (urlparse : Text → ParsedUrl) (settings : Settings)
    (hex decimal : ℕ → Text) where
  pub clone_steps-IsQuiet :
      (s : ℕ) (url : Text) (token : Option Text)
      → IsQuiet (clone_steps backend urlparse settings hex decimal s url token)
  unfolding clone_steps
  clone_steps-IsQuiet s url token =
      let auth =
        with_token (inject_token urlparse) url (token_or settings.github_api_token token) in
      let last = config_command settings.git_author_name settings.git_author_email in
      ran-IsQuiet backend s (clone_command auth) (run backend s last) (run-IsQuiet backend s last)

  pub create_branch-IsQuiet :
      (v : ℕ) (crew base : Text)
      → IsQuiet (create_branch backend urlparse settings hex decimal v crew base)
  unfolding create_branch
  create_branch-IsQuiet v crew base =
      let name = branch_name backend urlparse settings hex decimal crew v in
      let info : GitBranchInfo = record { name = name; is_current = true } in
      named-IsQuiet crew _ (
        in_sandbox-IsQuiet v _
          (λ s. ran-IsQuiet backend s (branch_command name base) _ (pure-IsQuiet info)))

  pub list_branches-IsQuiet :
      (v : ℕ) → IsQuiet (list_branches backend urlparse settings hex decimal v)
  unfolding list_branches
  list_branches-IsQuiet v =
      reading-IsQuiet backend v (in_repo (codes "git branch --format='%(refname:short) %(HEAD)'"))
        read_branches

  inject_files-IsQuiet :
      (s : ℕ) (files : List (Text × Text))
      → IsQuiet (inject_files backend urlparse settings hex decimal s files)
  inject_files-IsQuiet s [] = pure-IsQuiet tt
  inject_files-IsQuiet s (f ∷ fs) =
      then-IsQuiet _ (pure tt)
        (execute_in-IsQuiet backend s (in_repo (codes "echo 'files injected'"))
          (map (λ (g : Text × Text). (codes "repo/" ++ g.0, g.1)) (f ∷ fs)))
        (pure-IsQuiet tt)

  pub commit-IsQuiet :
      (v : ℕ) (message crew : Text) (files : List (Text × Text)) (login : Text)
      → IsQuiet (commit backend urlparse settings hex decimal v message crew files login)
  unfolding commit
  commit-IsQuiet v message crew files login = in_sandbox-IsQuiet v _ (λ s.
      then-IsQuiet (inject_files backend urlparse settings hex decimal s files) _
        (inject_files-IsQuiet s files)
        (ran-IsQuiet backend s
          (commit_command message (author_of backend urlparse settings hex decimal crew login)) _
          (running-IsQuiet backend s (in_repo (codes "git log -1 --format='%H %h %aI'")) _ (λ out.
            pure-IsQuiet (
              read_commit message (login_or backend urlparse settings hex decimal crew login)
                out)))))

url_or_raise-IsQuiet : (o : Option Text) → IsQuiet (url_or_raise o)
url_or_raise-IsQuiet none = Quiet-refl
url_or_raise-IsQuiet (some []) = Quiet-refl
url_or_raise-IsQuiet (some (c ∷ url)) = pure-IsQuiet (c ∷ url)

module _ (backend : Backend) (urlparse : Text → ParsedUrl) (decimal : ℕ → Text) where
  push_target-IsQuiet :
      (v : ℕ) (token : Option Text) → IsQuiet (push_target backend urlparse decimal v token)
  push_target-IsQuiet v none = pure-IsQuiet (codes "origin")
  push_target-IsQuiet v (some token) = λ d.
      bind-IsQuiet (url_or_raise (lookup v d.repo_urls))
        (λ url. pure (quote (inject_token urlparse url token)))
        (url_or_raise-IsQuiet (lookup v d.repo_urls))
        (λ url. pure-IsQuiet (quote (inject_token urlparse url token))) d

  pub push-IsQuiet :
      (v : ℕ) (branch : Text) (token : Option Text)
      → IsQuiet (push backend urlparse decimal v branch token)
  unfolding push
  push-IsQuiet v branch token = named-IsQuiet branch _ (
      in_sandbox-IsQuiet v _ (λ s.
        bind-IsQuiet (push_target backend urlparse decimal v token) _ (push_target-IsQuiet v token)
          (λ target. ran-IsQuiet backend s (push_command target branch) _ (pure-IsQuiet tt))))

  sha_or_raise-IsQuiet : (sha : Text) → IsQuiet (sha_or_raise backend urlparse decimal sha)
  sha_or_raise-IsQuiet [] = Quiet-refl
  sha_or_raise-IsQuiet (c ∷ sha) = pure-IsQuiet (c ∷ sha)

  pub get_head_sha-IsQuiet :
      (v : ℕ) (ref : Text) → IsQuiet (get_head_sha backend urlparse decimal v ref)
  unfolding get_head_sha
  get_head_sha-IsQuiet v ref = named-IsQuiet ref _ (
      in_sandbox-IsQuiet v _ (λ s.
        running-IsQuiet backend s
          (in_repo (codes "git rev-parse " ++ quote ref ++ codes "^{commit}")) _
          (λ out. sha_or_raise-IsQuiet (strip out))))

  pub get_log-IsQuiet :
      (v : ℕ) (branch : Text) (limit : ℕ)
      → IsQuiet (get_log backend urlparse decimal v branch limit)
  unfolding get_log
  get_log-IsQuiet v branch limit = named-IsQuiet branch _ (
      reading-IsQuiet backend v
        (in_repo (
          codes "git log "
          ++ quote branch
          ++ codes " -"
          ++ decimal limit
          ++ codes " --format='%H%x00%h%x00%s%x00%an%x00%aI'"))
        read_log)

  conflicting-IsQuiet : (s : ℕ) (b : Bool) → IsQuiet (conflicting backend urlparse decimal s b)
  conflicting-IsQuiet s false = pure-IsQuiet {A = List Text} []
  conflicting-IsQuiet s true =
      running-IsQuiet backend s (in_repo (codes "git diff --name-only --diff-filter=U")) _
        (λ out. pure-IsQuiet (read_conflicts out))

  pub check_conflicts-IsQuiet :
      (v : ℕ) (branch target : Text)
      → IsQuiet (check_conflicts backend urlparse decimal v branch target)
  unfolding check_conflicts
  check_conflicts-IsQuiet v branch target = named-IsQuiet branch _ (
      named-IsQuiet target _ (
        in_sandbox-IsQuiet v _ (λ s. ran-IsQuiet backend s (in_repo (codes "git fetch origin")) _ (
          ran-IsQuiet backend s (in_repo (codes "git checkout " ++ quote branch)) _ (
            bind-IsQuiet (run_unchecked backend s (merge_command target)) _
              (run_unchecked-IsQuiet backend s (merge_command target))
              (λ out.
                bind-IsQuiet (conflicting backend urlparse decimal s _) _ (conflicting-IsQuiet s _)
                  (λ files.
                    then-IsQuiet _ _
                      (run_unchecked-IsQuiet backend s (in_repo (codes "git merge --abort")))
                      Quiet-refl)))))))

  pub list_changed_files-IsQuiet :
      (v : ℕ) (base head : Text) → IsQuiet (list_changed_files backend urlparse decimal v base head)
  unfolding list_changed_files
  list_changed_files-IsQuiet v base head = named-IsQuiet base _ (
      named-IsQuiet head _ (
        reading-IsQuiet backend v
          (in_repo (codes "git diff --name-status " ++ quote base ++ codes "..." ++ quote head))
          read_changed_files))

  validate_optional_path-IsQuiet :
      (path : Option Text) → IsQuiet (validate_optional_path backend urlparse decimal path)
  validate_optional_path-IsQuiet none = pure-IsQuiet tt
  validate_optional_path-IsQuiet (some path) = ensure-IsQuiet (is_repo_path path) invalid_path

  pub diff_refs-IsQuiet :
      (v : ℕ) (base head : Text) (path : Option Text)
      → IsQuiet (diff_refs backend urlparse decimal v base head path)
  unfolding diff_refs
  diff_refs-IsQuiet v base head path = named-IsQuiet base _ (
      named-IsQuiet head _ (
        in_sandbox-IsQuiet v _ (λ s.
          then-IsQuiet (validate_optional_path backend urlparse decimal path) _
            (validate_optional_path-IsQuiet path)
            (run-IsQuiet backend s (diff_command base head path)))))

  pub get_file_content-IsQuiet :
      (v : ℕ) (ref path : Text) → IsQuiet (get_file_content backend urlparse decimal v ref path)
  unfolding get_file_content
  get_file_content-IsQuiet v ref path = named-IsQuiet ref _ (
      placed-IsQuiet path _ (
        in_sandbox-IsQuiet v _ (λ s.
          run-IsQuiet backend s (in_repo (codes "git show " ++ quote (ref ++ codes ":" ++ path))))))
