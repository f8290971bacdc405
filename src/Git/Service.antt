-- ===== src/Git/Service.antt =====
-- The operations of `GitService` in services/git_service.py, as texts of commands and calls of the
-- backend. `create_pr` is left out: it is one request to the API of GitHub.
use grand_line.Common.{ℕ, true, not, Option, none, some, List, [], ◌∷◌, ◌++◌, map, Text, codes}
use grand_line.Git.Shell.{quote}
use grand_line.Git.Checks.{is_branch_name, is_repo_path, ParsedUrl, is_allowed_host, inject_token}
use grand_line.Git.Desk.{
  repo_already_cloned, invalid_branch_name, invalid_path, disallowed_host, Outcome, returns, raises,
  created, destroy_call, Backend, Session, ◌>>=◌, ◌>>◌, pure, ensure, called, put, is_in,
  get_sandbox, execute_in, run,
}
use grand_line.Git.Reading.{take, GitBranchInfo, GitCommitInfo, read_branches, read_commit}

abbrev pub repo_path : Text
repo_path = codes "/workspace/repo"

-- `f"cd {REPO_PATH} && {rest}"`
abbrev pub in_repo : Text → Text
in_repo rest = codes "cd /workspace/repo && " ++ rest

-- `ALLOWED_GIT_HOSTS`
abbrev pub allowed_git_hosts : List Text
allowed_git_hosts = codes "github.com" ∷ codes "gitlab.com" ∷ codes "bitbucket.org" ∷ []

-- The settings that the service reads; no hosts and an empty token are as if they were not set.
pub record Settings : Type 0 where
  pub git_allowed_hosts : List Text
  pub github_api_token : Text
  pub git_author_name : Text
  pub git_author_email : Text
  pub git_default_branch : Text

abbrev pub hosts_of : List Text → List Text
hosts_of [] = allowed_git_hosts
hosts_of (h ∷ hs) = h ∷ hs

-- `inject(url, token) if token else url`
abbrev pub with_token : (Text → Text → Text) → Text → Text → Text
with_token inject url [] = url
with_token inject url (c ∷ token) = inject url (c ∷ token)

abbrev pub token_or : Text → Option Text → Text
token_or t none = t
token_or t (some token) = token

pub record GitRepoInfo : Type 0 where
  pub sandbox_id : ℕ
  pub repo_url : Text
  pub default_branch : Text

abbrev pub validate_branch_component : Text → Session Unit
validate_branch_component value = ensure (is_branch_name value) invalid_branch_name

abbrev pub validate_repo_path : Text → Session Unit
validate_repo_path path = ensure (is_repo_path path) invalid_path

-- The commands that hold a text of a caller.
abbrev pub clone_command : Text → Text
clone_command url = codes "git clone " ++ quote url ++ codes " " ++ repo_path

abbrev pub config_command : Text → Text → Text
config_command name email = in_repo (
    codes "git config user.name "
    ++ quote name
    ++ codes " && git config user.email "
    ++ quote email)

abbrev pub branch_command : Text → Text → Text
branch_command branch base =
    in_repo (
      codes "git fetch origin && git checkout -b "
      ++ quote branch
      ++ codes " origin/"
      ++ quote base)

abbrev pub commit_command : Text → Text → Text
commit_command message author =
    in_repo
      (codes "git add -A && git commit -m " ++ quote message ++ codes " --author=" ++ quote author)

unfoldable pub push_command : Text → Text → Text
push_command target branch = in_repo (codes "git push " ++ (target ++ (codes " " ++ quote branch)))

abbrev pub diff_command : Text → Text → Option Text → Text
diff_command base head none = in_repo (codes "git diff " ++ quote base ++ codes "..." ++ quote head)
diff_command base head (some path) =
    in_repo (codes "git diff " ++ quote base ++ codes "..." ++ quote head)
    ++ codes " -- "
    ++ quote path

abbrev pub merge_command : Text → Text
merge_command target = in_repo (
    codes "git merge --no-commit --no-ff origin/"
    ++ quote target
    ++ codes " 2>&1; echo \"EXIT:$?\"")

-- The hexadecimal texts of ids, and the decimal ones of numbers.
module _ (backend : Backend) (urlparse : Text → ParsedUrl) (settings : Settings) (hex : ℕ → Text)
    (decimal : ℕ → Text) where
  -- `_branch_name`
  abbrev pub branch_name : Text → ℕ → Text
  branch_name crew_member voyage_id =
      codes "agent/" ++ crew_member ++ codes "/" ++ take 8 (hex voyage_id)

  abbrev pub sandbox_made : Outcome ℕ → Session ℕ
  sandbox_made (returns sandbox_id) d = (returns sandbox_id, called (created sandbox_id) d)
  sandbox_made (raises e) d = (raises e, d)

  -- `self._backend.create`
  abbrev pub create_sandbox : ℕ → Session ℕ
  create_sandbox user_id d = sandbox_made (backend.create d.calls user_id) d

  abbrev pub destroy_sandbox : ℕ → Session Unit
  destroy_sandbox sandbox_id d =
      let r = backend.destroy d.calls sandbox_id in (r, called (destroy_call r sandbox_id) d)

  -- The two commands of a clone.
  unfoldable pub clone_steps : ℕ → Text → Option Text → Session Text
  clone_steps sandbox_id repo_url token = do
    let auth_url =
        with_token (inject_token urlparse) repo_url (token_or settings.github_api_token token)
    run backend sandbox_id (clone_command auth_url)
    run backend sandbox_id (config_command settings.git_author_name settings.git_author_email)

  -- Behind the two commands: the rows, or the destroy of the sandbox, whose own error is dropped.
  unfoldable pub register_clone : ℕ → ℕ → Text → Outcome Text → Session GitRepoInfo
  register_clone voyage_id sandbox_id repo_url (returns out) d = (
    returns (record {
      sandbox_id = sandbox_id;
      repo_url = repo_url;
      default_branch = settings.git_default_branch;
    }),
    record d {
      repos = put voyage_id sandbox_id d.repos;
      repo_urls = put voyage_id repo_url d.repo_urls;
    },
  )
  register_clone voyage_id sandbox_id repo_url (raises e) d =
      (raises e, (destroy_sandbox sandbox_id d).1)

  unfoldable pub clone_into : ℕ → Text → Option Text → ℕ → Session GitRepoInfo
  unfolding clone_steps register_clone
  clone_into voyage_id repo_url token sandbox_id d =
      let (r, d') = clone_steps sandbox_id repo_url token d in
      register_clone voyage_id sandbox_id repo_url r d'

  unfoldable pub clone_repo : ℕ → ℕ → Text → Option Text → Session GitRepoInfo
  unfolding clone_into
  clone_repo voyage_id user_id repo_url token d =
      let allowed_hosts = hosts_of settings.git_allowed_hosts in
      (ensure (not (is_in voyage_id d.repos)) repo_already_cloned
          >> (ensure (is_allowed_host urlparse repo_url allowed_hosts) disallowed_host
              >> (create_sandbox user_id >>= clone_into voyage_id repo_url token)))
        d

  unfoldable pub create_branch : ℕ → Text → Text → Session GitBranchInfo
  create_branch voyage_id crew_member base_branch = do
    validate_branch_component crew_member
    sandbox_id ← get_sandbox voyage_id
    run backend sandbox_id (branch_command (branch_name crew_member voyage_id) base_branch)
    pure (record { name = branch_name crew_member voyage_id; is_current = true })

  unfoldable pub list_branches : ℕ → Session (List GitBranchInfo)
  list_branches voyage_id = do
    sandbox_id ← get_sandbox voyage_id
    stdout ←
        run backend sandbox_id (in_repo (codes "git branch --format='%(refname:short) %(HEAD)'"))
    pure (read_branches stdout)

  -- The files are put below repo/; an empty dictionary is as if it were not given.
  abbrev pub inject_files : ℕ → List (Text × Text) → Session Unit
  inject_files sandbox_id [] = pure tt
  inject_files sandbox_id (f ∷ fs) =
      execute_in backend sandbox_id (in_repo (codes "echo 'files injected'"))
        (map (λ (g : Text × Text). (codes "repo/" ++ g.0, g.1)) (f ∷ fs))
      >> pure tt

  -- `if author_login`
  abbrev pub author_of : Text → Text → Text
  author_of crew_member [] = crew_member ++ codes " <" ++ crew_member ++ codes "@grandline.dev>"
  author_of crew_member (c ∷ login) =
      (c ∷ login) ++ codes " <" ++ (c ∷ login) ++ codes "@users.noreply.github.com>"

  -- `author_login or crew_member`
  abbrev pub login_or : Text → Text → Text
  login_or crew_member [] = crew_member
  login_or crew_member (c ∷ login) = c ∷ login

  unfoldable pub commit : ℕ → Text → Text → List (Text × Text) → Text → Session GitCommitInfo
  commit voyage_id message crew_member files author_login = do
    sandbox_id ← get_sandbox voyage_id
    inject_files sandbox_id files
    run backend sandbox_id (commit_command message (author_of crew_member author_login))
    stdout ← run backend sandbox_id (in_repo (codes "git log -1 --format='%H %h %aI'"))
    pure (read_commit message (login_or crew_member author_login) stdout)
