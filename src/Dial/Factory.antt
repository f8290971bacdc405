-- ===== src/Dial/Factory.antt =====
-- dial_system/factory.py: the default models, fallback entries, adapters and the router's tables.
pub mod Laws
use grand_line.Common.{
  ℕ, String, Bool, true, false, not, ◌&&◌, ◌||◌, Option, none, some, List, [], ◌∷◌, ◌++◌, ◌==◌,
  str_eq, if◌then◌else◌,
}
use grand_line.Model.Voyage.{CrewRole, captain, navigator, doctor, shipwright, helmsman}
use grand_line.Dial.Value.{Value, null, str, dict, Fields, end, field, get, is_truthy, is_hashable}
use grand_line.Dial.Config.{resolve_claude_code_role_config}

-- The parts of core/config.py that the factory reads.
pub record Settings : Type 0 where
  pub dial_default_provider : String
  pub dial_default_model : String
  pub claude_code_max_turns : ℕ

pub data Made {ℓ} (A : Type ℓ) : Type ℓ where
  made : A → Made A
  value_error type_error : Made A

infixl 5 ◌>>=◌
abbrev pub ◌>>=◌ : {A B : Type 0} → Made A → (A → Made B) → Made B
made a >>= f = f a
value_error >>= f = value_error
type_error >>= f = type_error

-- `_PROVIDER_DEFAULT_MODELS.get(provider)`
unfoldable pub provider_default_model : String → Option String
provider_default_model p =
    if str_eq p "anthropic"
    then some "claude-sonnet-4-20250514"
    else if str_eq p "openai"
    then some "gpt-4o"
    else if str_eq p "ollama"
    then some "llama3"
    else if str_eq p "claude_code"
    then some "sonnet"
    else if str_eq p "claude-code"
    then some "sonnet"
    else none

abbrev pub made_or_error : Option String → Made Value
made_or_error none = value_error
made_or_error (some m) = made (str m)

-- `_default_model_for`; what is no string is equal to no provider's name.
unfoldable pub default_model_for : Value → Settings → Made Value
unfolding provider_default_model
default_model_for (str p) settings =
    if str_eq p settings.dial_default_provider && not (str_eq settings.dial_default_model "")
    then made (str settings.dial_default_model)
    else made_or_error (provider_default_model p)
default_model_for v settings = if is_hashable v then value_error else type_error

-- `_resolve_fallback_entry`: the provider and the model.
unfoldable pub resolve_fallback_entry : Value → Settings → Made (Value × Value)
unfolding default_model_for
resolve_fallback_entry (str p) settings = do
  model ← default_model_for (str p) settings
  made (str p, model)
resolve_fallback_entry (dict fs) settings =
    let provider = get "provider" fs in
    if not (is_truthy provider)
    then value_error
    else if is_truthy (get "model" fs)
    then made (provider, get "model" fs)
    else do model ← default_model_for provider settings; made (provider, model)
resolve_fallback_entry _ settings = value_error

-- The adapters, with what their constructors get beside the clients and the host's knobs.
pub data Adapter : Type 0 where
  anthropic openai ollama : Value → Adapter
  claude_code : Value → ℕ → Option String → Adapter

-- `resolve_claude_code_role_config(role_cfg).max_turns or settings.claude_code_max_turns`
abbrev pub turns_or_default : Option ℕ → Settings → ℕ
turns_or_default none settings = settings.claude_code_max_turns
turns_or_default (some n) settings = if n == 0 then settings.claude_code_max_turns else n

unfoldable pub create_adapter :
    Value → Value → Settings → Option Value → Option String → Made Adapter
create_adapter (str p) model settings role_cfg token =
    if str_eq p "anthropic"
    then made (anthropic model)
    else if str_eq p "openai"
    then made (openai model)
    else if str_eq p "ollama"
    then made (ollama model)
    else if str_eq p "claude_code" || str_eq p "claude-code"
    then made (
        claude_code model (turns_or_default (resolve_claude_code_role_config role_cfg) settings)
          token)
    else value_error
create_adapter _ model settings role_cfg token = value_error

-- `CrewRole(role_str)`
unfoldable pub role_of : String → Made CrewRole
role_of r =
    if str_eq r "captain"
    then made captain
    else if str_eq r "navigator"
    then made navigator
    else if str_eq r "doctor"
    then made doctor
    else if str_eq r "shipwright"
    then made shipwright
    else if str_eq r "helmsman"
    then made helmsman
    else value_error

-- `_token_for`
abbrev pub token_for : Value → Option String → Option String
token_for (str p) token = if str_eq p "claude_code" || str_eq p "claude-code" then token else none
token_for _ token = none

abbrev pub primary_of : Value → Settings → Option String → Made Adapter
primary_of (dict cfg) settings token =
    let provider = get "provider" cfg in
    let model = get "model" cfg in
    if not (is_truthy provider) || not (is_truthy model)
    then value_error
    else create_adapter provider model settings (some (dict cfg)) (token_for provider token)
primary_of _ settings token = value_error

unfoldable pub build_role_mapping :
    Fields → Settings → Option String → Made (List (CrewRole × Adapter))
unfolding role_of create_adapter
build_role_mapping end settings token = made []
build_role_mapping (field role_str cfg rest) settings token = do
  role ← role_of role_str
  adapter ← primary_of cfg settings token
  others ← build_role_mapping rest settings token
  made ((role, adapter) ∷ others)

unfoldable pub build_chain : List Value → Settings → Option String → Made (List Adapter)
unfolding resolve_fallback_entry create_adapter
build_chain [] settings token = made []
build_chain (entry ∷ rest) settings token = do
  found ← resolve_fallback_entry entry settings
  adapter ← create_adapter found.0 found.1 settings none (token_for found.0 token)
  others ← build_chain rest settings token
  made (adapter ∷ others)
