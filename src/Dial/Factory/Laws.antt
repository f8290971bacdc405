-- ===== src/Dial/Factory/Laws.antt =====
-- A chain that the schema accepts can be built.
use grand_line.Common.{
  ℕ, suc, String, ◌≡◌, refl, Bool, true, false, not, ◌&&◌, ◌||◌, Option, none, some, List, ◌∷◌,
  arith, str_eq, if◌then◌else◌, length,
}
use grand_line.Dial.Value.{
  Value, null, bool, int, negative, real, str, arr, dict, Fields, Items, nil, cons, items, get,
  is_truthy,
}
use grand_line.Dial.Config.{
  Verdict, accepted, and_then, value_error as refused, is_supported, check_provider, check_entry,
  check_entries,
}
use grand_line.Dial.Factory.{
  Settings, Made, made, value_error, type_error, made_or_error, Adapter, default_model_for,
  resolve_fallback_entry, create_adapter, token_for, build_chain, ◌>>=◌,
}

abbrev pub is_made {ℓ} : {A : Type ℓ} → Made A → Bool
is_made (made a) = true
is_made value_error = false
is_made type_error = false

-- How many adapters were built.
abbrev pub made_length : Made (List Adapter) → Option ℕ
made_length (made adapters) = some (length adapters)
made_length value_error = none
made_length type_error = none

-- A table of five rows has one for each of its tests.
five {ℓ} :
    {A : Type ℓ} (a b c d e : Bool) (v w x y z : A)
    → (a || b || c || d || e) ≡ true
    → is_made (
        if a
        then made v
        else if b
        then made w
        else if c
        then made x
        else if d
        then made y
        else if e
        then made z
        else value_error)
      ≡ true
five true b c d e v w x y z h = refl
five false true c d e v w x y z h = refl
five false false true d e v w x y z h = refl
five false false false true e v w x y z h = refl
five false false false false true v w x y z h = refl
five false false false false false v w x y z h = cc

four {ℓ} :
    {A : Type ℓ} (a b c d e : Bool) (v w x y : A)
    → (a || b || c || d || e) ≡ true
    → is_made (
        if a
        then made v
        else if b
        then made w
        else if c
        then made x
        else if d || e
        then made y
        else value_error)
      ≡ true
four true b c d e v w x y h = refl
four false true c d e v w x y h = refl
four false false true d e v w x y h = refl
four false false false true e v w x y h = refl
four false false false false true v w x y h = refl
four false false false false false v w x y h = cc

row_made :
    (a b c d e : Bool) (v w x y z : String)
    → (a || b || c || d || e) ≡ true
    → is_made (
        made_or_error (
          if a
          then some v
          else if b
          then some w
          else if c
          then some x
          else if d
          then some y
          else if e
          then some z
          else none))
      ≡ true
row_made true b c d e v w x y z h = refl
row_made false true c d e v w x y z h = refl
row_made false false true d e v w x y z h = refl
row_made false false false true e v w x y z h = refl
row_made false false false false true v w x y z h = refl
row_made false false false false false v w x y z h = cc

if_made {ℓ} :
    {A : Type ℓ} (b : Bool) (x y : Made A)
    → is_made x ≡ true
    → is_made y ≡ true
    → is_made (if b then x else y) ≡ true
if_made true x y h k = h
if_made false x y h k = k

default_model-supported :
    (p : String) (settings : Settings)
    → is_supported p ≡ true
    → is_made (default_model_for (str p) settings) ≡ true
unfolding default_model_for is_supported
default_model-supported p settings h =
    if_made (str_eq p settings.dial_default_provider && not (str_eq settings.dial_default_model ""))
      (made (str settings.dial_default_model)) _ refl
      (row_made (str_eq p "anthropic") (str_eq p "openai") (str_eq p "ollama")
        (str_eq p "claude_code") (str_eq p "claude-code") _ _ _ _ _ h)

create_adapter-supported :
    (p : String) (model : Value) (settings : Settings) (cfg : Option Value) (token : Option String)
    → is_supported p ≡ true
    → is_made (create_adapter (str p) model settings cfg token) ≡ true
unfolding create_adapter is_supported
create_adapter-supported p model settings cfg token h =
    four (str_eq p "anthropic") (str_eq p "openai") (str_eq p "ollama") (str_eq p "claude_code")
      (str_eq p "claude-code") _ _ _ _ h

-- An accepted provider is a supported name.
data Supported : Value → Type 0 where
  name : (p : String) → is_supported p ≡ true → Supported (str p)

if_accepted : (b : Bool) → (if b then accepted else refused) ≡ accepted → b ≡ true
if_accepted b h = ground arith

Supported-of : (v : Value) → check_provider v ≡ accepted → Supported v
Supported-of (str p) h = name p (if_accepted (is_supported p) h)
Supported-of null h = cc
Supported-of (bool b) h = cc
Supported-of (int n) h = cc
Supported-of (negative n) h = cc
Supported-of (real r) h = cc
Supported-of (arr vs) h = cc
Supported-of (dict fs) h = cc

false_ne_true : false ≡ true → ⊥
false_ne_true h = cc

if_truthy :
    (b : Bool) (v : Verdict) → (if b then v else refused) ≡ accepted → (b ≡ true) × (v ≡ accepted)
if_truthy b v h = ground arith

both_accepted : (v u : Verdict) → and_then v u ≡ accepted → (v ≡ accepted) × (u ≡ accepted)
both_accepted v u h = ground arith

made_of {ℓ} : {A : Type ℓ} (m : Made A) → is_made m ≡ true → (a : A) × (m ≡ made a)
made_of (made a) h = (a, refl)
made_of value_error h = absurd (false_ne_true h)
made_of type_error h = absurd (false_ne_true h)

default_model_made :
    (v : Value) (settings : Settings) → Supported v → is_made (default_model_for v settings) ≡ true
default_model_made v settings (name p h) = default_model-supported p settings h

create_adapter_made :
    (v model : Value) (settings : Settings) (cfg : Option Value) (token : Option String)
    → Supported v
    → is_made (create_adapter v model settings cfg token) ≡ true
create_adapter_made v model settings cfg token (name p h) =
    create_adapter-supported p model settings cfg token h

abbrev Resolves : Made (Value × Value) → Type 0
Resolves m = (found : Value × Value) × (m ≡ made found) × Supported found.0

resolve_dict :
    (fs : Fields) (settings : Settings) (b : Bool)
    → is_truthy (get "model" fs) ≡ b
    → is_truthy (get "provider" fs) ≡ true
    → Supported (get "provider" fs)
    → Resolves (resolve_fallback_entry (dict fs) settings)
unfolding resolve_fallback_entry
resolve_dict fs settings true m t h = ((get "provider" fs, get "model" fs), rw (t, m), h)
resolve_dict fs settings false m t h =
    let (model, e) =
      made_of (default_model_for (get "provider" fs) settings)
        (default_model_made (get "provider" fs) settings h) in
    ((get "provider" fs, model), rw (t, m, e), h)

resolve-accepted :
    (v : Value) (settings : Settings)
    → check_entry v ≡ accepted
    → Resolves (resolve_fallback_entry v settings)
unfolding resolve_fallback_entry check_entry
resolve-accepted (str p) settings h =
    let ok = if_accepted (is_supported p) h in
    let (model, e) =
      made_of (default_model_for (str p) settings) (default_model-supported p settings ok) in
    ((str p, model), rw e, name p ok)
resolve-accepted (dict fs) settings h =
    let t = if_truthy (is_truthy (get "provider" fs)) (check_provider (get "provider" fs)) h in
    resolve_dict fs settings (is_truthy (get "model" fs)) refl t.0
      (Supported-of (get "provider" fs) t.1)
resolve-accepted null settings h = cc
resolve-accepted (bool b) settings h = cc
resolve-accepted (int n) settings h = cc
resolve-accepted (negative n) settings h = cc
resolve-accepted (real r) settings h = cc
resolve-accepted (arr vs) settings h = cc

chain_step :
    (m : Made Adapter) (r : Made (List Adapter)) (n : ℕ)
    → is_made m ≡ true
    → made_length r ≡ some n
    → made_length (m >>= λ a. r >>= λ others. made (a ∷ others)) ≡ some (suc n)
chain_step (made a) (made others) n h k = ground arith
chain_step (made a) value_error n h k = cc
chain_step (made a) type_error n h k = cc
chain_step value_error r n h k = cc
chain_step type_error r n h k = cc

-- A fallback list that the schema accepts builds one adapter for each of its entries, whatever the
-- settings and the token.
pub build_chain_accepted :
    (vs : Items) (settings : Settings) (token : Option String)
    → check_entries vs ≡ accepted
    → made_length (build_chain (items vs) settings token) ≡ some (length (items vs))
unfolding build_chain check_entries
build_chain_accepted nil settings token h = refl
build_chain_accepted (cons v vs) settings token h =
    let (first, others) = both_accepted (check_entry v) (check_entries vs) h in
    let (found, e, ok) = resolve-accepted v settings first in
    rw e (
      chain_step (create_adapter found.0 found.1 settings none (token_for found.0 token))
        (build_chain (items vs) settings token) (length (items vs))
        (create_adapter_made found.0 found.1 settings none (token_for found.0 token) ok)
        (build_chain_accepted vs settings token others))
