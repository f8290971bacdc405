-- ===== src/Voyages/Orders.antt =====
-- services/standing_order_service.py: the presets of the users, and charting from one.
pub mod Laws
use Prim.Native.String.{◌++◌ as ◌+s+◌}
use grand_line.Common.{
  ℕ, String, Bool, true, false, not, ◌&&◌, ◌||◌, Option, none, some, List, [], ◌∷◌, ◌++◌, ◌==◌, ltb,
  if◌then◌else◌, str_eq, keep,
}
use grand_line.Voyages.Rows.{
  VoyageRow, VoyageTables, DialRow, charted_voyage, add_voyage, default_dial_config,
}

-- The two keys of a preset's dial configuration; a configuration without them is `{}`, and is false.
pub record DialBundle (J : Type 0) : Type 0 where
  pub is_empty_dict : Bool
  pub bundle_mapping : Option J
  pub bundle_chain : Option J

pub record StandingOrder (J : Type 0) : Type 0 where
  pub order_id : ℕ
  pub owner : ℕ
  pub name : String
  pub description : Option String
  pub target_repo : Option String
  pub dial_config : Option (DialBundle J)
  pub plan_skeleton : Option J
  pub injected_context : Option String
  pub created_at : ℕ

-- `fields` of a partial update: the provided keys, a null among them.
pub record OrderFields (J : Type 0) : Type 0 where
  pub set_name : Option (Option String)
  pub set_description : Option (Option String)
  pub set_target_repo : Option (Option String)
  pub set_dial_config : Option (Option (DialBundle J))
  pub set_plan_skeleton : Option (Option J)
  pub set_injected_context : Option (Option String)

-- NOT_FOUND, or the database refuses a name that is null.
pub data OrderError : Type 0 where
  order_not_found integrity_error : OrderError

pub data OrderResult (A : Type 0) : Type 0 where
  order_ok : A → OrderResult A
  order_raise : OrderError → OrderResult A

-- What is provided, or else what was there.
abbrev pub given {ℓ} : {A : Type ℓ} → Option A → A → A
given none old = old
given (some new) old = new

-- `_compose_description`: an empty context is none.
abbrev pub compose_description : Option String → String → String
compose_description none task = task
compose_description (some context) task =
    if str_eq context "" then task else context +s+ "\n\n---\n\n" +s+ task

abbrev pub first_of : Option String → Option String → Option String
first_of none other = other
first_of (some s) other = some s

module _ {J : Type 0} where
  abbrev pub is_order : ℕ → ℕ → StandingOrder J → Bool
  is_order id user o = (o.order_id == id) && (o.owner == user)

  unfoldable pub create_order : StandingOrder J → List (StandingOrder J) → List (StandingOrder J)
  create_order o orders = orders ++ o ∷ []

  abbrev pub find_order : ℕ → ℕ → List (StandingOrder J) → Option (StandingOrder J)
  find_order id user [] = none
  find_order id user (o ∷ os) =
      let rest = find_order id user os in if is_order id user o then some o else rest

  abbrev pub order_found : Option (StandingOrder J) → OrderResult (StandingOrder J)
  order_found none = order_raise order_not_found
  order_found (some o) = order_ok o

  unfoldable pub get_order : ℕ → ℕ → List (StandingOrder J) → OrderResult (StandingOrder J)
  get_order id user orders = order_found (find_order id user orders)

  -- `ORDER BY created_at DESC`
  abbrev pub insert_order : StandingOrder J → List (StandingOrder J) → List (StandingOrder J)
  insert_order o [] = o ∷ []
  insert_order o (p ∷ ps) =
      let rest = insert_order o ps in if ltb o.created_at p.created_at then p ∷ rest else o ∷ p ∷ ps

  abbrev pub newest_orders : List (StandingOrder J) → List (StandingOrder J)
  newest_orders [] = []
  newest_orders (o ∷ os) = insert_order o (newest_orders os)

  unfoldable pub list_for_user : ℕ → List (StandingOrder J) → List (StandingOrder J)
  list_for_user user orders = newest_orders (keep (λ (o : StandingOrder J). o.owner == user) orders)

  abbrev pub set_fields : OrderFields J → String → StandingOrder J → StandingOrder J
  set_fields f name o = record o {
    name = name;
    description = given f.set_description o.description;
    target_repo = given f.set_target_repo o.target_repo;
    dial_config = given f.set_dial_config o.dial_config;
    plan_skeleton = given f.set_plan_skeleton o.plan_skeleton;
    injected_context = given f.set_injected_context o.injected_context;
  }

  -- The row of one order of a user, replaced.
  abbrev pub replace_order :
      ℕ → ℕ → StandingOrder J → List (StandingOrder J) → List (StandingOrder J)
  replace_order id user new [] = []
  replace_order id user new (o ∷ os) =
      let rest = replace_order id user new os in if is_order id user o then new ∷ rest else o ∷ rest

  -- A name that is set to null breaks the constraint of its column.
  abbrev pub update_named :
      ℕ
      → ℕ
      → OrderFields J
      → Option (Option String)
      → StandingOrder J
      → List (StandingOrder J)
      → OrderResult (StandingOrder J) × List (StandingOrder J)
  update_named id user f (some none) o orders = (order_raise integrity_error, orders)
  update_named id user f none o orders =
      (order_ok (set_fields f o.name o), replace_order id user (set_fields f o.name o) orders)
  update_named id user f (some (some name)) o orders =
      (order_ok (set_fields f name o), replace_order id user (set_fields f name o) orders)

  abbrev pub update_found :
      ℕ
      → ℕ
      → OrderFields J
      → OrderResult (StandingOrder J)
      → List (StandingOrder J)
      → OrderResult (StandingOrder J) × List (StandingOrder J)
  update_found id user f (order_raise e) orders = (order_raise e, orders)
  update_found id user f (order_ok o) orders = update_named id user f f.set_name o orders

  unfoldable pub update_order :
      ℕ
      → ℕ
      → OrderFields J
      → List (StandingOrder J)
      → OrderResult (StandingOrder J) × List (StandingOrder J)
  unfolding get_order
  update_order id user f orders = update_found id user f (get_order id user orders) orders

  abbrev pub delete_found :
      ℕ
      → ℕ
      → OrderResult (StandingOrder J)
      → List (StandingOrder J)
      → OrderResult Unit × List (StandingOrder J)
  delete_found id user (order_raise e) orders = (order_raise e, orders)
  delete_found id user (order_ok o) orders =
      (order_ok tt, keep (λ p. not (is_order id user p)) orders)

  unfoldable pub delete_order :
      ℕ → ℕ → List (StandingOrder J) → OrderResult Unit × List (StandingOrder J)
  unfolding get_order
  delete_order id user orders = delete_found id user (get_order id user orders) orders

  -- `_dial_config_for`: an empty configuration is none; `{}` stands for a mapping that is missing.
  abbrev pub dial_config_for : J → J → Option (DialBundle J) → ℕ → DialRow J
  dial_config_for mapping no_mapping none voyage = default_dial_config mapping voyage
  dial_config_for mapping no_mapping (some b) voyage =
      if b.is_empty_dict then default_dial_config mapping voyage else record {
        voyage_id = voyage;
        role_mapping = given b.bundle_mapping no_mapping;
        fallback_chain = b.bundle_chain;
      }

  unfoldable pub chart_order :
      J
      → J
      → ℕ
      → StandingOrder J
      → String
      → Option String
      → Option String
      → VoyageTables J
      → VoyageRow × VoyageTables J
  chart_order mapping no_mapping id o task title repo t =
      let v =
        charted_voyage id o.owner (given title o.name)
          (some (compose_description o.injected_context task)) (first_of repo o.target_repo) none in
      (v, add_voyage v (dial_config_for mapping no_mapping o.dial_config id) t)

  -- `POST /{order_id}/chart`
  abbrev pub chart_found :
      J
      → J
      → ℕ
      → OrderResult (StandingOrder J)
      → String
      → Option String
      → Option String
      → VoyageTables J
      → OrderResult VoyageRow × VoyageTables J
  chart_found mapping no_mapping id (order_raise e) task title repo t = (order_raise e, t)
  chart_found mapping no_mapping id (order_ok o) task title repo t =
      let (v, t') = chart_order mapping no_mapping id o task title repo t in (order_ok v, t')

  unfoldable pub chart_from_standing_order :
      J
      → J
      → ℕ
      → ℕ
      → ℕ
      → List (StandingOrder J)
      → String
      → Option String
      → Option String
      → VoyageTables J
      → OrderResult VoyageRow × VoyageTables J
  unfolding get_order chart_order
  chart_from_standing_order mapping no_mapping id order user orders task title repo t =
      chart_found mapping no_mapping id (get_order order user orders) task title repo t
