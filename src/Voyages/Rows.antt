-- ===== src/Voyages/Rows.antt =====
-- The rows of models/voyage.py, models/dial_config.py and models/standing_order.py, and `create_voyage`
-- of api/v1/voyages.py. Fresh ids and times are parameters; a commit is taken to succeed.
use grand_line.Common.{ℕ, String, Option, none, List, [], ◌∷◌, ◌++◌}
use grand_line.Model.Voyage.{VoyageStatus, charted}

-- `origin` of a voyage, as the webhook writes it.
pub record Origin : Type 0 where
  pub type : String
  pub repo : Option String
  pub issue_number : Option ℕ
  pub issue_url : String
  pub issue_title : String
  pub sender : String
  pub received_at : ℕ

pub record VoyageRow : Type 0 where
  pub id : ℕ
  pub user_id : ℕ
  pub title : String
  pub description : Option String
  pub target_repo : Option String
  pub status : VoyageStatus
  pub origin : Option Origin

-- The JSON of a mapping and of a chain is opaque here: a value of the parameter `J`.
pub record DialRow (J : Type 0) : Type 0 where
  pub voyage_id : ℕ
  pub role_mapping : J
  pub fallback_chain : Option J

pub record VoyageTables (J : Type 0) : Type 0 where
  pub voyages : List VoyageRow
  pub dial_configs : List (DialRow J)

abbrev pub charted_voyage :
    ℕ → ℕ → String → Option String → Option String → Option Origin → VoyageRow
charted_voyage id user title description repo origin = record {
  id = id;
  user_id = user;
  title = title;
  description = description;
  target_repo = repo;
  status = charted;
  origin = origin;
}

module _ {J : Type 0} where
  abbrev pub add_voyage : VoyageRow → DialRow J → VoyageTables J → VoyageTables J
  add_voyage v d t = record {
    voyages = t.voyages ++ v ∷ [];
    dial_configs = t.dial_configs ++ d ∷ [];
  }

  -- `_default_dial_config`: the default mapping of the settings.
  abbrev pub default_dial_config : J → ℕ → DialRow J
  default_dial_config mapping voyage = record {
    voyage_id = voyage;
    role_mapping = mapping;
    fallback_chain = none;
  }

  unfoldable pub create_voyage :
      J
      → ℕ
      → ℕ
      → String
      → Option String
      → Option String
      → VoyageTables J
      → VoyageRow × VoyageTables J
  create_voyage mapping id user title description repo t =
      let v = charted_voyage id user title description repo none in
      (v, add_voyage v (default_dial_config mapping id) t)
