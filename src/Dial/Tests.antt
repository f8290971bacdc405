-- ===== src/Dial/Tests.antt =====
-- Concrete Dial configurations.
use grand_line.Common.{◌≡◌, refl}
use grand_line.Dial.Value.{Items, cons, nil, str, dict, field, end}
use grand_line.Dial.Config.{accepted, check_entries}
use grand_line.Dial.Factory.{Settings}

abbrev defaults : Settings
defaults = record {
  dial_default_provider = "anthropic";
  dial_default_model = "";
  claude_code_max_turns = 3;
}

abbrev chain : Items
chain = cons (str "openai") (cons (dict (field "provider" (str "ollama") end)) nil)

chain_accepted : check_entries chain ≡ accepted
unfolding check_entries
chain_accepted = refl
