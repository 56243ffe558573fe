-- ===== src/Tests/Services.antt =====
-- Runs of the Secret Service's policy and index.
use binpass.Prelude.{
  none, [], ◌∷◌, some, bytes_eq, codes, pos, ◌≡◌, ◌⊎◌, ◌↔◌, true, false, refl, inl, inr, arith,
}
use binpass.SecretService.Item.{Item}
use binpass.SecretService.Policy.{Rule, Config, Engine, Identify, allow, decision_key}
use binpass.SecretService.Policy.Laws.{Says, SaysYes, allow_iff}

abbrev mail : Item
mail = record {
  id = codes "1";
  label = codes "Mail";
  attributes = (codes "user", codes "me") ∷ [];
  secret = codes "s";
  created = none;
  modified = some (false, 5);
}

abbrev deny_x : Rule
deny_x = record { app = codes "x"; collection = []; attrs = []; action = codes "deny" }

abbrev prompt_all : Rule
prompt_all = record { app = codes "*"; collection = []; attrs = []; action = codes "prompt" }

abbrev config : Config
config = record {
  default_action = codes "allow";
  remember = pos 10;
  rules = deny_x ∷ prompt_all ∷ [];
  notify = codes "off";
  audit = true;
}

abbrev identify : Identify
identify = some (λ s. some s)

abbrev idle : Engine
idle = record { log = []; decisions = []; notified = [] }

-- An answer for `y` that has not expired.
abbrev answered : Engine
answered = record {
  log = [];
  decisions =
      (decision_key (codes "y") (codes "c") (codes "1"), record { allowed = true; until = 5 }) ∷ [];
  notified = [];
}

allow_iff_example :
    ((allow config identify answered 4 (codes "y") (codes "c") (some mail)).0 ≡ true) ↔ (
      Says config (codes "y") (codes "c") (some mail) (codes "allow")
      ⊎ (Says config (codes "y") (codes "c") (some mail) (codes "prompt")
          × SaysYes answered 4 (codes "y") (codes "c") (some mail)))
allow_iff_example =
    allow_iff config identify answered 4 (codes "y") (codes "y") (codes "c") (some mail)
      (inr (ground arith, inl refl))
