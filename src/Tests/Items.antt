-- ===== src/Tests/Items.antt =====
-- Runs of items that are stored as entries.
use binpass.Prelude.{false, [], ◌∷◌, none, some, codes, bytes_eq, nat_eq}
use binpass.SecretService.Item.{Item}

abbrev key_pair : Item
key_pair = record {
  id = codes "1";
  label = codes "Key";
  attributes = (codes "user", codes "me") ∷ [];
  secret = codes "a";
  created = none;
  modified = some (false, 5);
}
