-- ===== src/SecretService/Item/Laws.antt =====
-- pkg/secretservice/item.go: what an item is after it was stored and read again.
use binpass.Prelude.{ℕ, List, [], ◌∷◌, ◌++◌, none, Bytes, bytes_eq, ◌≡◌, refl, ap, ◌∙◌, arith}
use binpass.Text.{cut, trim_last}
use binpass.Secret.{Field, password, fields}
use binpass.SecretService.Item.{
  Item, item_lines, to_secret, item_from_secret, take_field, take_fields, written,
}

take_field-secret : (it : Item) (f : Field) → (take_field it f).secret ≡ it.secret
unfolding take_field
take_field-secret it f = ground arith

take_fields-secret : (it : Item) (fs : List Field) → (take_fields it fs).secret ≡ it.secret
unfolding take_fields
take_fields-secret it [] = refl
take_fields-secret it (f ∷ fs) = take_fields-secret (take_field it f) fs ∙ take_field-secret it f

cut-append_first : (b : ℕ) (s t : Bytes) → (cut b (s ++ b ∷ t)).0 ≡ (cut b s).0
unfolding cut
cut-append_first b [] t = ground arith
cut-append_first b (c ∷ s) t = ground (arith, cut-append_first b s t)

-- Of the secret of an item that is stored, its first line is read again, without a carriage return at
-- its end.
pub item_from_secret_first_line :
    (it : Item) (id : Bytes)
    → (item_from_secret id (to_secret it)).secret ≡ trim_last b'\r' ((cut b'\n' it.secret).0)
unfolding item_from_secret to_secret password
item_from_secret_first_line it id =
    take_fields-secret
      (record {
        id = id;
        label = [];
        attributes = [];
        secret = password (to_secret it);
        created = none;
        modified = none;
      })
      (fields (to_secret it))
    ∙ ap (trim_last b'\r') (cut-append_first b'\n' it.secret (written (item_lines it)))
