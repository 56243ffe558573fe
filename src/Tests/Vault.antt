-- ===== src/Tests/Vault.antt =====
-- Runs of the Secret Service over a store of files.
use binpass.Prelude.{
  true, false, List, [], ◌∷◌, ◌++◌, Option, none, some, Bytes, codes, bytes_eq, nat_eq, length,
  drop, ok, ◌≡◌, inl, refl, ap, arith, some_inj, append_assoc, All,
}
use binpass.Prelude.Dict.{Dict, lookup, insert, erase, keys}
use binpass.Text.{take, trim_space, trim_prefix, has_blank, ends_in, decimal}
use binpass.Paths.{rel, escapes}
use binpass.Storage.{Disk, find, dir_path, path_of, ext_of}
use binpass.Store
use binpass.Store.{backend_for_new, backend_for}
use binpass.SecretService.Index
use binpass.SecretService.Item.{
  Item, item_from_secret, matches_query, item_lines, sorted_keys, sort_texts,
}
use binpass.SecretService.Item.Attributes.{Writable}
use binpass.SecretService.Index.{Index, Blinding, add}
use binpass.SecretService.Store.{
  IndexJson, Service, PassStore, create_item, delete_item, search, index_path,
}
use binpass.SecretService.Store.Finding.{IsIndexJson, item_with}
use binpass.SecretService.Store.Files.{pass_store, pass_store-IsPassStore}
use binpass.Secret.{parse, fields, password}
use binpass.SecretService.Store.Search.{Answers, search-Answers}
use binpass.SecretService.Store.Deletion.{search-delete_item}
use binpass.SecretService.Store.Found.{search-create_item}
use binpass.Tests.Stores.{both, both-IsSound}

take-append : (a b : Bytes) → take (length a) (a ++ b) ≡ a
unfolding take
take-append [] b = refl
take-append (x ∷ a) b = ap (◌∷◌ x) (take-append a b)

drop-append : (a b : Bytes) → drop (length a) (a ++ b) ≡ b
drop-append [] b = refl
drop-append (x ∷ a) b = drop-append a b

-- An encoding of the indexes with one identifier.
encode_one : Index → Option Bytes
encode_one ((b, id ∷ []) ∷ []) = some (length b ∷ length id ∷ b ++ id)
encode_one ix = none

decode_one : Bytes → Option Index
decode_one (n ∷ m ∷ s) = some ((take n s, take m (drop n s) ∷ []) ∷ [])
decode_one s = none

abbrev one_json : IndexJson
one_json = record { encode = encode_one; decode = decode_one }

decode_one-encode_one :
    (ix : Index) (encoded : Bytes)
    → encode_one ix ≡ some encoded
    → decode_one (encoded ++ b'\n' ∷ []) ≡ some ix
unfolding encode_one decode_one
decode_one-encode_one ((b, id ∷ []) ∷ []) encoded h =
    rw (← some_inj h) (simp (append_assoc, take-append, drop-append))
decode_one-encode_one [] encoded h = cc
decode_one-encode_one ((b, []) ∷ []) encoded h = cc
decode_one-encode_one ((b, x ∷ y ∷ ids) ∷ []) encoded h = cc
decode_one-encode_one ((b, []) ∷ c ∷ ix) encoded h = cc
decode_one-encode_one ((b, x ∷ []) ∷ c ∷ ix) encoded h = cc
decode_one-encode_one ((b, x ∷ y ∷ ids) ∷ c ∷ ix) encoded h = cc

one_json-IsIndexJson : IsIndexJson one_json
one_json-IsIndexJson = record {
  decode-encode = λ ix encoded h. (ix, decode_one-encode_one ix encoded h, λ b. refl);
}

abbrev blinding : Blinding
blinding = record { hmac = λ key s. s; encode_base32 = λ s. s }

abbrev key_item : Item
key_item = record {
  id = [];
  label = codes "Key";
  attributes = (codes "user", codes "me") ∷ [];
  secret = codes "a";
  created = none;
  modified = none;
}

abbrev login : Bytes
login = codes "login"

-- A service over an empty store.
abbrev idle : Service Disk
idle = record { world = []; cached = none }

abbrev key_made : Item
key_made = record key_item {
  id = codes "0a";
  created = some (false, 5);
  modified = some (false, 5);
}

abbrev after_key : Service Disk
after_key =
    (create_item (pass_store both) one_json blinding [] login key_item true (some (10 ∷ []))
      (some (false, 5)) idle).1

made_key :
    create_item
      (pass_store both)
      one_json
      blinding
      []
      login
      key_item
      true
      (some (10 ∷ []))
      (some (false, 5))
      idle
    ≡ (ok key_made, after_key)
unfolding create_item encode_one bytes_eq nat_eq binpass.Store.exists find rel trim_prefix
    trim_space index_path escapes lookup binpass.Store.set backend_for_new dir_path path_of add
    binpass.SecretService.Index.remove insert
made_key = refl

-- An encoding of the empty index.
abbrev empty_json : IndexJson
empty_json = record { encode = λ ix. some []; decode = λ s. some [] }

abbrev by_user : Dict Bytes Bytes
by_user = (codes "user", codes "me") ∷ []

me-Writable : Writable (codes "user") (codes "me")
unfolding trim_space has_blank
me-Writable = record {
  no_colon = ground arith;
  trimmed_key = refl;
  no_blank = refl;
  trimmed = refl;
}

search-create_item_example :
    (found : List Item) × (after : Service Disk) × (again : Item) × (search
        (pass_store both)
        one_json
        blinding
        []
        login
        by_user
        after_key
      ≡ (ok found, after))
    × (item_with (codes "0a") found ≡ some again)
    × ((j : Bytes) → lookup j again.attributes ≡ lookup j key_item.attributes)
unfolding create_item encode_one bytes_eq nat_eq binpass.Store.exists find rel trim_prefix
    trim_space index_path escapes lookup binpass.Store.set backend_for_new dir_path path_of add
    binpass.SecretService.Index.remove insert item_lines sorted_keys sort_texts keys ends_in decimal
search-create_item_example =
    search-create_item (pass_store both) one_json blinding [] login key_item key_made
      (some (10 ∷ [])) (some (false, 5)) by_user idle after_key after_key
      (pass_store-IsPassStore both 4 both-IsSound (refl, (refl, tt))) one_json-IsIndexJson made_key
      (inl refl) refl (ground arith) (ground arith)
      (
        record { no_newline = ground arith; no_return = refl },
        (
          record { no_newline = ground arith; no_return = refl },
          (
            record { no_newline = ground arith; no_return = refl },
            (
              record { no_newline = ground arith; no_return = refl },
              (record { no_newline = ground arith; no_return = refl }, tt),
            ),
          ),
        ),
      )
      (me-Writable, tt) (ground arith) (refl, tt)

abbrev key_index : Index
key_index = (codes "user" ++ 0 ∷ codes "me", codes "0a" ∷ []) ∷ []

-- A password store of one entry, under every name.
abbrev one_entry : PassStore Bytes
one_entry = record {
  get = λ name w. some (parse w);
  set = λ name sec w. some w;
  listing = λ sub w. none;
  delete = λ name w. none;
  has_entry = λ name w. true;
}

abbrev warm : Service Bytes
warm = record { world = codes "s" ++ b'\n' ∷ codes "attr.user: me"; cached = some key_index }

abbrev key_read : Item
key_read = record {
  id = codes "0a";
  label = [];
  attributes = by_user;
  secret = codes "s";
  created = none;
  modified = none;
}

search-Answers_example :
    (warm.world ≡ warm.world)
    × All (Answers one_entry empty_json blinding [] warm.world login by_user) (key_read ∷ [])
unfolding search item_from_secret fields matches_query bytes_eq lookup insert trim_space trim_prefix
    password
search-Answers_example =
    search-Answers one_entry empty_json blinding [] warm warm login by_user (key_read ∷ []) refl

abbrev after_delete : Service Disk
after_delete = (delete_item (pass_store both) empty_json blinding [] login (codes "0a") after_key).1

search-delete_item_example :
    (found : List Item) × (search
        (pass_store both)
        empty_json
        blinding
        []
        login
        by_user
        after_delete
      ≡ (ok found, after_delete))
    × (item_with (codes "0a") found ≡ none)
unfolding create_item encode_one bytes_eq nat_eq binpass.Store.exists find rel trim_prefix
    trim_space index_path escapes lookup binpass.Store.set backend_for_new dir_path path_of add
    binpass.SecretService.Index.remove insert delete_item binpass.Store.remove erase backend_for
    ext_of
search-delete_item_example =
    search-delete_item (pass_store both) empty_json blinding [] login (codes "0a") by_user key_index
      after_key after_delete refl (refl, tt) refl (ground arith)
