-- ===== src/SecretService/Item.antt =====
-- pkg/secretservice/item.go: a stored item, and the entry of the store that it is written as.
pub mod Laws
pub mod Fields
pub mod Attributes
use binpass.Prelude.{
  ℕ, Bool, true, false, not, ◌&&◌, List, [], ◌∷◌, ◌++◌, Option, none, some, Bytes, codes, ◌==◌,
  bytes_eq, if◌then◌else◌,
}
use binpass.Prelude.Dict.{Dict, keys, lookup, insert}
use binpass.Text.{has_prefix, trim_prefix, decimal, atoi, Signed}
use binpass.Sync.Merge.{bytes_ltb}
use binpass.Secret.{Secret, Field, password, fields}

-- A moment in seconds from the epoch; none is the zero time.
abbrev pub Moment : Type 0
Moment = Option Signed

-- `Item`
pub record Item : Type 0 where
  pub id : Bytes
  pub label : Bytes
  pub attributes : Dict Bytes Bytes
  pub secret : Bytes
  pub created : Moment
  pub modified : Moment

-- `attrPrefix`
abbrev pub attr_prefix : Bytes
attr_prefix = codes "attr."

-- `sort.Strings`
unfoldable pub insert_text : Bytes → List Bytes → List Bytes
insert_text s [] = s ∷ []
insert_text s (t ∷ ts) =
    let rest = insert_text s ts in if bytes_ltb t s then t ∷ rest else s ∷ t ∷ ts

unfoldable pub sort_texts : List Bytes → List Bytes
unfolding insert_text
sort_texts [] = []
sort_texts (s ∷ ss) = insert_text s (sort_texts ss)

-- `sortedKeys`
unfoldable pub sorted_keys : Dict Bytes Bytes → List Bytes
unfolding sort_texts
sorted_keys m = sort_texts (keys m)

-- The line of a field.
abbrev pub field_line : Bytes → Bytes → Bytes
field_line key value = key ++ b':' ∷ b' ' ∷ value

-- What a map has for a key, or the empty text.
abbrev pub value_of : Option Bytes → Bytes
value_of none = []
value_of (some v) = v

unfoldable pub label_line : Bytes → List Bytes
label_line [] = []
label_line (c ∷ label) = field_line (codes "label") (c ∷ label) ∷ []

attribute_lines : Dict Bytes Bytes → List Bytes → List Bytes
attribute_lines m [] = []
attribute_lines m (k ∷ ks) =
    field_line (attr_prefix ++ k) (value_of (lookup k m)) ∷ attribute_lines m ks

unfoldable pub seconds : Signed → Bytes
seconds (minus, n) = if minus then b'-' ∷ decimal n else decimal n

unfoldable pub moment_line : Bytes → Moment → List Bytes
moment_line key none = []
moment_line key (some t) = field_line key (seconds t) ∷ []

-- The lines behind the secret.
unfoldable pub item_lines : Item → List Bytes
unfolding label_line attribute_lines moment_line seconds sorted_keys
item_lines it =
    label_line it.label
    ++ (attribute_lines it.attributes (sorted_keys it.attributes)
        ++ (moment_line (codes "created") it.created ++ moment_line (codes "modified") it.modified))

-- Lines, each ended by a line feed.
abbrev pub written : List Bytes → Bytes
written [] = []
written (l ∷ ls) = l ++ b'\n' ∷ written ls

-- `ToSecret`
unfoldable pub to_secret : Item → Secret
unfolding item_lines
to_secret it = record { raw = it.secret ++ b'\n' ∷ written (item_lines it) }

-- `parseUnix`, for which `strconv.ParseInt` reads what `strconv.Atoi` does.
abbrev pub parse_unix : Bytes → Moment
parse_unix s = atoi s

-- A field of an entry taken into an item.
unfoldable pub take_field : Item → Field → Item
take_field it f =
    if f.key == codes "label"
    then record it { label = f.value }
    else if has_prefix f.key attr_prefix
    then record it { attributes = insert (trim_prefix f.key attr_prefix) f.value it.attributes }
    else if f.key == codes "created"
    then record it { created = parse_unix f.value }
    else if f.key == codes "modified"
    then record it { modified = parse_unix f.value }
    else it

unfoldable pub take_fields : Item → List Field → Item
take_fields it [] = it
take_fields it (f ∷ fs) = take_fields (take_field it f) fs

-- `ItemFromSecret`
unfoldable pub item_from_secret : Bytes → Secret → Item
unfolding take_fields take_field
item_from_secret id sec =
    take_fields
      (record {
        id = id;
        label = [];
        attributes = [];
        secret = password sec;
        created = none;
        modified = none;
      })
      (fields sec)

-- `Matches`
unfoldable pub matches_query : Item → Dict Bytes Bytes → Bool
matches_query it [] = true
matches_query it ((k, v) ∷ query) = value_of (lookup k it.attributes) == v && matches_query it query
