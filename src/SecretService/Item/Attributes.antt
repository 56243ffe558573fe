-- ===== src/SecretService/Item/Attributes.antt =====
-- ToSecret and ItemFromSecret of pkg/secretservice/item.go: the attributes of an item that is stored.
use binpass.Prelude.{
  head_eq, Bool, false, ◌||◌, List, [], ◌∷◌, ◌++◌, none, some, Bytes, codes, ◌==◌, bytes_eq,
  if◌then◌else◌, contains, ◌≡◌, ◌≢◌, refl, ap, ◌∙◌, arith, All,
}
use binpass.Prelude.Dict.{Dict, keys, lookup, insert, lookup-insert, lookup-nil, contains-keys}
use binpass.SecretService.Index.Laws.{contains-sort_texts}
use binpass.Text.{has_prefix, trim_prefix, trim_space, has_blank}
use binpass.Text.Laws.{Lacks, has_prefix-append, trim_prefix-append}
use binpass.Secret.{Secret, Field, password, fields, collect_fields, after_password, lines}
use binpass.Secret.Laws.{IsLine, unlines, lines-unlines}
use binpass.SecretService.Item.{
  Item, attr_prefix, field_line, value_of, attribute_lines, label_line, moment_line, item_lines,
  sorted_keys, to_secret, item_from_secret, written,
}
use binpass.SecretService.Item.Fields.{
  split_field-line, attributes_after, take_fields-attributes, collect_fields-line,
  collect_fields-append, attributes_after-append, plain-label_line, plain-created, plain-modified,
}

-- An attribute that can be written on a line: its key has no colon and no blank, and its value begins
-- and ends with no space.
pub record Writable (key value : Bytes) : Type 0 where
  pub no_colon : Lacks b':' (attr_prefix ++ key)
  pub trimmed_key : trim_space (attr_prefix ++ key) ≡ attr_prefix ++ key
  pub no_blank : has_blank (attr_prefix ++ key) ≡ false
  pub trimmed : trim_space (b' ' ∷ value) ≡ value

-- The attributes that are written can be written on lines.
abbrev pub AllWritable : Dict Bytes Bytes → List Bytes → Type 0
AllWritable m = All (λ k. Writable k (value_of (lookup k m)))

attribute_ne : {k : Bytes} → attr_prefix ++ k ≢ []
attribute_ne p = cc

insert_attribute :
    (base : Dict Bytes Bytes) (k v : Bytes)
    → (if has_prefix (attr_prefix ++ k) attr_prefix
        then insert (trim_prefix (attr_prefix ++ k) attr_prefix) v base
        else base)
      ≡ insert k v base
insert_attribute base k v =
    ap (λ b. if b then insert (trim_prefix (attr_prefix ++ k) attr_prefix) v base else base)
      (has_prefix-append attr_prefix k)
    ∙ ap (λ x. insert x v base) (trim_prefix-append attr_prefix k)

one_more :
    (j k : Bytes) (later : Bool) (m base : Dict Bytes Bytes)
    → (if later
        then some (value_of (lookup j m))
        else lookup j (insert k (value_of (lookup k m)) base))
      ≡ (if j == k || later then some (value_of (lookup j m)) else lookup j base)
one_more j k later m base = ground (arith, lookup-insert j k (value_of (lookup k m)) base)

-- Each attribute that is written is read as it was written.
lookup-attribute_lines :
    (m base : Dict Bytes Bytes) (ks : List Bytes) (j : Bytes)
    → AllWritable m ks
    → lookup j (attributes_after base (collect_fields (attribute_lines m ks)))
      ≡ (if contains ks j then some (value_of (lookup j m)) else lookup j base)
unfolding attributes_after attribute_lines collect_fields
lookup-attribute_lines m base [] j w = refl
lookup-attribute_lines m base (k ∷ ks) j (w, u) =
    let v = value_of (lookup k m) in
    let f : Field = record { key = attr_prefix ++ k; value = v } in
    let line =
      split_field-line (attr_prefix ++ k) v attribute_ne w.no_colon w.trimmed_key w.no_blank
      ∙ ap (λ x. some (record { key = attr_prefix ++ k; value = x })) w.trimmed in
    ap (λ fs. lookup j (attributes_after base fs))
      (collect_fields-line (field_line (attr_prefix ++ k) v) (attribute_lines m ks) f line)
    ∙ ap (λ d. lookup j (attributes_after d (collect_fields (attribute_lines m ks))))
        (insert_attribute base k v)
    ∙ lookup-attribute_lines m (insert k v base) ks j u
    ∙ one_more j k (contains ks j) m base

fields-lines :
    (sec : Secret) (l : Bytes) (ls : List Bytes)
    → lines sec ≡ l ∷ ls
    → fields sec ≡ collect_fields ls
unfolding fields after_password
fields-lines sec l ls h = rw h refl

written-unlines : (ls : List Bytes) → written ls ≡ unlines ls
written-unlines [] = refl
written-unlines (l ∷ ls) = ap (λ t. l ++ b'\n' ∷ t) (written-unlines ls)

lines-to_secret :
    (it : Item)
    → it.secret ≢ []
    → All IsLine (it.secret ∷ item_lines it)
    → lines (to_secret it) ≡ it.secret ∷ item_lines it
unfolding to_secret
lines-to_secret it ne u =
    ap (λ t. lines (record { raw = it.secret ++ b'\n' ∷ t })) (written-unlines (item_lines it))
    ∙ lines-unlines it.secret (item_lines it) u (λ p. ne (head_eq p))

attributes_after-lines :
    (m : Dict Bytes Bytes) (a b : List Bytes)
    → attributes_after m (collect_fields (a ++ b))
      ≡ attributes_after (attributes_after m (collect_fields a)) (collect_fields b)
attributes_after-lines m a b =
    ap (attributes_after m) (collect_fields-append a b)
    ∙ attributes_after-append m (collect_fields a) (collect_fields b)

-- The attributes behind the lines of an item.
lookup-item_lines :
    (it : Item) (j : Bytes)
    → AllWritable it.attributes (sorted_keys it.attributes)
    → lookup j (attributes_after [] (collect_fields (item_lines it))) ≡ (
        if contains (sorted_keys it.attributes) j
        then some (value_of (lookup j it.attributes))
        else none)
unfolding item_lines
lookup-item_lines it j w =
    let top = label_line it.label in
    let middle = attribute_lines it.attributes (sorted_keys it.attributes) in
    let first = moment_line (codes "created") it.created in
    let last = moment_line (codes "modified") it.modified in
    let m = attributes_after [] (collect_fields middle) in
    ap (lookup j) (
      attributes_after-lines [] top (middle ++ (first ++ last))
      ∙ ap (λ d. attributes_after d (collect_fields (middle ++ (first ++ last))))
          (plain-label_line [] it.label)
      ∙ attributes_after-lines [] middle (first ++ last)
      ∙ attributes_after-lines m first last
      ∙ ap (λ d. attributes_after d (collect_fields last)) (plain-created m it.created)
      ∙ plain-modified m it.modified)
    ∙ lookup-attribute_lines it.attributes [] (sorted_keys it.attributes) j w
    ∙ ap
        (λ o.
          if contains (sorted_keys it.attributes) j
          then some (value_of (lookup j it.attributes))
          else o)
        (lookup-nil j)

known_value :
    (m : Dict Bytes Bytes) (j : Bytes)
    → (if contains (sorted_keys m) j then some (value_of (lookup j m)) else none) ≡ lookup j m
unfolding sorted_keys
known_value m j = rw (contains-sort_texts (keys m) j) (ground (arith, contains-keys m j))

-- An item whose secret is not empty, and whose lines have no line feed and end with no carriage
-- return, has every attribute as before when it was stored and read again, if each key and value can
-- be written on a line.
pub lookup-item_from_secret :
    (it : Item) (id j : Bytes)
    → it.secret ≢ []
    → All IsLine (it.secret ∷ item_lines it)
    → AllWritable it.attributes (sorted_keys it.attributes)
    → lookup j (item_from_secret id (to_secret it)).attributes ≡ lookup j it.attributes
unfolding item_from_secret
lookup-item_from_secret it id j ne u w =
    ap (lookup j) (
      take_fields-attributes
        (record {
          id = id;
          label = [];
          attributes = [];
          secret = password (to_secret it);
          created = none;
          modified = none;
        })
        (fields (to_secret it))
      ∙ ap (attributes_after [])
          (fields-lines (to_secret it) it.secret (item_lines it) (lines-to_secret it ne u)))
    ∙ lookup-item_lines it j w
    ∙ known_value it.attributes j
