-- ===== src/SecretService/Item/Fields.antt =====
-- ItemFromSecret of pkg/secretservice/item.go: the fields of an entry that become attributes.
use binpass.Prelude.{
  true, false, List, [], ◌∷◌, ◌++◌, none, some, Bytes, codes, ◌==◌, bytes_eq, ==-eq, if◌then◌else◌,
  ◌≡◌, ◌≢◌, refl, ap, ◌∙◌, arith, Bool-cases, Option-cases, inl, inr,
}
use binpass.Prelude.Dict.{Dict, insert}
use binpass.Text.{has_prefix, trim_prefix, trim_space, cut, has_blank}
use binpass.Text.Laws.{Lacks, cut-append}
use binpass.Secret.{Field, collect_fields, split_field, split_key}
use binpass.SecretService.Item.{
  Item, Moment, attr_prefix, field_line, label_line, moment_line, seconds, take_field, take_fields,
}

split_field-cut :
    (line k v : Bytes)
    → cut b':' line ≡ (k, v, true)
    → split_field line ≡ split_key (trim_space k) v
unfolding split_field
split_field-cut line k v h = rw h refl

split_key-line :
    (k v : Bytes)
    → k ≢ []
    → has_blank k ≡ false
    → has_prefix v (codes "//") ≡ false
    → split_key k v ≡ some (record { key = k; value = trim_space v })
unfolding split_key
split_key-line [] v ne h p = absurd (ne refl)
split_key-line (c ∷ k) v ne h p = rw (h, p) refl

-- A line of a field is read as that field.
pub split_field-line :
    (k v : Bytes)
    → k ≢ []
    → Lacks b':' k
    → trim_space k ≡ k
    → has_blank k ≡ false
    → split_field (field_line k v) ≡ some (record { key = k; value = trim_space (b' ' ∷ v) })
unfolding has_prefix
split_field-line k v ne colon trimmed blank =
    split_field-cut (field_line k v) k (b' ' ∷ v) (cut-append b':' k (b' ' ∷ v) colon)
    ∙ ap (λ j. split_key j (b' ' ∷ v)) trimmed
    ∙ split_key-line k (b' ' ∷ v) ne blank refl

-- The attributes of an item after a field, and after several.
unfoldable pub attributes_after : Dict Bytes Bytes → List Field → Dict Bytes Bytes
attributes_after m [] = m
attributes_after m (f ∷ fs) =
    attributes_after
      (if has_prefix f.key attr_prefix then insert (trim_prefix f.key attr_prefix) f.value m else m)
      fs

label_plain : has_prefix (codes "label") attr_prefix ≡ false
unfolding has_prefix
label_plain = refl

take_field-attributes :
    (it : Item) (f : Field)
    → (take_field it f).attributes ≡ (
        if has_prefix f.key attr_prefix
        then insert (trim_prefix f.key attr_prefix) f.value it.attributes
        else it.attributes)
unfolding take_field
take_field-attributes it f = elim (Bool-cases (f.key == codes "label")) [
  | inl label ↦
      rw
        (
          label,
          ap (λ k. has_prefix k attr_prefix) (==-eq f.key (codes "label") label) ∙ label_plain,
        )
        refl
  | inr other ↦ rw other (ground arith)
]

pub take_fields-attributes :
    (it : Item) (fs : List Field)
    → (take_fields it fs).attributes ≡ attributes_after it.attributes fs
unfolding take_fields attributes_after
take_fields-attributes it [] = refl
take_fields-attributes it (f ∷ fs) =
    take_fields-attributes (take_field it f) fs
    ∙ ap (λ m. attributes_after m fs) (take_field-attributes it f)

pub collect_fields-line :
    (l : Bytes) (ls : List Bytes) (f : Field)
    → split_field l ≡ some f
    → collect_fields (l ∷ ls) ≡ f ∷ collect_fields ls
unfolding collect_fields
collect_fields-line l ls f h = rw (collect_fields, h) refl

pub collect_fields-append :
    (a b : List Bytes) → collect_fields (a ++ b) ≡ collect_fields a ++ collect_fields b
unfolding collect_fields
collect_fields-append [] b = refl
collect_fields-append (l ∷ a) b = elim (Option-cases (split_field l)) [
  | inl none_there ↦ rw (collect_fields, none_there) (collect_fields-append a b)
  | inr (f, there) ↦ rw (collect_fields, there) (ap (◌∷◌ f) (collect_fields-append a b))
]

pub attributes_after-append :
    (m : Dict Bytes Bytes) (a b : List Field)
    → attributes_after m (a ++ b) ≡ attributes_after (attributes_after m a) b
unfolding attributes_after
attributes_after-append m [] b = refl
attributes_after-append m (f ∷ a) b =
    attributes_after-append
      (if has_prefix f.key attr_prefix then insert (trim_prefix f.key attr_prefix) f.value m else m)
      a b

-- A field that is no attribute changes no attribute.
plain-collect_fields :
    (m : Dict Bytes Bytes) (key value : Bytes)
    → key ≢ []
    → Lacks b':' key
    → trim_space key ≡ key
    → has_blank key ≡ false
    → has_prefix key attr_prefix ≡ false
    → attributes_after m (collect_fields (field_line key value ∷ [])) ≡ m
unfolding attributes_after collect_fields
plain-collect_fields m key value ne colon trimmed blank plain =
    rw
      (
        collect_fields-line (field_line key value) []
            (record { key = key; value = trim_space (b' ' ∷ value) })
            (split_field-line key value ne colon trimmed blank),
        plain,
      )
      refl

pub plain-label_line :
    (m : Dict Bytes Bytes) (label : Bytes)
    → attributes_after m (collect_fields (label_line label)) ≡ m
unfolding attributes_after collect_fields label_line trim_space has_blank has_prefix
plain-label_line m [] = refl
plain-label_line m (c ∷ label) =
    plain-collect_fields m (codes "label") (c ∷ label) (ground arith) (ground arith) refl refl refl

pub plain-created :
    (m : Dict Bytes Bytes) (t : Moment)
    → attributes_after m (collect_fields (moment_line (codes "created") t)) ≡ m
unfolding attributes_after collect_fields moment_line trim_space has_blank has_prefix
plain-created m none = refl
plain-created m (some t) =
    plain-collect_fields m (codes "created") (seconds t) (ground arith) (ground arith) refl refl
      refl

pub plain-modified :
    (m : Dict Bytes Bytes) (t : Moment)
    → attributes_after m (collect_fields (moment_line (codes "modified") t)) ≡ m
unfolding attributes_after collect_fields moment_line trim_space has_blank has_prefix
plain-modified m none = refl
plain-modified m (some t) =
    plain-collect_fields m (codes "modified") (seconds t) (ground arith) (ground arith) refl refl
      refl
