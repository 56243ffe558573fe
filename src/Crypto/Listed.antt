-- ===== src/Crypto/Listed.antt =====
-- readRecipientsFile and WriteRecipients of pkg/crypto/recipients.go: what is written is read.
use binpass.Prelude.{
  ◌<◌, false, List, [], ◌∷◌, ◌++◌, some, Bytes, codes, bytes_eq, length, ◌≡◌, ◌≢◌, refl, ap, ◌∙◌,
  arith, All, ==-same, ==-other,
}
use binpass.Prelude.Dict.{lookup, insert, lookup-insert}
use binpass.Text.{has_prefix, trim_space}
use binpass.Secret.Laws.{IsLine, unlines, split-unlines, trim_returns-IsLine}
use binpass.Storage.{Disk}
use binpass.Crypto.{
  raw_lines, scan_limit, some_too_long, named_recipients, read_recipients_file, recipients_text,
  write_recipients, or_nobody,
}

-- A recipient that a line can hold.
pub record IsRecipient (r : Bytes) : Type 0 where
  pub line : IsLine r
  pub named : r ≢ []
  pub no_comment : has_prefix r (codes "#") ≡ false
  pub trimmed : trim_space r ≡ r
  pub short : length r < scan_limit

recipients_text-eq : (rcp : List Bytes) → recipients_text rcp ≡ unlines rcp
unfolding recipients_text
recipients_text-eq [] = refl
recipients_text-eq (r ∷ rcp) = ap (λ s. r ++ b'\n' ∷ s) (recipients_text-eq rcp)

named_recipients-All : (rcp : List Bytes) → All IsRecipient rcp → named_recipients rcp ≡ rcp
unfolding named_recipients
named_recipients-All [] h = refl
named_recipients-All (r ∷ rcp) (is, h) =
    rw (is.trimmed, ==-other r [] is.named, is.no_comment) (ap (◌∷◌ r) (named_recipients-All rcp h))

some_too_long-All : (rcp : List Bytes) → All IsRecipient rcp → some_too_long rcp ≡ false
unfolding some_too_long
some_too_long-All [] h = refl
some_too_long-All (r ∷ rcp) (is, h) = (let s = is.short in ground (arith, some_too_long-All rcp h))

All-IsLine : (rcp : List Bytes) → All IsRecipient rcp → All IsLine rcp
All-IsLine [] h = tt
All-IsLine (r ∷ rcp) (is, h) = (is.line, All-IsLine rcp h)

raw_lines-unlines :
    (r : Bytes) (rcp : List Bytes)
    → All IsLine (r ∷ rcp)
    → r ≢ []
    → raw_lines (unlines (r ∷ rcp)) ≡ r ∷ rcp
raw_lines-unlines [] rcp h named = absurd (named refl)
raw_lines-unlines (c ∷ r) rcp h named = split-unlines (c ∷ r) rcp h

-- Recipients that a line can hold are read as they were written, from the path that they were written
-- to; no recipients are not written.
pub read_recipients_file-write_recipients :
    (path r : Bytes) (rcp : List Bytes) (d : Disk)
    → All IsRecipient (r ∷ rcp)
    → (content : Bytes) × (after : Disk) × (write_recipients path (r ∷ rcp) d ≡ some after)
      × (lookup path after ≡ some content)
      × (read_recipients_file content ≡ some (r ∷ rcp))
unfolding write_recipients read_recipients_file
read_recipients_file-write_recipients path r rcp d h =
    let text = recipients_text (r ∷ rcp) in
    let lines = recipients_text-eq (r ∷ rcp) in
    let raw : raw_lines text ≡ r ∷ rcp =
      ap raw_lines lines ∙ raw_lines-unlines r rcp (All-IsLine (r ∷ rcp) h) h.0.named in
    (
      text,
      insert path text d,
      refl,
      lookup-insert path path text d ∙ (let same = ==-same path in rw same refl),
      rw raw (
          rw (some_too_long-All (r ∷ rcp) h) (
            ap or_nobody (
              ap named_recipients (trim_returns-IsLine (r ∷ rcp) (All-IsLine (r ∷ rcp) h))
              ∙ named_recipients-All (r ∷ rcp) h))),
    )
