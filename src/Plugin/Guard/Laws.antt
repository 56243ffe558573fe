-- ===== src/Plugin/Guard/Laws.antt =====
-- pkg/plugin/guard.go: what a plugin may do under its manifest, against what the user has approved.
use binpass.Prelude.{
  Bool, true, false, not, ◌||◌, some, Bytes, bytes_eq, ◌≡◌, arith, Result, ok, err,
}
use binpass.Prelude.Dict.{lookup}
use binpass.Plugin.Manifest.{Capabilities, Manifest}
use binpass.Plugin.Grant.{Grant, Lock, valid, check}
use binpass.Plugin.Grant.Laws.{check-Covered, covers-match_any, covers_hosts-within}
use binpass.Plugin.Guard.{
  Guard, can_read, can_write, can_decrypt, check_exec, check_network, allowed,
}

-- One answer does not go beyond another one.
abbrev pub implies : Bool → Bool → Bool
implies a b = not a || b

abbrev pub is_ok : {E A : Type 0} → Result E A → Bool
is_ok (ok _) = true
is_ok (err _) = false

abbrev pub acting : Bytes → Capabilities → Guard
acting name caps = record { name = name; caps = caps; active = true }

-- A plugin whose approval is valid runs the program that was approved, and whatever its manifest
-- lets it read, write, decrypt, run or reach was approved too.
pub check-valid :
    (l : Lock) (m : Manifest) (digest entry bin host : Bytes)
    → check l m digest ≡ valid
    → (g : Grant) × (lookup m.name l ≡ some g)
      × (g.digest ≡ digest)
      × (implies
            (can_read (acting m.name m.capabilities) entry)
            (can_read (acting m.name g.capabilities) entry)
          ≡ true)
      × (implies
            (can_write (acting m.name m.capabilities) entry)
            (can_write (acting m.name g.capabilities) entry)
          ≡ true)
      × (implies
            (can_decrypt (acting m.name m.capabilities) entry)
            (can_decrypt (acting m.name g.capabilities) entry)
          ≡ true)
      × (implies
            (is_ok (check_exec (acting m.name m.capabilities) bin))
            (is_ok (check_exec (acting m.name g.capabilities) bin))
          ≡ true)
      × (implies
            (is_ok (check_network (acting m.name m.capabilities) host))
            (is_ok (check_network (acting m.name g.capabilities) host))
          ≡ true)
unfolding can_read can_write can_decrypt check_exec check_network allowed
check-valid l m digest entry bin host h =
    let (g, found, same, c) = check-Covered l m digest h in
    let reads =
      covers-match_any g.capabilities.read_paths m.capabilities.read_paths entry c.reads in
    let writes =
      covers-match_any g.capabilities.write_paths m.capabilities.write_paths entry c.writes in
    let runs = covers_hosts-within g.capabilities.exec m.capabilities.exec bin c.runs in
    let reaches =
      covers_hosts-within g.capabilities.network m.capabilities.network host c.reaches in
    (
      g,
      found,
      same,
      ground (arith, reads),
      ground (arith, writes),
      ground (arith, reads, c.decrypts),
      ground (arith, runs),
      ground (arith, reaches),
    )
