-- ===== src/Tests/Data.antt =====
-- What the runs share: a device, versions, files and a toy library.
use binpass.Prelude.{[], ◌∷◌, some, Bytes, codes, ◌==◌, bytes_eq, if◌then◌else◌}
use binpass.Otp.{Codecs}
use binpass.Sync.Version.{DeviceId, VersionVector}
use binpass.Sync.State.{FilePath, FileState, Snapshot}

abbrev pub laptop : DeviceId
laptop = codes "l"

abbrev pub phone : DeviceId
phone = codes "p"

abbrev pub first : VersionVector
first = (laptop, 1) ∷ []

abbrev pub second : VersionVector
second = (laptop, 2) ∷ []

abbrev pub other : VersionVector
other = (laptop, 1) ∷ (phone, 1) ∷ []

abbrev pub mail : FilePath
mail = codes "m.gpg"

abbrev pub state_of : VersionVector → Bytes → FileState
state_of v h = record {
  path = mail;
  hash = h;
  size = 1;
  mod_time = 2;
  version = v;
  remote_rev = [];
  device = laptop;
}

abbrev pub known : FileState
known = state_of first (codes "x")

abbrev pub edited : FileState
edited = state_of second (codes "y")

abbrev pub foreign : FileState
foreign = state_of other (codes "z")

abbrev pub base : Snapshot
base = (mail, known) ∷ []

-- Every URI is one of an HOTP secret with the counter 7.
abbrev pub parameter : Bytes → Bytes
parameter k =
    if k == codes "secret" then codes "AA" else if k == codes "counter" then codes "7" else []

abbrev pub tool : Codecs
tool = record {
  parse_url = λ s. some (record {
    scheme = codes "otpauth";
    host = codes "hotp";
    path = codes "/a";
    query = parameter;
  });
  to_lower = λ s. s;
  to_upper = λ s. s;
  decode_base32 = λ s. some s;
}
