-- ===== src/SecretService/Policy.antt =====
-- pkg/secretservice/policy.go: who may read an item, and the log of who did.
pub mod Laws
use binpass.Prelude.{
  ℕ, zero, suc, ◌+◌, ◌-◌, Bool, true, false, not, ◌&&◌, ◌||◌, List, [], ◌∷◌, ◌++◌, Option, none,
  some, Bytes, codes, ltb, ◌==◌, bytes_eq, if◌then◌else◌, length, drop, ℤ, pos, negsuc,
}
use binpass.Prelude.Dict.{Dict, lookup, insert}
use binpass.SecretService.Item.{Item}

-- A moment, in nanoseconds.
abbrev pub Time : Type 0
Time = ℕ

-- `Rule`
pub record Rule : Type 0 where
  pub app : Bytes
  pub collection : Bytes
  pub attrs : Dict Bytes Bytes
  pub action : Bytes

-- `Config`. `remember` is a Go duration, in nanoseconds.
pub record Config : Type 0 where
  pub default_action : Bytes
  pub remember : ℤ
  pub rules : List Rule
  pub notify : Bytes
  pub audit : Bool

-- `AccessRecord`
pub record AccessRecord : Type 0 where
  pub time : Time
  pub caller : Bytes
  pub sender : Bytes
  pub collection : Bytes
  pub item : Bytes
  pub label : Bytes
  pub allowed : Bool

-- `decision`
pub record Decision : Type 0 where
  pub allowed : Bool
  pub until : Time

-- What a policy engine changes. `notified` is what its writer has been given.
pub record Engine : Type 0 where
  pub log : List AccessRecord
  pub decisions : Dict Bytes Decision
  pub notified : List Bytes

-- The reason that goes with a refusal.
pub data Reason : Type 0 where
  no_reason denied unconfirmed unknown_action : Reason

abbrev pub max_log : ℕ
max_log = 1000

-- `NewPolicyEngine` on its configuration.
unfoldable pub with_default : Config → Config
with_default c = if c.default_action == [] then record c { default_action = codes "allow" } else c

-- `identify` of a `PolicyEngine`, none for a nil one.
abbrev pub Identify : Type 0
Identify = Option (Bytes → Option Bytes)

abbrev or_empty : Option Bytes → Bytes
or_empty none = []
or_empty (some s) = s

-- `caller`
unfoldable pub caller_of : Identify → Bytes → Bytes
caller_of none sender = []
caller_of (some f) sender = if sender == [] then [] else or_empty (f sender)

-- `describe`
unfoldable pub describe : Bytes → Bytes
describe caller = if caller == [] then codes "an unidentified program" else caller

-- `*` matches any value of an attribute that is there; another value matches itself, and the empty
-- one also matches an attribute that is not there.
abbrev attr_matches : Bytes → Option Bytes → Bool
attr_matches v none = if v == codes "*" then false else v == []
attr_matches v (some w) = if v == codes "*" then true else w == v

attrs_match : Dict Bytes Bytes → Item → Bool
attrs_match [] it = true
attrs_match ((k, v) ∷ attrs) it = attr_matches v (lookup k it.attributes) && attrs_match attrs it

attrs_allow : Dict Bytes Bytes → Option Item → Bool
attrs_allow [] it = true
attrs_allow (_ ∷ _) none = false
attrs_allow (a ∷ attrs) (some it) = attrs_match (a ∷ attrs) it

-- `matches`
unfoldable pub matches : Rule → Bytes → Bytes → Option Item → Bool
unfolding attrs_allow attrs_match
matches r caller collection it =
    if not (r.app == []) && not (r.app == codes "*") && not (r.app == caller)
    then false
    else if not (r.collection == []) && not (r.collection == collection)
    then false
    else attrs_allow r.attrs it

-- `decisionKey`: the parts with a NUL between them.
unfoldable pub decision_key : Bytes → Bytes → Bytes → Bytes
decision_key caller collection id = caller ++ 0 ∷ (collection ++ 0 ∷ id)

abbrev pub id_of : Option Item → Bytes
id_of none = []
id_of (some it) = it.id

abbrev label_of : Option Item → Bytes
label_of none = []
label_of (some it) = it.label

answer_at : Time → Option Decision → Option Bool
answer_at now none = none
answer_at now (some d) = if ltb d.until now then none else some d.allowed

-- `remembered`, none for no answer.
unfoldable pub remembered : Engine → Time → Bytes → Bytes → Option Item → Option Bool
unfolding answer_at decision_key
remembered p now caller collection it =
    answer_at now (lookup (decision_key caller collection (id_of it)) p.decisions)

-- `Remember`
remember_for : ℤ → Engine → Time → Bytes → Bytes → Bytes → Bool → Engine
remember_for (negsuc _) p now caller collection id allowed = p
remember_for (pos zero) p now caller collection id allowed = p
remember_for (pos (suc n)) p now caller collection id allowed = record p {
  decisions =
      insert (decision_key caller collection id) (record { allowed = allowed; until = now + suc n })
        p.decisions;
}

unfoldable pub remember : Config → Engine → Time → Bytes → Bytes → Bytes → Bool → Engine
unfolding remember_for decision_key
remember c p now caller collection id allowed =
    remember_for c.remember p now caller collection id allowed

-- The loop of `Allow` over the rules.
unfoldable pub action_for : List Rule → Bytes → Bytes → Bytes → Option Item → Bytes
action_for [] otherwise caller collection it = otherwise
action_for (r ∷ rules) otherwise caller collection it =
    if matches r caller collection it
    then r.action
    else action_for rules otherwise caller collection it

answered : Option Bool → Bool × Reason
answered none = (false, unconfirmed)
answered (some d) = (d, no_reason)

decide : Bytes → Option Bool → Bool × Reason
decide action answer =
    if action == codes "allow"
    then (true, no_reason)
    else if action == codes "deny"
    then (false, denied)
    else if action == codes "prompt"
    then answered answer
    else (false, unknown_action)

-- `Allow`, at a moment.
unfoldable pub allow :
    Config → Identify → Engine → Time → Bytes → Bytes → Option Item → Bool × Reason
unfolding decide answered
allow c identify p now sender collection it =
    let caller = caller_of identify sender in
    decide (action_for c.rules c.default_action caller collection it)
      (remembered p now caller collection it)

abbrev pub at_most : {A : Type 0} → ℕ → List A → List A
at_most n l = if ltb n (length l) then drop (length l - n) l else l

unfoldable pub access_record : Identify → Time → Bytes → Bytes → Option Item → Bool → AccessRecord
access_record identify now sender collection it allowed = record {
  time = now;
  caller = caller_of identify sender;
  sender = sender;
  collection = collection;
  item = id_of it;
  label = label_of it;
  allowed = allowed;
}

notice : AccessRecord → Bytes
notice r =
    describe r.caller
    ++ codes " "
    ++ (if r.allowed then codes "read" else codes "was refused")
    ++ codes " "
    ++ r.collection
    ++ codes "/"
    ++ r.label
    ++ 10 ∷ []

-- `Record`. `listening` says that the engine has a writer.
unfoldable pub record_access :
    Config → Identify → Bool → Engine → Time → Bytes → Bytes → Option Item → Bool → Engine
unfolding access_record notice
record_access c identify listening p now sender collection it allowed =
    let r = access_record identify now sender collection it allowed in
    record {
      log = if c.audit then at_most max_log (p.log ++ r ∷ []) else p.log;
      decisions = p.decisions;
      notified =
          if listening && c.notify == codes "on-access"
          then p.notified ++ notice r ∷ []
          else p.notified;
    }

or_else : {A : Type 0} → Option A → Option A → Option A
or_else (some a) b = some a
or_else none b = b

-- `LastAccessor`
unfoldable pub last_accessor : List AccessRecord → Bytes → Option AccessRecord
unfolding or_else
last_accessor [] id = none
last_accessor (r ∷ log) id = or_else (last_accessor log id) (if r.item == id then some r else none)
