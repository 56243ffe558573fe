-- ===== src/SecretService/Policy/Laws.antt =====
-- pkg/secretservice/policy.go: what the policy decides, what it remembers, and what its log keeps.
use binpass.Prelude.{
  ℕ, zero, suc, All, ◌+◌, ◌-◌, ◌≤◌, Bool, true, false, List, [], ◌∷◌, ◌++◌, Option, none, some,
  Bytes, codes, ltb, bytes_eq, length, drop, length-append, pos, ℤ, negsuc, Option-cases, some_inj,
  ◌≡◌, ◌≢◌, ◌⊎◌, ◌↔◌, inl, inr, refl, sym, ap, ◌∙◌, arith, Bool-cases,
}
use binpass.Prelude.Dict.{lookup, lookup-insert}
use binpass.Text.{cut}
use binpass.Text.Laws.{Lacks, cut-append}
use binpass.SecretService.Item.{Item}
use binpass.SecretService.Policy.{
  Time, Decision, Rule, Config, AccessRecord, Engine, Identify, max_log, caller_of, matches,
  decision_key, remembered, remember, remember_for, answer_at, id_of, action_for, answered, decide,
  allow, at_most, record_access, access_record, last_accessor, or_else,
}

-- The first rule that matches decides: the ones in front of it do not match, and the ones behind it
-- play no part.
pub action_for_first :
    (before : List Rule) (r : Rule) (after : List Rule) (otherwise caller collection : Bytes)
    (it : Option Item)
    → All (λ q. matches q caller collection it ≡ false) before
    → matches r caller collection it ≡ true
    → action_for (before ++ r ∷ after) otherwise caller collection it ≡ r.action
unfolding action_for
action_for_first [] r after otherwise caller collection it none_before m = rw m refl
action_for_first (q ∷ before) r after otherwise caller collection it (h, none_before) m =
    rw h (action_for_first before r after otherwise caller collection it none_before m)

decide_iff :
    (action : Bytes) (answer : Option Bool)
    → ((decide action answer).0 ≡ true)
      ↔ ((action ≡ codes "allow") ⊎ ((action ≡ codes "prompt") × (answer ≡ some true)))
unfolding decide answered
decide_iff action none = ground arith
decide_iff action (some true) = ground arith
decide_iff action (some false) = ground arith

-- Who a sender is: nobody where senders are not identified, where there is none, or where it is
-- unknown.
abbrev pub IsCaller : Identify → Bytes → Bytes → Type 0
IsCaller none sender caller = caller ≡ []
IsCaller (some f) sender caller =
    ((sender ≡ []) × (caller ≡ []))
    ⊎ ((sender ≢ []) × ((f sender ≡ some caller) ⊎ ((f sender ≡ none) × (caller ≡ []))))

-- The action of the first rule that matches, or the default where none does.
abbrev pub Says : Config → Bytes → Bytes → Option Item → Bytes → Type 0
Says c caller collection it action =
    ((before : List Rule) × (r : Rule) × (after : List Rule) × (c.rules ≡ before ++ r ∷ after)
      × All (λ q. matches q caller collection it ≡ false) before
      × (matches r caller collection it ≡ true)
      × (r.action ≡ action))
    ⊎ (All (λ q. matches q caller collection it ≡ false) c.rules × (c.default_action ≡ action))

-- An answer for the caller, the collection and the item says yes, and its time has not passed.
abbrev pub SaysYes : Engine → Time → Bytes → Bytes → Option Item → Type 0
SaysYes p now caller collection it =
    (d : Decision) × (lookup (decision_key caller collection (id_of it)) p.decisions ≡ some d)
    × (d.allowed ≡ true)
    × (now ≤ d.until)

caller_of-IsCaller :
    (identify : Identify) (sender caller : Bytes)
    → IsCaller identify sender caller
    → caller_of identify sender ≡ caller
unfolding caller_of
caller_of-IsCaller none sender caller h = sym h
caller_of-IsCaller (some f) sender caller (inl (nobody, e)) = ground (arith, nobody, e)
caller_of-IsCaller (some f) sender caller (inr (ne, inl known)) = ground (arith, ne, known)
caller_of-IsCaller (some f) sender caller (inr (ne, inr (unknown, e))) =
    ground (arith, ne, unknown, e)

action_for_none :
    (rules : List Rule) (otherwise caller collection : Bytes) (it : Option Item)
    → All (λ q. matches q caller collection it ≡ false) rules
    → action_for rules otherwise caller collection it ≡ otherwise
unfolding action_for
action_for_none [] otherwise caller collection it h = refl
action_for_none (r ∷ rules) otherwise caller collection it (m, h) =
    rw m (action_for_none rules otherwise caller collection it h)

action_for-cases :
    (rules : List Rule) (otherwise caller collection : Bytes) (it : Option Item)
    → ((before : List Rule) × (r : Rule) × (after : List Rule) × (rules ≡ before ++ r ∷ after)
        × All (λ q. matches q caller collection it ≡ false) before
        × (matches r caller collection it ≡ true)
        × (r.action ≡ action_for rules otherwise caller collection it))
      ⊎ (All (λ q. matches q caller collection it ≡ false) rules
          × (otherwise ≡ action_for rules otherwise caller collection it))
unfolding action_for
action_for-cases [] otherwise caller collection it = inr (tt, refl)
action_for-cases (q ∷ rules) otherwise caller collection it =
    elim (Bool-cases (matches q caller collection it)) [
      | inl m ↦ inl ([], q, rules, refl, tt, m, rw m refl)
      | inr m ↦ elim (action_for-cases rules otherwise caller collection it) [
        | inl (before, r, after, split, skipped, hit, says) ↦
            inl (q ∷ before, r, after, ap (◌∷◌ q) split, (m, skipped), hit, rw m says)
        | inr (skipped, says) ↦ inr ((m, skipped), rw m says)
      ]
    ]

Says-iff :
    (c : Config) (caller collection : Bytes) (it : Option Item) (action : Bytes)
    → (action_for c.rules c.default_action caller collection it ≡ action)
      ↔ Says c caller collection it action
Says-iff c caller collection it action = (
  λ e. elim (action_for-cases c.rules c.default_action caller collection it) [
    | inl (before, r, after, split, skipped, hit, says) ↦
        inl (before, r, after, split, skipped, hit, says ∙ e)
    | inr (skipped, says) ↦ inr (skipped, says ∙ e)
  ],
  λ h. elim h [
    | inl (before, r, after, split, skipped, hit, says) ↦
        ap (λ rs. action_for rs c.default_action caller collection it) split
        ∙ action_for_first before r after c.default_action caller collection it skipped hit
        ∙ says
    | inr (skipped, says) ↦
        action_for_none c.rules c.default_action caller collection it skipped ∙ says
  ],
)

remembered_iff :
    (p : Engine) (now : Time) (caller collection : Bytes) (it : Option Item)
    → (remembered p now caller collection it ≡ some true) ↔ SaysYes p now caller collection it
unfolding remembered answer_at
remembered_iff p now caller collection it =
    elim (Option-cases (lookup (decision_key caller collection (id_of it)) p.decisions)) [
      | inl lacking ↦ (
        λ e. absurd (let z = rw lacking at e in cc),
        λ s. let (d, there, yes_said, later) = s in absurd (let z = sym lacking ∙ there in cc),
      )
      | inr (d, there) ↦ (
        λ e. let z = rw there at e in (d, there, ground arith, ground arith),
        λ s.
            let (k, at_k, said, later) = s in
            let same = some_inj (sym there ∙ at_k) in rw there (ground (arith, same)),
      )
    ]

-- An access is granted exactly if the first rule that matches the caller, or the default where none
-- does, says allow, or says prompt and there is an answer for the caller, the collection and the
-- item that says yes and whose time has not passed. The caller is nobody where the sender cannot be
-- identified.
pub allow_iff :
    (c : Config) (identify : Identify) (p : Engine) (now : Time) (sender caller collection : Bytes)
    (it : Option Item)
    → IsCaller identify sender caller
    → ((allow c identify p now sender collection it).0 ≡ true) ↔ (
        Says c caller collection it (codes "allow")
        ⊎ (Says c caller collection it (codes "prompt") × SaysYes p now caller collection it))
unfolding allow
allow_iff c identify p now sender caller collection it known =
    let decided =
      decide_iff (action_for c.rules c.default_action caller collection it)
        (remembered p now caller collection it) in
    let allows = Says-iff c caller collection it (codes "allow") in
    let prompts = Says-iff c caller collection it (codes "prompt") in
    let answers = remembered_iff p now caller collection it in
    rw (caller_of-IsCaller identify sender caller known) (
      λ h. elim (decided.0 h) [
        | inl a ↦ inl (allows.0 a)
        | inr (q, y) ↦ inr (prompts.0 q, answers.0 y)
      ],
      λ h. elim h [
        | inl a ↦ decided.1 (inl (allows.1 a))
        | inr (q, y) ↦ decided.1 (inr (prompts.1 q, answers.1 y))
      ],
    )

length-drop : {A : Type 0} (n : ℕ) (l : List A) → length (drop n l) ≡ length l - n
length-drop zero l = ground arith
length-drop (suc n) [] = ground arith
length-drop (suc n) (x ∷ l) = ground (arith, length-drop n l)

at_most-length : {A : Type 0} (n : ℕ) (l : List A) → length (at_most n l) ≤ n
at_most-length n l = ground (arith, length-drop (length l - n) l)

-- A log of at most 1000 accesses stays one when an access is recorded.
pub record_access-length :
    (c : Config) (identify : Identify) (listening : Bool) (p : Engine) (now : Time)
    (sender collection : Bytes) (it : Option Item) (allowed : Bool)
    → length p.log ≤ max_log
    → length (record_access c identify listening p now sender collection it allowed).log ≤ max_log
unfolding record_access
record_access-length c identify listening p now sender collection it allowed h =
    elim (Bool-cases c.audit) [
      | inl on ↦ rw on (
          at_most-length max_log
            (p.log ++ access_record identify now sender collection it allowed ∷ []))
      | inr off ↦ rw off h
    ]

drop-concat :
    {A : Type 0} (n : ℕ) (l : List A) (x : A)
    → n ≤ length l
    → drop n (l ++ x ∷ []) ≡ drop n l ++ x ∷ []
drop-concat zero l x h = refl
drop-concat (suc n) [] x h = ground arith
drop-concat (suc n) (y ∷ l) x h = drop-concat n l x (omega (arith, h))

last_accessor-concat :
    (l : List AccessRecord) (r : AccessRecord) → last_accessor (l ++ r ∷ []) r.item ≡ some r
unfolding last_accessor or_else
last_accessor-concat [] r = ground arith
last_accessor-concat (q ∷ l) r = rw (last_accessor-concat l r) refl

at_most-concat :
    {A : Type 0} (n : ℕ) (l : List A) (x : A)
    → (k : List A) × (at_most (suc n) (l ++ x ∷ []) ≡ k ++ x ∷ [])
at_most-concat n l x = elim (Bool-cases (ltb (suc n) (length (l ++ x ∷ [])))) [
  | inl big ↦ (
    drop (length l - n) l,
    rw big (
        ap (λ k. drop k (l ++ x ∷ [])) (omega (arith, length-append l (x ∷ [])))
        ∙ drop-concat (length l - n) l x (omega arith)),
  )
  | inr small ↦ (l, rw small refl)
]

-- With the audit on, the last accessor of an item is the access just recorded.
pub last_accessor-record_access :
    (c : Config) (identify : Identify) (listening : Bool) (p : Engine) (now : Time)
    (sender collection : Bytes) (it : Option Item) (allowed : Bool)
    → c.audit ≡ true
    → last_accessor
        (record_access c identify listening p now sender collection it allowed).log
        (id_of it)
      ≡ some (access_record identify now sender collection it allowed)
unfolding record_access access_record
last_accessor-record_access c identify listening p now sender collection it allowed h =
    let r = access_record identify now sender collection it allowed in
    let (l, e) = at_most-concat 999 p.log r in rw (h, e) (last_accessor-concat l r)

-- Keys of parts without a NUL are equal for equal parts only.
decision_key_injective :
    (caller collection id caller' collection' id' : Bytes)
    → Lacks 0 caller
    → Lacks 0 collection
    → Lacks 0 caller'
    → Lacks 0 collection'
    → decision_key caller collection id ≡ decision_key caller' collection' id'
    → (caller ≡ caller') × (collection ≡ collection') × (id ≡ id')
unfolding decision_key
decision_key_injective caller collection id caller' collection' id' n1 n2 n1' n2' h =
    let outer =
      sym (cut-append 0 caller (collection ++ 0 ∷ id) n1)
      ∙ ap (cut 0) h
      ∙ cut-append 0 caller' (collection' ++ 0 ∷ id') n1' in
    let inner =
      sym (cut-append 0 collection id n2)
      ∙ ap (cut 0) (ap (λ t. t.1) outer)
      ∙ cut-append 0 collection' id' n2' in
    (ap (λ t. t.0) outer, ap (λ t. t.0) inner, ap (λ t. t.1) inner)

-- With a positive duration, and until it expires, an answer is given back for the caller, the
-- collection and the item that it was given for.
pub remembered-remember :
    (c : Config) (n : ℕ) (p : Engine) (now later : Time) (caller collection : Bytes)
    (it : Option Item) (allowed : Bool)
    → c.remember ≡ pos (suc n)
    → later ≤ now + suc n
    → remembered (remember c p now caller collection (id_of it) allowed) later caller collection it
      ≡ some allowed
unfolding remembered remember remember_for answer_at
remembered-remember c n p now later caller collection it allowed h before =
    let k = decision_key caller collection (id_of it) in
    rw h (
      ground
        (arith, lookup-insert k k (record { allowed = allowed; until = now + suc n }) p.decisions))

parts_differ :
    (caller collection id caller' collection' id' : Bytes)
    → (caller' ≢ caller) ⊎ (collection' ≢ collection) ⊎ (id' ≢ id)
    → (caller' ≡ caller) × (collection' ≡ collection) × (id' ≡ id)
    → ⊥
parts_differ caller collection id caller' collection' id' (inl ne) (e, f, g) = absurd (ne e)
parts_differ caller collection id caller' collection' id' (inr (inl ne)) (e, f, g) = absurd (ne f)
parts_differ caller collection id caller' collection' id' (inr (inr ne)) (e, f, g) = absurd (ne g)

remember_for_other :
    (d : ℤ) (p : Engine) (now later : Time) (caller collection id : Bytes) (allowed : Bool)
    (k : Bytes)
    → k ≢ decision_key caller collection id
    → lookup k (remember_for d p now caller collection id allowed).decisions ≡ lookup k p.decisions
unfolding remember_for
remember_for_other (negsuc _) p now later caller collection id allowed k ne = refl
remember_for_other (pos zero) p now later caller collection id allowed k ne = refl
remember_for_other (pos (suc n)) p now later caller collection id allowed k ne = ground (
  arith,
  lookup-insert k (decision_key caller collection id)
      (record { allowed = allowed; until = now + suc n }) p.decisions,
)

-- An answer that is remembered for one caller, collection and item changes no answer for another
-- one, where callers and collections have no NUL.
pub remembered-remember_other :
    (c : Config) (p : Engine) (now later : Time) (caller collection id caller' collection' : Bytes)
    (it : Option Item) (allowed : Bool)
    → Lacks 0 caller
    → Lacks 0 collection
    → Lacks 0 caller'
    → Lacks 0 collection'
    → (caller' ≢ caller) ⊎ (collection' ≢ collection) ⊎ (id_of it ≢ id)
    → remembered (remember c p now caller collection id allowed) later caller' collection' it
      ≡ remembered p later caller' collection' it
unfolding remembered remember
remembered-remember_other c p now later caller collection id caller' collection' it allowed n1 n2
      n1' n2' other =
    ap (answer_at later) (
      remember_for_other c.remember p now later caller collection id allowed
        (decision_key caller' collection' (id_of it))
        (λ same. parts_differ caller collection id caller' collection' (id_of it) other (
          decision_key_injective caller' collection' (id_of it) caller collection id n1' n2' n1 n2
            same)))
