-- ===== src/Ledger/Reach.antt =====
-- Sequences of committed requests, in the order of their commits: what holds of the tables after
-- any number of them, by any number of instances.
use chekin_interview.Base.{
  String, ◌≡◌, ◌⊎◌, refl, sym, ◌∙◌, ap, true, false, none, some, [], ◌∷◌, Bool-cases, str_eq,
  eq_iff, inl, inr,
}
use chekin_interview.Base.Int.{pos, ◌≤ℤ◌, ◌<ℤ◌}
use chekin_interview.Json.{Json}
use chekin_interview.Models.{IdempotencyKey, Tables, find_account, find_key}
use chekin_interview.Models.Lookup.{find_key-cons_eq, find_key-cons_ne}
use chekin_interview.Models.Sums.{balance_sum, opening_sum, entry_sum, account_sum}
use chekin_interview.Models.Constraints.{leg_sum}
use chekin_interview.Schemas.{TransferRequest, CreateAccountRequest}
use chekin_interview.Ledger.{TransferStep, OpenStep}
use chekin_interview.Ledger.Invariant.{IsConsistent}
use chekin_interview.Ledger.Invariant.Opened.{OpenStep-IsConsistent}
use chekin_interview.Ledger.Invariant.Transferred.{TransferStep-IsConsistent}

-- One committed request under a key. Validation lets no other amounts in.
pub data Step (key : String) (t u : Tables) : Type 0 where
  transferred :
      (hash : String) (req : TransferRequest) (body : Json)
      → pos 0 <ℤ req.amount
      → TransferStep key hash req body t u
      → Step key t u
  opened :
      (hash : String) (req : CreateAccountRequest) (body : Json)
      → pos 0 ≤ℤ req.initial_balance
      → OpenStep key hash req body t u
      → Step key t u

pub data Reach (t : Tables) : Tables → Type 0 where
  here : Reach t t
  next : (key : String) {u v : Tables} → Reach t u → Step key u v → Reach t v

abbrev pub empty : Tables
empty = record { accounts = []; ledger_entries = []; idempotency_keys = [] }

pub empty-IsConsistent : IsConsistent empty
unfolding entry_sum leg_sum balance_sum opening_sum account_sum find_account find_key
empty-IsConsistent = record {
  nets_to_zero = refl;
  legs_balance = λ i. refl;
  conserved = refl;
  honest = λ i a h. cc;
  no_strays = λ i h. tt;
  answers = λ k r h. cc;
}

pub Step-IsConsistent :
    {key : String} {t u : Tables} → Step key t u → IsConsistent t → IsConsistent u
Step-IsConsistent (transferred hash req body positive st) h =
    TransferStep-IsConsistent st positive h
Step-IsConsistent (opened hash req body funded st) h = OpenStep-IsConsistent st funded h

-- A committed request leaves its key with a record, and had found none.
Step-unused : {key : String} {t u : Tables} → Step key t u → find_key key t.idempotency_keys ≡ none
Step-unused (transferred hash req body positive st) = st.unused
Step-unused (opened hash req body funded st) = st.unused

-- What a step adds to the records: one, under its key.
pub record AddsKey (key : String) (t u : Tables) : Type 0 where
  pub claim : IdempotencyKey
  same_key : claim.key ≡ key
  unused : find_key key t.idempotency_keys ≡ none
  added : u.idempotency_keys ≡ claim ∷ t.idempotency_keys

abbrev pub Step-AddsKey : {key : String} {t u : Tables} → Step key t u → AddsKey key t u
Step-AddsKey (transferred hash req body positive st) = record {
  claim = st.claim;
  same_key = st.answered.same_key;
  unused = st.unused;
  added = st.keys_after;
}
Step-AddsKey (opened hash req body funded st) = record {
  claim = st.claim;
  same_key = st.answered.same_key;
  unused = st.unused;
  added = st.keys_after;
}

find_key-kept :
    (key k : String) (r : IdempotencyKey) (t u : Tables)
    → AddsKey key t u
    → find_key k t.idempotency_keys ≡ some r
    → find_key k u.idempotency_keys ≡ some r
find_key-kept key k r t u a found =
    ap (find_key k) a.added
    ∙ find_key-cons_ne k a.claim t.idempotency_keys (differs (Bool-cases (str_eq a.claim.key k)))
    ∙ found
  where
    differs :
        (str_eq a.claim.key k ≡ true) ⊎ (str_eq a.claim.key k ≡ false)
        → str_eq a.claim.key k ≡ false
    differs (inr p) = p
    differs (inl p) =
        let same : key ≡ k = sym a.same_key ∙ (eq_iff a.claim.key k).0 p in
        cc (a.unused, found, ap (λ x. find_key x t.idempotency_keys) same)

-- A stored record is never changed and never lost.
pub find_key-Reach :
    (k : String) (r : IdempotencyKey) {t u : Tables}
    → find_key k t.idempotency_keys ≡ some r
    → Reach t u
    → find_key k u.idempotency_keys ≡ some r
find_key-Reach k r h here = h
find_key-Reach k r h (next key {u = v} {v = w} reach st) =
    find_key-kept key k r v w (Step-AddsKey st) (find_key-Reach k r h reach)

-- After a step its record stands in the tables.
pub Step-found :
    {key : String} {t u : Tables} (st : Step key t u)
    → find_key key u.idempotency_keys ≡ some (Step-AddsKey st).claim
Step-found {key} {t} {u} st =
    let a = Step-AddsKey st in
    ap (find_key key) a.added
    ∙ find_key-cons_eq key a.claim t.idempotency_keys ((eq_iff a.claim.key key).1 a.same_key)

-- After a request was committed under a key, and any others after it, no request is committed under
-- that key.
pub key_spent : {key : String} {t u v w : Tables} → Step key t u → Reach u v → ¬ Step key v w
key_spent {key} {t} {u} {v} {w} first between second =
    cc
      (find_key-Reach key (Step-AddsKey first).claim (Step-found first) between, Step-unused second)
