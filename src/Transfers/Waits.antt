-- ===== src/Transfers/Waits.antt =====
-- What concurrent requests wait for: the rows that a request's transaction asks for stand in one
-- order, so that no requests wait for one another in a circle.
use chekin_interview.Base.{
  ℕ, suc, String, ◌≡◌, ◌≢◌, ◌<◌, ◌≤◌, refl, sym, ◌∙◌, ap, ◌⊎◌, inl, inr, List, [], ◌∷◌, ◌++◌, true,
  false, arith, leb, Bool-cases,
}
use mathlib.Core.Path.{subst}
use mathlib.Core.List.{map}
use chekin_interview.Models.{Account}
use chekin_interview.Schemas.{Codec, TransferRequest}
use chekin_interview.Database.{Engine, Row, account_row, key_row, All}
use chekin_interview.Database.Exec.{ok}
use chekin_interview.Database.Rules.{follow-eq-ok}
use chekin_interview.Transfers.{sorted, or_not_found, lock_each, lock_accounts}

lock_each-ids :
    (e : Engine) (c : Codec) (is : List ℕ) (s : e.Session) (l : List (ℕ × Account)) (s' : e.Session)
    → lock_each e c is s ≡ (ok l, s')
    → map (λ p. p.0) l ≡ is
unfolding lock_each
lock_each-ids e c [] s [] s' h = refl
lock_each-ids e c [] s (p ∷ l) s' h = cc h
lock_each-ids e c (i ∷ is) s l s' h =
    let (found, t, locked, next) = follow-eq-ok _ (e.lock_account i s) l s' h in
    let (a, u, got, rest) = follow-eq-ok _ (or_not_found e c i found t) l s' next in
    let (others, v, looped, last) = follow-eq-ok _ (lock_each e c is u) l s' rest in
    let made : ok ((i, a) ∷ others) ≡ ok l = ap (λ p. p.0) last in
    let same : (i, a) ∷ others ≡ l = cc made in
    ap (map (λ p. p.0)) (sym same) ∙ ap (λ js. i ∷ js) (lock_each-ids e c is u others v looped)

-- A request that changes the tables: a transfer between two accounts, with a call of `_lock_accounts`
-- for it that returns, or an opened account.
pub data Request (e : Engine) (c : Codec) : Type 0 where
  transfer :
      (key : String) (req : TransferRequest) (s s' : e.Session) (locked : List (ℕ × Account))
      → req.from_account_id ≢ req.to_account_id
      → lock_accounts e c (req.from_account_id ∷ req.to_account_id ∷ []) s ≡ (ok locked, s')
      → Request e c
  opening : (key : String) (account_id : ℕ) → Request e c

-- The rows that its transaction asks for and keeps until it ends, in order: the key that it claims,
-- then the accounts in the order in which the call of `_lock_accounts` has locked them, or the one that
-- it inserts.
abbrev pub plan : {e : Engine} {c : Codec} → Request e c → List Row
plan (transfer key req s s' locked distinct ran) =
    key_row key ∷ map account_row (map (λ p. p.0) locked)
plan (opening key account_id) = key_row key ∷ account_row account_id ∷ []

-- A place in the one order: all keys stand before all accounts.
abbrev pub rank : Row → ℕ
rank (key_row k) = 0
rank (account_row i) = suc i

-- Each row stands before the next.
abbrev IsRising : List Row → Type 0
IsRising [] = Unit
IsRising (r ∷ []) = Unit
IsRising (r ∷ r' ∷ rs) = (rank r < rank r') × IsRising (r' ∷ rs)

lt_of_leb : (a b : ℕ) → leb a b ≡ true → a ≢ b → a < b
lt_of_leb a b h ne = ground arith

lt_of_not_leb : (a b : ℕ) → leb a b ≡ false → b < a
lt_of_not_leb a b h = ground arith

le_of_leb : (a b : ℕ) → leb a b ≡ true → a ≤ b
le_of_leb a b h = ground arith

lt_le : {a b : ℕ} → a < b → a ≤ b
lt_le h = omega arith

pair-IsRising :
    (key : String) (a b : ℕ)
    → a ≢ b
    → IsRising (key_row key ∷ map account_row (sorted (a ∷ b ∷ [])))
unfolding sorted
pair-IsRising key a b distinct = elim (Bool-cases (leb a b)) [
  | inl p ↦ rw p (omega arith, (omega (arith, lt_of_leb a b p distinct), tt))
  | inr p ↦ rw p (omega arith, (omega (arith, lt_of_not_leb a b p), tt))
]

plan-IsRising : (e : Engine) (c : Codec) (r : Request e c) → IsRising (plan r)
unfolding lock_accounts
plan-IsRising e c (transfer key req s s' locked distinct ran) =
    let ids = sorted (req.from_account_id ∷ req.to_account_id ∷ []) in
    rw (lock_each-ids e c ids s locked s' ran)
      (pair-IsRising key req.from_account_id req.to_account_id distinct)
plan-IsRising e c (opening key account_id) = (omega arith, tt)

abbrev pub Listed : Row → List Row → Type 0
Listed r [] = ⊥
Listed r (x ∷ xs) = (r ≡ x) ⊎ Listed r xs

-- A request that waits: it has the rows of a first part of its plan, and has asked for the next.
pub record Waiter (e : Engine) (c : Codec) : Type 0 where
  pub request : Request e c
  pub holds : List Row
  pub wants : Row
  pub later : List Row
  pub planned : plan request ≡ holds ++ wants ∷ later

-- `t` cannot go on before `u` ends.
abbrev pub WaitsFor : {e : Engine} {c : Codec} → Waiter e c → Waiter e c → Type 0
WaitsFor t u = Listed t.wants u.holds

-- In a rising list all of a first part stand before what follows.
head-below :
    (x : Row) (holds : List Row) (wants : Row) (later : List Row)
    → IsRising (x ∷ holds ++ wants ∷ later)
    → rank x < rank wants
head-below x [] wants later h = h.0
head-below x (y ∷ holds) wants later h = omega (arith, h.0, head-below y holds wants later h.1)

tail-IsRising : (x : Row) (xs : List Row) → IsRising (x ∷ xs) → IsRising xs
tail-IsRising x [] h = tt
tail-IsRising x (y ∷ ys) h = h.1

holds-below :
    (r : Row) (holds : List Row) (wants : Row) (later : List Row)
    → IsRising (holds ++ wants ∷ later)
    → Listed r holds
    → rank r < rank wants
holds-below r [] wants later h k = elim k [ ]
holds-below r (x ∷ holds) wants later h (inl p) = rw p (head-below x holds wants later h)
holds-below r (x ∷ holds) wants later h (inr k) =
    holds-below r holds wants later (tail-IsRising x (holds ++ wants ∷ later) h) k

module _ {e : Engine} {c : Codec} where
  -- Who is waited for wants a row further on in the order.
  WaitsFor-rank : (t u : Waiter e c) → WaitsFor t u → rank t.wants < rank u.wants
  WaitsFor-rank t u h =
      holds-below t.wants u.holds u.wants u.later
        (subst IsRising u.planned (plan-IsRising e c u.request)) h

  -- A chain of requests, each waiting for the next.
  pub data Chain : Waiter e c → Waiter e c → Type 0 where
    one : {t u : Waiter e c} → WaitsFor t u → Chain t u
    more : {t u v : Waiter e c} → WaitsFor t u → Chain u v → Chain t v

  Chain-rank : {t u : Waiter e c} → Chain t u → rank t.wants < rank u.wants
  Chain-rank {t} {u} (one h) = WaitsFor-rank t u h
  Chain-rank {t} (more {u} h k) = omega (arith, WaitsFor-rank t u h, Chain-rank k)

  -- No requests wait for one another in a circle, however many they are.
  pub no_circle : (t : Waiter e c) → ¬ Chain t t
  no_circle t h = omega (arith, Chain-rank h)

  abbrev pub Among : Waiter e c → List (Waiter e c) → Type 0
  Among t [] = ⊥
  Among t (u ∷ us) = (t ≡ u) ⊎ Among t us

  raise-All :
      (n m : ℕ) (ts : List (Waiter e c))
      → n ≤ m
      → All (λ v. rank v.wants ≤ n) ts
      → All (λ v. rank v.wants ≤ m) ts
  raise-All n m [] h k = tt
  raise-All n m (t ∷ ts) h k = (omega (arith, k.0), raise-All n m ts h k.1)

  -- The waiter furthest on in the order.
  abbrev Furthest : List (Waiter e c) → Type 0
  Furthest ts = (u : Waiter e c) × Among u ts × All (λ v. rank v.wants ≤ rank u.wants) ts

  further :
      (t : Waiter e c) (ts : List (Waiter e c)) (f : Furthest ts)
      → (leb (rank f.0.wants) (rank t.wants) ≡ true) ⊎ (leb (rank f.0.wants) (rank t.wants) ≡ false)
      → Furthest (t ∷ ts)
  further t ts (u, among, above) (inl p) = (
    t,
    inl refl,
    (omega arith, raise-All (rank u.wants) (rank t.wants) ts (le_of_leb _ _ p) above),
  )
  further t ts (u, among, above) (inr p) = (u, inr among, (lt_le (lt_of_not_leb _ _ p), above))

  furthest : (t : Waiter e c) (ts : List (Waiter e c)) → Furthest (t ∷ ts)
  furthest t [] = (t, inl refl, (omega arith, tt))
  furthest t (t' ∷ ts) =
      let f = furthest t' ts in
      further t (t' ∷ ts) f (Bool-cases (leb (rank f.0.wants) (rank t.wants)))

  not-WaitsFor :
      (u : Waiter e c) (ts : List (Waiter e c))
      → All (λ v. rank v.wants ≤ rank u.wants) ts
      → All (λ v. ¬ WaitsFor u v) ts
  not-WaitsFor u [] h = tt
  not-WaitsFor u (v ∷ ts) h = (λ k. omega (arith, WaitsFor-rank u v k, h.0), not-WaitsFor u ts h.1)

  -- Let transfers, each with a call of `_lock_accounts` that returns, and openings of accounts each wait
  -- for a row, while they hold the rows before it: first the key, then the accounts in the order in
  -- which that call has locked them, or the new account. Among any such requests one waits for a row
  -- that none of them holds.
  pub no_deadlock :
      (t : Waiter e c) (ts : List (Waiter e c))
      → (u : Waiter e c) × Among u (t ∷ ts) × All (λ v. ¬ WaitsFor u v) (t ∷ ts)
  no_deadlock t ts =
      let (u, among, above) = furthest t ts in (u, among, not-WaitsFor u (t ∷ ts) above)
