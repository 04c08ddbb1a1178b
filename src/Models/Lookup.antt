-- ===== src/Models/Lookup.antt =====
-- Lookups by primary key after each row change.
use chekin_interview.Base.{
  ℕ, String, ◌≡◌, ◌≢◌, refl, List, [], ◌∷◌, some, true, false, arith, eq_iff, str_eq,
}
use chekin_interview.Base.Int.{ℤ}
use chekin_interview.Json.{Json}
use chekin_interview.Models.{
  Account, IdempotencyKey, find_account, find_key, update_balance, update_response, answered,
}

pub find_account-update_balance_self :
    (i : ℕ) (v : ℤ) (a : Account) (l : List Account)
    → find_account i l ≡ some a
    → find_account i (update_balance i v l) ≡ some (record a { balance = v })
unfolding find_account update_balance
find_account-update_balance_self i v a [] h = cc
find_account-update_balance_self i v a (x ∷ l) h =
    ground (arith, find_account-update_balance_self i v a l)

pub find_account-update_balance_ne :
    (i j : ℕ) (v : ℤ) (l : List Account)
    → i ≢ j
    → find_account j (update_balance i v l) ≡ find_account j l
unfolding find_account update_balance
find_account-update_balance_ne i j v [] h = refl
find_account-update_balance_ne i j v (x ∷ l) h =
    ground (arith, find_account-update_balance_ne i j v l h)

-- The row that a lookup finds has the id that was asked for.
pub find_account-id :
    (i : ℕ) (a : Account) (l : List Account) → find_account i l ≡ some a → a.id ≡ i
unfolding find_account
find_account-id i a [] h = cc
find_account-id i a (x ∷ l) h = ground (arith, find_account-id i a l)

pub find_key-key :
    (k : String) (r : IdempotencyKey) (l : List IdempotencyKey) → find_key k l ≡ some r → r.key ≡ k
unfolding find_key
find_key-key k r [] h = cc
find_key-key k r (x ∷ l) h = ground (arith, eq_iff x.key k, find_key-key k r l)

pub find_key-update_response_self :
    (k : String) (i s : ℕ) (b : Json) (r : IdempotencyKey) (l : List IdempotencyKey)
    → find_key k l ≡ some r
    → find_key k (update_response k i s b l) ≡ some (answered r i s b)
unfolding find_key update_response
find_key-update_response_self k i s b r [] h = cc
find_key-update_response_self k i s b r (x ∷ l) h =
    ground (arith, find_key-update_response_self k i s b r l)

pub find_key-update_response_ne :
    (k j : String) (i s : ℕ) (b : Json) (l : List IdempotencyKey)
    → k ≢ j
    → find_key j (update_response k i s b l) ≡ find_key j l
unfolding find_key update_response
find_key-update_response_ne k j i s b [] h = refl
find_key-update_response_ne k j i s b (x ∷ l) h =
    ground (arith, eq_iff x.key k, eq_iff x.key j, find_key-update_response_ne k j i s b l h)

pub find_key-cons_eq :
    (k : String) (r : IdempotencyKey) (rest : List IdempotencyKey)
    → str_eq r.key k ≡ true
    → find_key k (r ∷ rest) ≡ some r
unfolding find_key
find_key-cons_eq k r rest h = rw h

pub find_key-cons_ne :
    (k : String) (r : IdempotencyKey) (rest : List IdempotencyKey)
    → str_eq r.key k ≡ false
    → find_key k (r ∷ rest) ≡ find_key k rest
unfolding find_key
find_key-cons_ne k r rest h = rw h

pub some_inj {ℓ} : {A : Type ℓ} {a b : A} → some a ≡ some b → a ≡ b
some_inj h = cc
