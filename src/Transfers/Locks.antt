-- ===== src/Transfers/Locks.antt =====
-- `_lock_accounts`: the rows that it holds, and the order in which it asks for them.
use mathlib.Core.List.{Perm, Permᴰ}
use mathlib.Core.Path.{subst}
use native.Mathlib.Decide.{ℕ_discrete}
use chekin_interview.Base.{
  ℕ, ap, ◌≡◌, refl, ◌≢◌, sym, ◌∙◌, inl, inr, Option, none, some, List, [], ◌∷◌, arith,
}
use chekin_interview.Models.{Account, find_account, LeavesAccounts}
use chekin_interview.Schemas.{Codec}
use chekin_interview.Database.{Engine, account_row, Within, Ends}
use chekin_interview.Database.Exec.{pure, ◌>>=◌}
use chekin_interview.Database.Rules.{Ends-bind, Ends-imp, Within-refl, Within-trans}
use chekin_interview.Transfers.{sorted, get_item, or_not_found, lock_each, lock_accounts}
use chekin_interview.Transfers.Sorted.{
  Listed, IsAscending, sorted-IsAscending, sorted-Permᴰ, sorted-perm,
}

-- Whatever the order in which a request names its accounts, the rows are locked in ascending order of
-- their ids, one statement at a time: two lists with the same ids lock alike.
pub lock_accounts-perm :
    (e : Engine) (c : Codec) (xs ys : List ℕ)
    → Perm xs ys
    → (lock_accounts e c xs ≡ lock_each e c (sorted xs))
      × (lock_accounts e c ys ≡ lock_each e c (sorted xs))
      × IsAscending (sorted xs)
      × Permᴰ (sorted xs) xs
unfolding lock_accounts
lock_accounts-perm e c xs ys p =
    (refl, ap (lock_each e c) (sym (sorted-perm xs ys p)), sorted-IsAscending xs, sorted-Permᴰ xs)

module _ (e : Engine) (c : Codec) where
  open e use {Session, ghost}

  -- What `lock_each` has found: each id with the committed row, which the transaction now holds.
  abbrev pub Locks : List ℕ → List (ℕ × Account) → Session → Type 0
  Locks [] [] s = Unit
  Locks (i ∷ is) ((j, a) ∷ l) s =
      (j ≡ i)
      × ghost.Held s (account_row i)
      × (find_account i (ghost.committed s).accounts ≡ some a)
      × Locks is l s
  Locks _ _ s = ⊥

  Locks-Within :
      (is : List ℕ) (l : List (ℕ × Account)) (s t : Session)
      → Within ghost s t
      → Locks is l s
      → Locks is l t
  Locks-Within [] [] s t w h = tt
  Locks-Within [] (x ∷ l) s t w h = h
  Locks-Within (i ∷ is) [] s t w h = h
  Locks-Within (i ∷ is) ((j, a) ∷ l) s t w (same, held, found, rest) =
      (same, w.held_kept _ held, sym (w.rows_kept _ held) ∙ found, Locks-Within is l s t w rest)

  -- An id that was locked is in the dictionary, with its row.
  pub get_item-Locks :
      (i : ℕ) (is : List ℕ) (l : List (ℕ × Account)) (s : Session)
      → Locks is l s
      → Listed i is
      → (a : Account) × (get_item i l ≡ some a)
        × ghost.Held s (account_row i)
        × (find_account i (ghost.committed s).accounts ≡ some a)
  unfolding get_item
  get_item-Locks i [] l s h listed = elim listed [ ]
  get_item-Locks i (x ∷ is) [] s h listed = elim h [ ]
  get_item-Locks i (x ∷ is) ((j, a) ∷ l) s (same, held, found, rest) listed =
      elim (ℕ_discrete j i) [
        | yes p ↦ (
          a,
          ground arith,
          subst (λ k. ghost.Held s (account_row k)) (sym same ∙ p) held,
          subst (λ k. find_account k (ghost.committed s).accounts ≡ some a) (sym same ∙ p) found,
        )
        | no p ↦
            later (get_item-Locks i is l s rest)
              (elim listed [ inl q ↦ absurd (p (same ∙ sym q)) | inr q ↦ q ]) p
      ]
    where
      later :
          (Listed i is
            → (b : Account) × (get_item i l ≡ some b)
              × ghost.Held s (account_row i)
              × (find_account i (ghost.committed s).accounts ≡ some b))
          → Listed i is
          → j ≢ i
          → (b : Account) × (get_item i ((j, a) ∷ l) ≡ some b)
            × ghost.Held s (account_row i)
            × (find_account i (ghost.committed s).accounts ≡ some b)
      later ih q p = let (b, item, held_b, found_b) = ih q in (b, ground arith, held_b, found_b)

  -- The state after a loop that began at `s` and locked `is`.
  abbrev pub Locked : List ℕ → Session → List (ℕ × Account) → Session → Type 0
  Locked is s l s' = Within ghost s s' × (ghost.pending s' ≡ ghost.pending s) × Locks is l s'

  -- What one FOR UPDATE statement promises.
  abbrev Found : ℕ → Session → Option Account → Session → Type 0
  Found i s r s' =
      Within ghost s s'
      × (ghost.pending s' ≡ ghost.pending s)
      × ((a : Account)
          → r ≡ some a
          → ghost.Held s' (account_row i) × (find_account i (ghost.committed s').accounts ≡ some a))

  pub lock_each-Locks :
      (is : List ℕ) (s : Session)
      → LeavesAccounts (ghost.pending s)
      → Ends (λ l s'. Locked is s l s') (λ x s'. ghost.own s' ≡ ghost.own s) (lock_each e c is s)
  unfolding lock_each
  lock_each-Locks [] s h = (Within-refl ghost s, refl, tt)
  lock_each-Locks (i ∷ is) s h =
      Ends-bind (λ r s'. Found i s r s') (λ l s'. Locked (i ∷ is) s l s')
        (λ x s'. ghost.own s' ≡ ghost.own s)
        (λ r. or_not_found e c i r >>= λ a. lock_each e c is >>= λ l. pure ((i, a) ∷ l))
        (e.lock_account i s) (e.lock_account_holds i s h)
        (λ r s' k. found-Locked (lock_each-Locks is) r s' k)
    where
      rest :
          ((t : Session)
            → LeavesAccounts (ghost.pending t)
            → Ends (λ l u. Locked is t l u) (λ x u. ghost.own u ≡ ghost.own t) (lock_each e c is t))
          → (a : Account) (s' : Session) → Within ghost s s'
          → ghost.pending s' ≡ ghost.pending s
          → ghost.Held s' (account_row i)
          → find_account i (ghost.committed s').accounts ≡ some a
          → Ends
              (λ l t. Locked (i ∷ is) s l t)
              (λ x t. ghost.own t ≡ ghost.own s)
              ((lock_each e c is >>= λ l. pure ((i, a) ∷ l)) s')
      rest ih a s' w pending held found =
          Ends-bind (λ l t. Locked is s' l t) (λ l t. Locked (i ∷ is) s l t)
            (λ x t. ghost.own t ≡ ghost.own s) (λ l. pure ((i, a) ∷ l)) (lock_each e c is s')
            (Ends-imp (λ l t. Locked is s' l t) (λ l t. Locked is s' l t)
              (λ x t. ghost.own t ≡ ghost.own s') (λ x t. ghost.own t ≡ ghost.own s)
              (lock_each e c is s') (ih s' (subst LeavesAccounts (sym pending) h)) (λ l t k. k)
              (λ x t same. same ∙ w.own_kept))
            (λ l t (w', pending', locks). (
              Within-trans ghost s s' t w w',
              pending' ∙ pending,
              (
                refl,
                w'.held_kept (account_row i) held,
                sym (w'.rows_kept (account_row i) held) ∙ found,
                locks,
              ),
            ))

      found-Locked :
          ((t : Session)
            → LeavesAccounts (ghost.pending t)
            → Ends (λ l u. Locked is t l u) (λ x u. ghost.own u ≡ ghost.own t) (lock_each e c is t))
          → (r : Option Account) (s' : Session) → Found i s r s'
          → Ends
              (λ l t. Locked (i ∷ is) s l t)
              (λ x t. ghost.own t ≡ ghost.own s)
              ((or_not_found e c i r >>= λ a. lock_each e c is >>= λ l. pure ((i, a) ∷ l)) s')
      found-Locked ih none s' (w, pending, holds) = w.own_kept
      found-Locked ih (some a) s' (w, pending, holds) =
          rest ih a s' w pending (holds a refl).0 (holds a refl).1
