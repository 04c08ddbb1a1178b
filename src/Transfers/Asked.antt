-- ===== src/Transfers/Asked.antt =====
-- The FOR UPDATE statements of `_lock_accounts`, in the order in which they are sent.
use chekin_interview.Base.{ℕ, ◌≡◌, sym, ap, Option, none, some, List, [], ◌∷◌}
use mathlib.Core.Path.{subst}
use chekin_interview.Models.{Account}
use chekin_interview.Schemas.{Codec}
use chekin_interview.Database.{Engine}
use chekin_interview.Database.Exec.{ok}
use chekin_interview.Database.Rules.{follow-eq-ok}
use chekin_interview.Transfers.Sorted.{IsAscending, sorted-IsAscending}
use chekin_interview.Transfers.{sorted, or_not_found, lock_each, lock_accounts}

-- A run of FOR UPDATE statements that each find their row, one for each id, in order.
module _ (e : Engine) where
  open e use {Session}

  pub data Asked : List ℕ → Session → Session → Type 0 where
    done : {s : Session} → Asked [] s s
    asked :
        (i : ℕ) (a : Account) {is : List ℕ} {s t u : Session}
        → e.lock_account i s ≡ (ok (some a), t)
        → Asked is t u
        → Asked (i ∷ is) s u

  module _ (c : Codec) where
    or_not_found-Asked :
        (i : ℕ) (is : List ℕ) (found : Option Account) (s t u : Session) (a : Account)
        → e.lock_account i s ≡ (ok found, t)
        → or_not_found e c i found t ≡ (ok a, u)
        → ((v : Session) → Asked is u v → Asked (i ∷ is) s v)
    unfolding or_not_found
    or_not_found-Asked i is none s t u a h k v rest = cc k
    or_not_found-Asked i is (some b) s t u a h k v rest =
        asked i b h (subst (λ w. Asked is w v) (ap (λ p. p.1) (sym k)) rest)

    -- The loop of `_lock_accounts` asks for the rows in the order of its list.
    lock_each-Asked :
        (is : List ℕ) (s : Session) (l : List (ℕ × Account)) (s' : Session)
        → lock_each e c is s ≡ (ok l, s')
        → Asked is s s'
    unfolding lock_each
    lock_each-Asked [] s l s' h = subst (Asked [] s) (ap (λ p. p.1) h) done
    lock_each-Asked (i ∷ is) s l s' h =
        let (found, t, locked, next) = follow-eq-ok _ (e.lock_account i s) l s' h in
        let (a, u, got, rest) = follow-eq-ok _ (or_not_found e c i found t) l s' next in
        let (others, v, looped, last) = follow-eq-ok _ (lock_each e c is u) l s' rest in
        or_not_found-Asked i is found s t u a locked got s'
          (subst (Asked is u) (ap (λ p. p.1) last) (lock_each-Asked is u others v looped))

    -- A call of `_lock_accounts` that returns has locked the rows in ascending order of their ids,
    -- each by a statement of its own that found the row.
    pub lock_accounts-Asked :
        (is : List ℕ) (s : Session) (l : List (ℕ × Account)) (s' : Session)
        → lock_accounts e c is s ≡ (ok l, s')
        → Asked (sorted is) s s' × IsAscending (sorted is)
    unfolding lock_accounts
    lock_accounts-Asked is s l s' h = (lock_each-Asked (sorted is) s l s' h, sorted-IsAscending is)
