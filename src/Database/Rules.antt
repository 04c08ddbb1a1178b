-- ===== src/Database/Rules.antt =====
-- Rules for the two ways in which a call ends, and what statements of a transaction keep.
use mathlib.Core.Path.{subst}
use chekin_interview.Base.{refl, ◌≡◌, ◌∙◌}
use chekin_interview.Errors.{Exn}
use chekin_interview.Models.{Tables}
use chekin_interview.Database.{Row, account_row, key_row, SameRow, Ghost, Within, Ends}
use chekin_interview.Database.Exec.{Result, ok, raise, Exec, follow, handle}

module _ {S A B : Type 0} where
  -- A bind that returns has had a value.
  pub follow-eq-ok :
      (f : A → Exec S B) (r : Result A × S) (b : B) (u : S)
      → follow f r ≡ (ok b, u)
      → (a : A) × (t : S) × (r ≡ (ok a, t)) × (f a t ≡ (ok b, u))
  follow-eq-ok f (ok a, t) b u h = (a, t, refl, h)
  follow-eq-ok f (raise x, t) b u h = cc h

  -- A bind ends well if its continuation does.
  pub Ends-bind :
      (Q : A → S → Type 0) (Q' : B → S → Type 0) (E : Exn → S → Type 0) (f : A → Exec S B)
      (r : Result A × S)
      → Ends Q E r
      → ((a : A) (s : S) → Q a s → Ends Q' E (f a s))
      → Ends Q' E (follow f r)
  Ends-bind Q Q' E f (ok a, s) h k = k a s h
  Ends-bind Q Q' E f (raise x, s) h k = h

module _ {S A : Type 0} where
  pub Ends-imp :
      (Q Q' : A → S → Type 0) (E E' : Exn → S → Type 0) (r : Result A × S)
      → Ends Q E r
      → ((a : A) (s : S) → Q a s → Q' a s)
      → ((x : Exn) (s : S) → E x s → E' x s)
      → Ends Q' E' r
  Ends-imp Q Q' E E' (ok a, s) h k l = k a s h
  Ends-imp Q Q' E E' (raise x, s) h k l = l x s h

  -- The state that a call ends in, named.
  pub Ends-result :
      (Q : A → S → Type 0) (E : Exn → S → Type 0) (r : Result A × S)
      → Ends Q E r
      → Ends (λ a s. Q a s × (s ≡ r.1)) (λ x s. E x s × (s ≡ r.1)) r
  Ends-result Q E (ok a, s) h = (h, refl)
  Ends-result Q E (raise x, s) h = (h, refl)

  -- What holds of a call that is known to have returned.
  pub Ends-ok :
      (Q : A → S → Type 0) (E : Exn → S → Type 0) (r : Result A × S) (a : A) (s : S)
      → Ends Q E r
      → r ≡ (ok a, s)
      → Q a s
  Ends-ok Q E r a s h p = subst (Ends Q E) p h

  -- What holds of a call that is known to have raised.
  pub Ends-raise :
      (Q : A → S → Type 0) (E : Exn → S → Type 0) (r : Result A × S) (x : Exn) (s : S)
      → Ends Q E r
      → r ≡ (raise x, s)
      → E x s
  Ends-raise Q E r x s h p = subst (Ends Q E) p h

  pub Ends-handle :
      (Q : A → S → Type 0) (E E' : Exn → S → Type 0) (f : Exn → Exec S A) (r : Result A × S)
      → Ends Q E r
      → ((x : Exn) (s : S) → E x s → Ends Q E' (f x s))
      → Ends Q E' (handle f r)
  Ends-handle Q E E' f (ok a, s) h k = h
  Ends-handle Q E E' f (raise x, s) h k = k x s h

pub SameRow-refl : (r : Row) (t : Tables) → SameRow r t t
SameRow-refl (account_row i) t = refl
SameRow-refl (key_row k) t = refl

pub SameRow-trans : (r : Row) (t u v : Tables) → SameRow r t u → SameRow r u v → SameRow r t v
SameRow-trans (account_row i) t u v h k = h ∙ k
SameRow-trans (key_row i) t u v h k = h ∙ k

module _ {S : Type 0} (g : Ghost S) where
  pub Within-refl : (s : S) → Within g s s
  Within-refl s = record {
    own_kept = refl;
    held_kept = λ r h. h;
    rows_kept = λ r h. SameRow-refl r (g.committed s);
    begun_kept = λ h. h;
    time_kept = λ h. refl;
  }

  pub Within-trans : (s t u : S) → Within g s t → Within g t u → Within g s u
  Within-trans s t u h k = record {
    own_kept = k.own_kept ∙ h.own_kept;
    held_kept = λ r held. k.held_kept r (h.held_kept r held);
    rows_kept = λ r held.
        SameRow-trans r (g.committed s) (g.committed t) (g.committed u) (h.rows_kept r held)
          (k.rows_kept r (h.held_kept r held));
    begun_kept = λ b. k.begun_kept (h.begun_kept b);
    time_kept = λ b. k.time_kept (h.begun_kept b) ∙ h.time_kept b;
  }

module _ {S A : Type 0} where
  pub Ends-finally :
      (Q Q' : A → S → Type 0) (E E' : Exn → S → Type 0) (close : S → S) (r : Result A × S)
      → Ends Q E r
      → ((a : A) (s : S) → Q a s → Q' a (close s))
      → ((x : Exn) (s : S) → E x s → E' x (close s))
      → Ends Q' E' (r.0, close r.1)
  Ends-finally Q Q' E E' close (ok a, s) h k l = k a s h
  Ends-finally Q Q' E E' close (raise x, s) h k l = l x s h
