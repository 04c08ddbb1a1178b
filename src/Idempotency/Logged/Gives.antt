-- ===== src/Idempotency/Logged/Gives.antt =====
-- Calls whose outcomes have a property, whatever the session does.
use chekin_interview.Database.{Ends}
use chekin_interview.Database.Exec.{Result, ok, raise, Exec, follow, ◌>>=◌}

-- A call whose outcomes are such, whatever state it starts from.
abbrev pub Gives : {S A : Type 0} → (A → Type 0) → Exec S A → Type 0
Gives {S} P m = (s : S) → Ends (λ o t. P o) (λ x t. Unit {0}) (m s)

module _ {S A B : Type 0} (P : B → Type 0) where
  pub follow-Gives :
      (f : A → Exec S B) (r : Result A × S)
      → ((a : A) → Gives P (f a))
      → Ends (λ o t. P o) (λ x t. Unit {0}) (follow f r)
  follow-Gives f (ok a, s) h = h a s
  follow-Gives f (raise x, s) h = tt

  pub >>=-Gives : (m : Exec S A) (f : A → Exec S B) → ((a : A) → Gives P (f a)) → Gives P (m >>= f)
  >>=-Gives m f h s = follow-Gives f (m s) h
