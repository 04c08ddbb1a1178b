-- ===== src/Database/Exec.antt =====
-- Calls on a session that return or raise. The session comes back after a raise too.
use chekin_interview.Errors.{Exn}

pub data Result {ℓ} (A : Type ℓ) : Type ℓ where
  ok : A → Result A
  raise : Exn → Result A

abbrev pub Exec : Type 0 → Type 0 → Type 0
Exec S A = S → Result A × S

module _ {S A : Type 0} where
  abbrev pub pure : A → Exec S A
  pure a s = (ok a, s)

  abbrev pub throw : Exn → Exec S A
  throw x s = (raise x, s)

  abbrev pub lift : Result A → Exec S A
  lift r s = (r, s)

  -- `try: … finally: close`
  abbrev pub finally : Exec S A → (S → S) → Exec S A
  finally m close s = let (r, s') = m s in (r, close s')

  abbrev pub handle : (Exn → Exec S A) → Result A × S → Result A × S
  handle h (ok a, s) = (ok a, s)
  handle h (raise x, s) = h x s

  -- `try: … except …`
  abbrev pub catch : Exec S A → (Exn → Exec S A) → Exec S A
  catch m h s = handle h (m s)

-- A call that cannot raise.
abbrev pub always : {S A : Type 0} → (S → A × S) → Exec S A
always m s = let (a, s') = m s in (ok a, s')

abbrev pub follow : {S A B : Type 0} → (A → Exec S B) → Result A × S → Result B × S
follow f (ok a, s) = f a s
follow f (raise x, s) = (raise x, s)

infixl 5 ◌>>=◌ ◌>>◌
abbrev pub ◌>>=◌ : {S A B : Type 0} → Exec S A → (A → Exec S B) → Exec S B
◌>>=◌ m f s = follow f (m s)

abbrev pub ◌>>◌ : {S A B : Type 0} → Exec S A → Exec S B → Exec S B
m >> k = m >>= λ _. k
