-- ===== src/Idempotency/Key/Trimmed.antt =====
-- `require_key`: the keys that it lets through.
use Prim.Native.Char.{Char}
use chekin_interview.Base.{
  ℕ, String, ◌≡◌, ◌≢◌, refl, sym, ◌∙◌, ap, inl, inr, Bool, true, false, ◌||◌, some, arith, ltb,
  Bool-cases, str_eq, eq_iff, if◌then◌else◌, ◌≤◌,
}
use chekin_interview.Base.Text.{text_length}
use chekin_interview.Errors.{Exn}
use chekin_interview.Database.Exec.{ok, raise}
use chekin_interview.Idempotency.Key.{
  max_key_length, is_space, strip_left, put_back, strip_right, strip, require_key, missing_key,
  key_too_long,
}

-- The first character is no white space.
abbrev Starts : String → Type 0
Starts String.[] = Unit
Starts (String.◌∷◌ c s) = is_space c ≡ false

strip_left-Starts : (s : String) → Starts (strip_left s)
unfolding strip_left
strip_left-Starts String.[] = tt
strip_left-Starts (String.◌∷◌ c s) = elim (Bool-cases (is_space c)) [
  | inl p ↦ rw p (strip_left-Starts s)
  | inr p ↦ rw p p
]

put_back-Starts : (c : Char) (t : String) → is_space c ≡ false → Starts (put_back c t)
unfolding put_back
put_back-Starts c String.[] h = rw h h
put_back-Starts c (String.◌∷◌ d t) h = h

strip_right-Starts : (s : String) → Starts s → Starts (strip_right s)
unfolding strip_right
strip_right-Starts String.[] h = tt
strip_right-Starts (String.◌∷◌ c s) h = put_back-Starts c (strip_right s) h

strip_left_id : (s : String) → Starts s → strip_left s ≡ s
unfolding strip_left
strip_left_id String.[] h = refl
strip_left_id (String.◌∷◌ c s) h = rw h refl

strip_right-put_back :
    (c : Char) (t : String) → strip_right t ≡ t → strip_right (put_back c t) ≡ put_back c t
unfolding strip_right put_back
strip_right-put_back c String.[] h = elim (Bool-cases (is_space c)) [
  | inl p ↦ rw p refl
  | inr p ↦ rw p (rw p refl)
]
strip_right-put_back c (String.◌∷◌ d t) h = rw h refl

strip_right_idem : (s : String) → strip_right (strip_right s) ≡ strip_right s
unfolding strip_right
strip_right_idem String.[] = refl
strip_right_idem (String.◌∷◌ c s) = strip_right-put_back c (strip_right s) (strip_right_idem s)

-- Stripping twice is stripping once.
pub strip_idem : (s : String) → strip (strip s) ≡ strip s
unfolding strip
strip_idem s =
    ap strip_right (
      strip_left_id (strip_right (strip_left s))
        (strip_right-Starts (strip_left s) (strip_left-Starts s)))
    ∙ strip_right_idem (strip_left s)

-- Two tests that raise, and a value.
both_false :
    (a b : Bool) (x y : Exn) (k key : String)
    → (if a then raise x else if b then raise y else ok k) ≡ ok key
    → (a ≡ false) × (b ≡ false) × (k ≡ key)
both_false true b x y k key h = cc h
both_false false true x y k key h = cc h
both_false false false x y k key h = (refl, refl, cc h)

right_false : (a b : Bool) → a || b ≡ false → b ≡ false
right_false false b h = h
right_false true b h = cc h

at_most : (n : ℕ) → ltb max_key_length n ≡ false → n ≤ max_key_length
at_most n h = ground arith

-- What the tests of `require_key` leave.
accepted :
    (raw key : String)
    → require_key (some raw) ≡ ok key
    → (str_eq raw "" || str_eq (strip raw) "" ≡ false)
      × (ltb max_key_length (text_length (strip raw)) ≡ false)
      × (strip raw ≡ key)
unfolding require_key
accepted raw key h =
    both_false (str_eq raw "" || str_eq (strip raw) "")
      (ltb max_key_length (text_length (strip raw))) missing_key
      (key_too_long (text_length (strip raw))) (strip raw) key h

-- A key that `require_key` returns is not empty, fits the column, and is the header without the
-- white space around it; sent again as the header, it gives the same key.
pub require_key-ok :
    (raw key : String)
    → require_key (some raw) ≡ ok key
    → (key ≢ "")
      × (text_length key ≤ max_key_length)
      × (strip raw ≡ key)
      × (require_key (some key) ≡ ok key)
unfolding require_key
require_key-ok raw key h =
    let (filled, short, same) = accepted raw key h in
    let still : strip key ≡ key = ap strip (sym same) ∙ strip_idem raw ∙ same in
    let filled_key : str_eq key "" ≡ false =
      ap (λ k. str_eq k "") (sym same)
      ∙ right_false (str_eq raw "") (str_eq (strip raw) "") filled in
    let short_key : ltb max_key_length (text_length key) ≡ false =
      ap (λ k. ltb max_key_length (text_length k)) (sym same) ∙ short in
    (
      λ p. cc (filled_key, (eq_iff key "").1 p),
      at_most (text_length key) short_key,
      same,
      rw (still, filled_key, short_key) refl,
    )
