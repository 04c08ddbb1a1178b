-- ===== src/Schemas/Money.antt =====
-- The serialiser of the money fields, `f"{v:.4f}"`, on a number of ten-thousandths.
pub mod Reads
use Prim.Native.Char.{Char}
use chekin_interview.Base.{ℕ, zero, suc, ◌/◌, ◌%◌, String, ◌≡◌, refl, ◌==◌, if◌then◌else◌}
use chekin_interview.Base.Int.{ℤ, pos, negsuc}

unfoldable pub digit : ℕ → Char
digit n =
    if n == 0
    then "0"
    else if n == 1
    then "1"
    else if n == 2
    then "2"
    else if n == 3
    then "3"
    else if n == 4
    then "4"
    else if n == 5
    then "5"
    else if n == 6
    then "6"
    else if n == 7
    then "7"
    else if n == 8
    then "8"
    else "9"

-- The decimal digits of `n`, before a text; each round takes the last digit. A fuel above `n` is
-- enough.
unfoldable pub digits : ℕ → ℕ → String → String
digits zero n rest = rest
digits (suc fuel) n rest =
    let more = digits fuel (n / 10) (String.◌∷◌ (digit (n % 10)) rest) in
    if n == 0 then rest else more

unfoldable pub whole : ℕ → String → String
unfolding digits
whole n rest = if n == 0 then String.◌∷◌ "0" rest else digits (suc n) n rest

-- Exactly four digits.
unfoldable pub places : ℕ → String
places n = String.◌∷◌ (digit (n / 1000 % 10)) (
    String.◌∷◌ (digit (n / 100 % 10))
      (String.◌∷◌ (digit (n / 10 % 10)) (String.◌∷◌ (digit (n % 10)) String.[])))

unfoldable pub unsigned_text : ℕ → String
unfolding whole places digit
unsigned_text n = whole (n / 10000) (String.◌∷◌ "." (places (n % 10000)))

unfoldable pub money_text : ℤ → String
unfolding unsigned_text
money_text (pos n) = unsigned_text n
money_text (negsuc n) = String.◌∷◌ "-" (unsigned_text (suc n))

money_text_lem : money_text (pos 1255000) ≡ "125.5000"
unfolding money_text
money_text_lem = refl

money_text_neg : money_text (negsuc 4) ≡ "-0.0005"
unfolding money_text
money_text_neg = refl
