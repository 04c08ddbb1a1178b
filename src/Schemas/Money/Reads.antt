-- ===== src/Schemas/Money/Reads.antt =====
-- A reader for the texts of the serialiser of money.
use Prim.Native.Char.{code}
use chekin_interview.Base.{
  ℕ, zero, suc, ◌+◌, ◌-◌, ◌*◌, ◌/◌, ◌%◌, ◌<◌, String, ◌≡◌, refl, ◌∙◌, ap, arith, leb, ==_ne,
  if◌then◌else◌, ◌==◌, Option, none, some, ◌&&◌,
}
use chekin_interview.Base.Int.{ℤ, pos, negsuc}
use chekin_interview.Schemas.Money.{digit, digits, whole, places, unsigned_text, money_text}

-- A reader of amounts: exactly `n` digits and no more text, after `acc`.
abbrev pub read_places : ℕ → ℕ → String → Option ℕ
read_places zero acc String.[] = some acc
read_places zero acc (String.◌∷◌ ch s) = none
read_places (suc n) acc String.[] = none
read_places (suc n) acc (String.◌∷◌ ch s) =
    let rest = read_places n (acc * 10 + (code ch - 48)) s in
    if leb 48 (code ch) && leb (code ch) 57 then rest else none

-- Digits up to a point, after `acc`, and four places behind it.
abbrev pub read_whole : ℕ → String → Option ℕ
read_whole acc String.[] = none
read_whole acc (String.◌∷◌ ch s) =
    let rest = read_whole (acc * 10 + (code ch - 48)) s in
    if leb 48 (code ch) && leb (code ch) 57
    then rest
    else if code ch == 46
    then read_places 4 acc s
    else none

abbrev negative : ℕ → ℤ
negative zero = pos 0
negative (suc n) = negsuc n

abbrev signed : (ℕ → ℤ) → Option ℕ → Option ℤ
signed sign none = none
signed sign (some n) = some (sign n)

-- A minus, and an amount behind it.
abbrev read_minus : String → Option ℤ
read_minus String.[] = none
read_minus (String.◌∷◌ ch s) =
    let read = signed negative (read_whole 0 s) in if code ch == 45 then read else none

abbrev pub first_of : Option ℤ → Option ℤ → Option ℤ
first_of (some v) o = some v
first_of none o = o

-- The amount of a text: a minus or none, digits, a point and four digits, and nothing else.
abbrev pub read_money : String → Option ℤ
read_money s = first_of (signed pos (read_whole 0 s)) (read_minus s)

read_places-digit :
    (k acc n : ℕ) (s : String)
    → n < 10
    → read_places (suc k) acc (String.◌∷◌ (digit n) s) ≡ read_places k (acc * 10 + n) s
unfolding digit
read_places-digit k acc zero s h = refl
read_places-digit k acc (suc zero) s h = refl
read_places-digit k acc (suc (suc zero)) s h = refl
read_places-digit k acc (suc (suc (suc zero))) s h = refl
read_places-digit k acc (suc (suc (suc (suc zero)))) s h = refl
read_places-digit k acc (suc (suc (suc (suc (suc zero))))) s h = refl
read_places-digit k acc (suc (suc (suc (suc (suc (suc zero)))))) s h = refl
read_places-digit k acc (suc (suc (suc (suc (suc (suc (suc zero))))))) s h = refl
read_places-digit k acc (suc (suc (suc (suc (suc (suc (suc (suc zero)))))))) s h = refl
read_places-digit k acc (suc (suc (suc (suc (suc (suc (suc (suc (suc zero))))))))) s h = refl
read_places-digit k acc (suc (suc (suc (suc (suc (suc (suc (suc (suc (suc n)))))))))) s h =
    absurd (omega (arith, h))

read_whole-digit :
    (acc n : ℕ) (s : String)
    → n < 10
    → read_whole acc (String.◌∷◌ (digit n) s) ≡ read_whole (acc * 10 + n) s
unfolding digit
read_whole-digit acc zero s h = refl
read_whole-digit acc (suc zero) s h = refl
read_whole-digit acc (suc (suc zero)) s h = refl
read_whole-digit acc (suc (suc (suc zero))) s h = refl
read_whole-digit acc (suc (suc (suc (suc zero)))) s h = refl
read_whole-digit acc (suc (suc (suc (suc (suc zero))))) s h = refl
read_whole-digit acc (suc (suc (suc (suc (suc (suc zero)))))) s h = refl
read_whole-digit acc (suc (suc (suc (suc (suc (suc (suc zero))))))) s h = refl
read_whole-digit acc (suc (suc (suc (suc (suc (suc (suc (suc zero)))))))) s h = refl
read_whole-digit acc (suc (suc (suc (suc (suc (suc (suc (suc (suc zero))))))))) s h = refl
read_whole-digit acc (suc (suc (suc (suc (suc (suc (suc (suc (suc (suc n)))))))))) s h =
    absurd (omega (arith, h))

read_whole-digits :
    (fuel n : ℕ) (rest : String) → n < fuel → read_whole 0 (digits fuel n rest) ≡ read_whole n rest
unfolding digits
read_whole-digits zero n rest h = absurd (omega (arith, h))
read_whole-digits (suc fuel) zero rest h = refl
read_whole-digits (suc fuel) (suc n) rest h =
    rw (==_ne {i = suc n} {j = 0} (λ p. omega (arith, p))) (
      read_whole-digits fuel (suc n / 10) (String.◌∷◌ (digit (suc n % 10)) rest) (omega (arith, h))
      ∙ read_whole-digit (suc n / 10) (suc n % 10) rest (omega arith)
      ∙ ap (λ m. read_whole m rest) (omega arith))

whole-suc : (n : ℕ) (rest : String) → whole (suc n) rest ≡ digits (suc (suc n)) (suc n) rest
unfolding whole
whole-suc n rest = rw (==_ne {i = suc n} {j = 0} (λ p. omega (arith, p))) refl

read_whole-whole : (n : ℕ) (rest : String) → read_whole 0 (whole n rest) ≡ read_whole n rest
unfolding whole
read_whole-whole zero rest = refl
read_whole-whole (suc n) rest =
    ap (read_whole 0) (whole-suc n rest)
    ∙ read_whole-digits (suc (suc n)) (suc n) rest (omega arith)

read_places-places : (acc n : ℕ) → n < 10000 → read_places 4 acc (places n) ≡ some (acc * 10000 + n)
unfolding places
read_places-places acc n h =
    let units : String = String.◌∷◌ (digit (n % 10)) String.[] in
    let tens : String = String.◌∷◌ (digit (n / 10 % 10)) units in
    let hundreds : String = String.◌∷◌ (digit (n / 100 % 10)) tens in
    read_places-digit 3 acc (n / 1000 % 10) hundreds (omega arith)
    ∙ read_places-digit 2 (acc * 10 + n / 1000 % 10) (n / 100 % 10) tens (omega arith)
    ∙ read_places-digit 1 ((acc * 10 + n / 1000 % 10) * 10 + n / 100 % 10) (n / 10 % 10) units
        (omega arith)
    ∙ read_places-digit 0 (((acc * 10 + n / 1000 % 10) * 10 + n / 100 % 10) * 10 + n / 10 % 10)
        (n % 10) String.[] (omega arith)
    ∙ ap some (omega (arith, h))

read_whole-unsigned_text : (n : ℕ) → read_whole 0 (unsigned_text n) ≡ some n
unfolding unsigned_text
read_whole-unsigned_text n =
    read_whole-whole (n / 10000) (String.◌∷◌ "." (places (n % 10000)))
    ∙ read_places-places (n / 10000) (n % 10000) (omega arith)
    ∙ ap some (omega arith)

pub read_money-money_text : (v : ℤ) → read_money (money_text v) ≡ some v
unfolding money_text
read_money-money_text (pos n) = rw (read_whole-unsigned_text n) refl
read_money-money_text (negsuc n) = rw (read_whole-unsigned_text (suc n)) refl
