-- ===== src/Idempotency/Key.antt =====
-- `require_key` of app/services/idempotency.py: the Idempotency-Key header at the boundary.
pub mod Trimmed
use Prim.Native.Char.{Char, code}
use chekin_interview.Base.{
  ℕ, String, Bool, ◌&&◌, ◌||◌, Option, none, some, ltb, leb, ◌==◌, str_eq, if◌then◌else◌,
}
use chekin_interview.Base.Text.{text_length}
use chekin_interview.Json.{num, end, field}
use chekin_interview.Errors.{Exn, ledger, missing_idempotency_key, invalid_idempotency_key}
use chekin_interview.Database.Exec.{Result, ok, raise}

abbrev pub max_key_length : ℕ
max_key_length = 255

-- The characters that `str.strip()` removes: Unicode's white space.
unfoldable pub is_space : Char → Bool
is_space ch =
    let c = code ch in
    (leb 9 c && leb c 13)
    || ((leb 28 c && leb c 32)
        || (c == 0x85
            || (c == 0xa0
                || (c == 0x1680
                    || ((leb 0x2000 c && leb c 0x200a)
                        || (c == 0x2028
                            || (c == 0x2029 || (c == 0x202f || (c == 0x205f || c == 0x3000)))))))))

unfoldable pub strip_left : String → String
strip_left String.[] = String.[]
strip_left (String.◌∷◌ c s) = let rest = strip_left s in if is_space c then rest else String.◌∷◌ c s

-- `c` before a text whose own right end is stripped.
unfoldable pub put_back : Char → String → String
put_back c String.[] = if is_space c then String.[] else String.◌∷◌ c String.[]
put_back c (String.◌∷◌ d s) = String.◌∷◌ c (String.◌∷◌ d s)

unfoldable pub strip_right : String → String
strip_right String.[] = String.[]
strip_right (String.◌∷◌ c s) = put_back c (strip_right s)

-- `str.strip`
unfoldable pub strip : String → String
unfolding strip_left strip_right put_back is_space
strip s = strip_right (strip_left s)

abbrev pub missing_key : Exn
missing_key = ledger (record {
  kind = missing_idempotency_key;
  message = "The Idempotency-Key header is required.";
  details = end;
})

abbrev pub key_too_long : ℕ → Exn
key_too_long n = ledger (record {
  kind = invalid_idempotency_key;
  message = "The Idempotency-Key header must be at most 255 characters.";
  details = field "length" (num n) (field "max_length" (num max_key_length) end);
})

-- `require_key`
unfoldable pub require_key : Option String → Result String
unfolding strip
require_key none = raise missing_key
require_key (some raw) =
    if str_eq raw "" || str_eq (strip raw) ""
    then raise missing_key
    else let key = strip raw in
      if ltb max_key_length (text_length key)
      then raise (key_too_long (text_length key))
      else ok key
