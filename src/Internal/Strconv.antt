-- ===== src/Internal/Strconv.antt =====
-- Go's strconv: `Atoi`, and `Itoa` on numbers that are not negative. An int is its bit pattern of
-- 64 bits; `none` is an error, of the syntax or of the range.
pub mod RoundTrip
use Prim.Native.Char.{Char, code}
use tiny_file_watcher.Prelude.{
  ℕ, zero, suc, ◌+◌, ◌-◌, ◌*◌, ◌/◌, ◌%◌, ◌^◌, String, Bool, ◌&&◌, Option, none, some, nat_eq, leb,
  ltb, if◌then◌else◌,
}

-- the character of a digit
unfoldable pub digit : ℕ → Char
digit zero = "0"
digit (suc zero) = "1"
digit (suc (suc zero)) = "2"
digit (suc (suc (suc zero))) = "3"
digit (suc (suc (suc (suc zero)))) = "4"
digit (suc (suc (suc (suc (suc zero))))) = "5"
digit (suc (suc (suc (suc (suc (suc zero)))))) = "6"
digit (suc (suc (suc (suc (suc (suc (suc zero))))))) = "7"
digit (suc (suc (suc (suc (suc (suc (suc (suc zero)))))))) = "8"
digit (suc (suc (suc (suc (suc (suc (suc (suc (suc n))))))))) = "9"

-- the digits of a number before a text; each round takes the last one off
unfoldable pub emit : ℕ → ℕ → String → String
emit zero n out = String.◌∷◌ (digit n) out
emit (suc fuel) n out =
    let rest = emit fuel (n / 10) (String.◌∷◌ (digit (n % 10)) out) in
    if ltb n 10 then String.◌∷◌ (digit n) out else rest

-- as many rounds as the number itself are enough
unfoldable pub itoa : ℕ → String
unfolding emit digit
itoa n = emit n n ""

abbrev is_digit : ℕ → Bool
is_digit c = leb b'0' c && leb c b'9'

-- the number that digits stand for, after those that make up `n`
unfoldable pub scan : ℕ → String → Option ℕ
scan n String.[] = some n
scan n (String.◌∷◌ c s) =
    let rest = scan (n * 10 + (code c - b'0')) s in if is_digit (code c) then rest else none

unfoldable pub unsigned : String → Option ℕ
unfolding scan
unsigned String.[] = none
unsigned (String.◌∷◌ c s) = scan 0 (String.◌∷◌ c s)

abbrev pub not_negative : Option ℕ → Option ℕ
not_negative none = none
not_negative (some n) = if ltb n (2 ^ 63) then some n else none

abbrev negated : Option ℕ → Option ℕ
negated none = none
negated (some n) = if leb n (2 ^ 63) then some ((2 ^ 64 - n) % 2 ^ 64) else none

unfoldable pub atoi : String → Option ℕ
unfolding unsigned
atoi String.[] = none
atoi (String.◌∷◌ c s) =
    if nat_eq (code c) b'-'
    then negated (unsigned s)
    else if nat_eq (code c) b'+'
    then not_negative (unsigned s)
    else not_negative (unsigned (String.◌∷◌ c s))
