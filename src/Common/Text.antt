-- ===== src/Common/Text.antt =====
-- `strings.TrimSpace` and `strconv.ParseUint(s, 10, 64)` of Go's standard library, as the code
-- uses them. A text is valid UTF-8, so its characters are code points.
use Prim.Native.Nat.{ℕ, zero, suc, ◌/◌, ◌%◌, ◌+◌, ◌*◌, ◌-◌, ◌^◌}
use Prim.Native.Char.{code}
use Prim.Native.String.{String, char_at, ◌++◌}
use mathlib.Core.Bool.{Bool, true, false, ◌&&◌, ◌||◌}
use mathlib.Core.Option.{Option, none, some}
use goph_keeper.Common.Tests.{ltb, leb, ◌==◌, if◌then◌else◌}

-- unicode.IsSpace
abbrev pub is_space : ℕ → Bool
is_space c =
    (leb 9 c && leb c 13)
    || c == 0x20
    || c == 0x85
    || c == 0xa0
    || c == 0x1680
    || (leb 0x2000 c && leb c 0x200a)
    || c == 0x2028
    || c == 0x2029
    || c == 0x202f
    || c == 0x205f
    || c == 0x3000

unfoldable pub trim_left : String → String
trim_left String.[] = String.[]
trim_left (String.◌∷◌ c s) = elim (is_space (code c)) [
  | true ↦ trim_left s
  | false ↦ String.◌∷◌ c s
]

-- one more character in front of a text that is trimmed on the right
abbrev cons_trimmed : Bool → String → String → String
cons_trimmed true String.[] whole = String.[]
cons_trimmed _ _ whole = whole

unfoldable pub trim_right : String → String
trim_right String.[] = String.[]
trim_right (String.◌∷◌ c s) =
    let rest = trim_right s in cons_trimmed (is_space (code c)) rest (String.◌∷◌ c rest)

unfoldable pub trim_space : String → String
unfolding trim_left trim_right
trim_space s = trim_right (trim_left s)

-- The digits of an unsigned decimal number; a value of 2^64 or more is out of range.
parse_digits : ℕ → String → Option ℕ
parse_digits n String.[] = some n
parse_digits n (String.◌∷◌ c s) =
    let d = code c in
    let m = n * 10 + (d - 48) in
    let rest = parse_digits m s in if leb 48 d && leb d 57 && ltb m (2 ^ 64) then rest else none

unfoldable pub parse_uint : String → Option ℕ
unfolding parse_digits
parse_uint String.[] = none
parse_uint (String.◌∷◌ c s) = parse_digits 0 (String.◌∷◌ c s)

-- the decimal digits of `n` in front of a text; a number below 2^64 has at most 20
abbrev format_digits : ℕ → ℕ → String → String
format_digits zero n s = s
format_digits (suc fuel) n s =
    let longer = format_digits fuel (n / 10) (String.◌∷◌ (char_at "0123456789" (n % 10)) s) in
    if n / 10 == 0 then String.◌∷◌ (char_at "0123456789" (n % 10)) s else longer

-- strconv.FormatUint(n, 10)
unfoldable pub format_uint : ℕ → String
format_uint n = format_digits 20 n String.[]

-- strings.ToLower of a character, where it is an ASCII one
abbrev pub lower : ℕ → ℕ
lower c = if leb 65 c && leb c 90 then c + 32 else c

-- What follows a prefix of small ASCII letters, in whatever case the text spells it. No other
-- character has one of the letters of `bearer` for its small letter.
unfoldable pub drop_prefix_fold : String → String → Option String
drop_prefix_fold String.[] s = some s
drop_prefix_fold (String.◌∷◌ c p) String.[] = none
drop_prefix_fold (String.◌∷◌ c p) (String.◌∷◌ d s) =
    let rest = drop_prefix_fold p s in if code c == lower (code d) then rest else none

-- s + t
abbrev pub concat : String → String → String
concat s t = s ++ t
