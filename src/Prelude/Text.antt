-- ===== src/Prelude/Text.antt =====
-- Python's text operations that the program calls, over ASCII whitespace and letters.
use Prim.Native.Char.{Char, code, nul}
use Prim.Native.String.{◌++◌}
use contract_management.Prelude.{
  ℕ, zero, suc, ◌-◌, ◌/◌, ◌%◌, String, ◌≡◌, refl, Bool, true, false, not, ◌&&◌, ◌||◌, arith, str_eq,
  nat_eq, leb, ltb, if◌then◌else◌,
}

-- The truth value of a text, `None` being read as the empty text.
abbrev pub truthy : String → Bool
truthy s = not (str_eq s "")

is_space : Char → Bool
is_space c = nat_eq (code c) 32 || (leb 9 (code c) && leb (code c) 13)

-- Without whitespace in front.
lstrip : String → String
unfolding is_space
lstrip String.[] = String.[]
lstrip (String.◌∷◌ c s) = if is_space c then lstrip s else String.◌∷◌ c s

-- Without whitespace at the end.
rstrip : String → String
unfolding is_space
rstrip String.[] = String.[]
rstrip (String.◌∷◌ c s) =
    let rest = rstrip s in if is_space c && str_eq rest "" then "" else String.◌∷◌ c rest

-- s.strip()
unfoldable pub strip : String → String
unfolding lstrip rstrip
strip s = rstrip (lstrip s)

-- The character at an index, or `c` past the end.
nth : Char → String → ℕ → Char
nth c String.[] n = c
nth c (String.◌∷◌ d s) zero = d
nth c (String.◌∷◌ d s) (suc n) = nth c s n

lower_char : Char → Char
unfolding nth
lower_char c =
    if leb 65 (code c) && leb (code c) 90
    then nth c "abcdefghijklmnopqrstuvwxyz" (code c - 65)
    else c

-- s.lower()
unfoldable pub lower : String → String
unfolding lower_char
lower String.[] = String.[]
lower (String.◌∷◌ c s) = String.◌∷◌ (lower_char c) (lower s)

-- "".join(s.split())
unfoldable pub remove_spaces : String → String
unfolding is_space
remove_spaces String.[] = String.[]
remove_spaces (String.◌∷◌ c s) =
    let rest = remove_spaces s in if is_space c then rest else String.◌∷◌ c rest

-- s.startswith(p)
unfoldable pub has_prefix : String → String → Bool
has_prefix String.[] s = true
has_prefix (String.◌∷◌ c p) String.[] = false
has_prefix (String.◌∷◌ c p) (String.◌∷◌ d s) = nat_eq (code c) (code d) && has_prefix p s

-- p in s
unfoldable pub occurs_in : String → String → Bool
unfolding has_prefix
occurs_in p String.[] = str_eq p ""
occurs_in p (String.◌∷◌ d s) = has_prefix p (String.◌∷◌ d s) || occurs_in p s

digit : ℕ → String
unfolding nth
digit n = String.◌∷◌ (nth nul "0123456789" n) String.[]

-- The decimal digits of a number, with fuel for one digit each.
decimal_with : ℕ → ℕ → String
unfolding digit
decimal_with zero n = ""
decimal_with (suc fuel) n =
    let front = decimal_with fuel (n / 10) in if ltb n 10 then digit n else front ++ digit (n % 10)

-- str(n); a number has fewer digits than its value plus one.
unfoldable pub decimal : ℕ → String
unfolding decimal_with
decimal n = decimal_with (suc n) n

decimal_digits : decimal 307 ≡ "307"
unfolding decimal
decimal_digits = refl

strip_spaces : strip "  a b " ≡ "a b"
unfolding strip
strip_spaces = refl

lower_letters : lower "Ab-Z" ≡ "ab-z"
unfolding lower
lower_letters = refl

-- What is left starts with no whitespace, so stripping it again from the left changes nothing.
lstrip_idem : (s : String) → lstrip (lstrip s) ≡ lstrip s
unfolding lstrip
lstrip_idem String.[] = refl
lstrip_idem (String.◌∷◌ c s) = ground (arith, lstrip_idem s)
