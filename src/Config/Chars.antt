-- ===== src/Config/Chars.antt =====
-- Texts of C as lists of bytes without the closing NUL, and what parse_conf.c uses of the C library on
-- them: strchr, strstr, strcmp, strncpy, strtok_r, atol and atoi.
use Prim.Native.Char.{code}
use Prim.Native.String.{String}
use curl_loader.Base.{
  ℕ, zero, suc, ◌+◌, ◌-◌, ◌*◌, ◌%◌, ◌^◌, Bool, true, false, ◌&&◌, ◌||◌, Option, none, some, List,
  [], ◌∷◌, ltb, leb, ◌==◌, if◌then◌else◌, min,
}

abbrev pub Text : Type 0
Text = List ℕ

-- The bytes of an ASCII literal.
abbrev pub bytes : String → Text
bytes String.[] = []
bytes (String.◌∷◌ c s) = code c ∷ bytes s

-- `negsuc n` is -(n + 1).
pub data ℤ : Type 0 where
  pos negsuc : ℕ → ℤ

abbrev pub is_negative : ℤ → Bool
is_negative (pos n) = false
is_negative (negsuc n) = true

abbrev pub long_max : ℕ
long_max = 2 ^ 63 - 1

-- The residue of a number in two's complement, and the number of a residue.
abbrev pub word : ℕ → ℤ → ℕ
word w (pos n) = n % 2 ^ w
word w (negsuc n) = 2 ^ w - 1 - n % 2 ^ w

abbrev pub signed : ℕ → ℕ → ℤ
signed w m = if ltb m (2 ^ (w - 1)) then pos m else negsuc (2 ^ w - 1 - m)

-- The conversion of a long to an int.
abbrev pub to_int : ℤ → ℤ
to_int n = signed 32 (word 32 n)

unfoldable pub is_digit : ℕ → Bool
is_digit c = leb b'0' c && leb c b'9'

unfoldable pub is_space : ℕ → Bool
is_space c = c == b' ' || leb 9 c && leb c 13

unfoldable pub digits : ℕ → Text → ℕ
unfolding is_digit
digits acc [] = acc
digits acc (c ∷ cs) =
    let rest = digits (acc * 10 + (c - b'0')) cs in if is_digit c then rest else acc

-- The value of a sign and digits, clamped to the range of a long.
unfoldable pub sign_digits : Text → ℤ
unfolding digits
sign_digits [] = pos 0
sign_digits (c ∷ cs) =
    let down = min (digits 0 cs) (2 ^ 63) in
    if c == b'-'
    then (if down == 0 then pos 0 else negsuc (down - 1))
    else pos (min (if c == b'+' then digits 0 cs else digits 0 (c ∷ cs)) long_max)

unfoldable pub atol : Text → ℤ
unfolding is_space sign_digits
atol [] = pos 0
atol (c ∷ cs) = let rest = atol cs in if is_space c then rest else sign_digits (c ∷ cs)

unfoldable pub atoi : Text → ℤ
unfolding atol
atoi s = to_int (atol s)

-- strcmp (s, t) == 0
unfoldable pub same_text : Text → Text → Bool
same_text [] [] = true
same_text (c ∷ s) (d ∷ t) = let rest = same_text s t in if c == d then rest else false
same_text _ _ = false

-- strchr (s, c) != NULL
unfoldable pub has_char : ℕ → Text → Bool
has_char c [] = false
has_char c (d ∷ s) = c == d || has_char c s

-- The text before the first `c`, and what follows it.
unfoldable pub split_at : ℕ → Text → Text × Option Text
split_at c [] = ([], none)
split_at c (d ∷ s) =
    let (before, after) = split_at c s in if d == c then ([], some s) else (d ∷ before, after)

unfoldable pub is_prefix : Text → Text → Bool
is_prefix [] s = true
is_prefix (c ∷ p) [] = false
is_prefix (c ∷ p) (d ∷ s) = c == d && is_prefix p s

-- strstr (s, p) != NULL
unfoldable pub has_text : Text → Text → Bool
unfolding is_prefix
has_text p [] = is_prefix p []
has_text p (c ∷ s) = is_prefix p (c ∷ s) || has_text p s

-- The number of places where `p` stands in the text, which is not empty there.
unfoldable pub count_text : Text → Text → ℕ
unfolding is_prefix
count_text p [] = 0
count_text p (c ∷ s) = (if is_prefix p (c ∷ s) then 1 else 0) + count_text p s

-- strncpy with this many bytes into an array that is longer
abbrev pub take : ℕ → Text → Text
take zero s = []
take (suc n) [] = []
take (suc n) (c ∷ s) = c ∷ take n s

-- The first token, which may be empty here, and the tokens that are not empty behind it.
unfoldable pub tokens_from : ℕ → Text → Text × List Text
tokens_from sep [] = ([], [])
tokens_from sep (c ∷ s) =
    let (token, rest) = tokens_from sep s in
    if c == sep then ([], elim token [ [] ↦ rest | d ∷ t ↦ (d ∷ t) ∷ rest ]) else (c ∷ token, rest)

-- The tokens of strtok_r.
unfoldable pub strtok : ℕ → Text → List Text
unfolding tokens_from
strtok sep s =
    let (token, rest) = tokens_from sep s in elim token [ [] ↦ rest | d ∷ t ↦ (d ∷ t) ∷ rest ]
