-- ===== src/Text.antt =====
-- The operations on `str` that the gateway's parsers call. A text is the list of its code points.
use Prim.Native.Char.{code}
use Prim.Native.String.{String}
use chronus_gateway.Prelude.{
  ℕ, ◌+◌, ◌-◌, ◌*◌, Bool, true, false, ◌&&◌, ◌||◌, Option, none, some, List, [], ◌∷◌, ◌++◌, ltb,
  leb, ◌==◌, if◌then◌else◌, and_then,
}
use chronus_gateway.Integers.{ℤ, pos, negsuc}

abbrev pub Text : Type 0
Text = List ℕ

abbrev pub codes : String → Text
codes String.[] = []
codes (String.◌∷◌ c s) = code c ∷ codes s

-- `str::len`: the octets of the text in UTF-8.
abbrev pub byte_len : Text → ℕ
byte_len [] = 0
byte_len (c ∷ s) =
    (if ltb c 0x80 then 1 else if ltb c 0x800 then 2 else if ltb c 0x10000 then 3 else 4)
    + byte_len s

-- `==` on `str`.
abbrev pub text_eq : Text → Text → Bool
text_eq [] [] = true
text_eq [] (_ ∷ _) = false
text_eq (_ ∷ _) [] = false
text_eq (a ∷ s) (b ∷ t) = a == b && text_eq s t

abbrev pub between : (low high c : ℕ) → Bool
between low high c = leb low c && leb c high

-- `char::is_whitespace`.
abbrev pub is_whitespace : ℕ → Bool
is_whitespace c =
    between 9 13 c
    || c == 32
    || c == 0x85
    || c == 0xA0
    || c == 0x1680
    || between 0x2000 0x200A c
    || between 0x2028 0x2029 c
    || c == 0x202F
    || c == 0x205F
    || c == 0x3000

abbrev pub is_blank : Text → Bool
is_blank [] = true
is_blank (_ ∷ _) = false

abbrev pub trim_start : Text → Text
trim_start [] = []
trim_start (c ∷ s) = if is_whitespace c then trim_start s else c ∷ s

abbrev pub trim_end : Text → Text
trim_end [] = []
trim_end (c ∷ s) =
    let rest = trim_end s in if is_blank rest && is_whitespace c then [] else c ∷ rest

abbrev pub trim : Text → Text
trim s = trim_end (trim_start s)

-- `trim_end_matches(c)`.
abbrev pub trim_end_char : ℕ → Text → Text
trim_end_char d [] = []
trim_end_char d (c ∷ s) =
    let rest = trim_end_char d s in if is_blank rest && c == d then [] else c ∷ rest

abbrev pub starts_with : (prefix s : Text) → Bool
starts_with [] s = true
starts_with (_ ∷ _) [] = false
starts_with (a ∷ p) (b ∷ s) = a == b && starts_with p s

abbrev pub split_once : ℕ → Text → Option (Text × Text)
split_once d [] = none
split_once d (c ∷ s) =
    if c == d
    then some ([], s)
    else elim (split_once d s) [ none ↦ none | some (k, v) ↦ some (c ∷ k, v) ]

-- `split_whitespace`, behind the letters `word` of a word that has begun.
abbrev pub words_after : (word s : Text) → List Text
words_after word [] = if is_blank word then [] else word ∷ []
words_after word (c ∷ s) =
    let next = words_after [] s in
    let more = words_after (word ++ c ∷ []) s in
    if is_whitespace c then if is_blank word then next else word ∷ next else more

abbrev pub split_whitespace : Text → List Text
split_whitespace s = words_after [] s

-- The end of a line that a line feed ends: a carriage return before it is taken off.
abbrev pub chomp : Text → Text
chomp [] = []
chomp (c ∷ s) = let rest = chomp s in if is_blank s && c == 13 then [] else c ∷ rest

-- `lines`, behind the letters `line` of a line that has begun.
abbrev pub lines_after : (line s : Text) → List Text
lines_after line [] = if is_blank line then [] else line ∷ []
lines_after line (c ∷ s) =
    let next = lines_after [] s in
    let more = lines_after (line ++ c ∷ []) s in if c == 10 then chomp line ∷ next else more

abbrev pub lines : Text → List Text
lines s = lines_after [] s

abbrev pub is_ascii_uppercase : ℕ → Bool
is_ascii_uppercase c = between 65 90 c

abbrev pub is_ascii_digit : ℕ → Bool
is_ascii_digit c = between 48 57 c

abbrev pub to_ascii_uppercase : Text → Text
to_ascii_uppercase [] = []
to_ascii_uppercase (c ∷ s) = (if between 97 122 c then c - 32 else c) ∷ to_ascii_uppercase s

abbrev pub eq_ignore_ascii_case : Text → Text → Bool
eq_ignore_ascii_case s t = text_eq (to_ascii_uppercase s) (to_ascii_uppercase t)

abbrev pub all_chars : (ℕ → Bool) → Text → Bool
all_chars test [] = true
all_chars test (c ∷ s) = test c && all_chars test s

-- The digits behind the number `n`, below `limit`.
abbrev pub digits : (limit n : ℕ) → Text → Option ℕ
digits limit n [] = some n
digits limit n (c ∷ s) =
    let m = n * 10 + (c - 48) in
    let rest = digits limit m s in if is_ascii_digit c && ltb m limit then rest else none

-- `str::parse` to an unsigned integer below `limit`.
abbrev pub parse_unsigned : ℕ → Text → Option ℕ
parse_unsigned limit [] = none
parse_unsigned limit (c ∷ s) =
    if c == 43 then if is_blank s then none else digits limit 0 s else digits limit 0 (c ∷ s)

abbrev pub negated : ℕ → ℤ
negated n = if n == 0 then pos 0 else negsuc (n - 1)

-- `str::parse` to a signed integer below `limit` and not below its opposite.
abbrev pub parse_signed : (limit : ℕ) → Text → Option ℤ
parse_signed limit [] = none
parse_signed limit (c ∷ s) =
    if c == 45
    then if is_blank s then none else and_then (digits (limit + 1) 0 s) (λ n. some (negated n))
    else and_then (parse_unsigned limit (c ∷ s)) (λ n. some (pos n))

abbrev pub hex_value : ℕ → Option ℕ
hex_value c =
    if is_ascii_digit c
    then some (c - 48)
    else if between 65 70 c
    then some (c - 55)
    else if between 97 102 c
    then some (c - 87)
    else none

abbrev pub hex_digits : (limit n : ℕ) → Text → Option ℕ
hex_digits limit n [] = some n
hex_digits limit n (c ∷ s) =
    and_then (hex_value c)
      (λ v. if ltb (n * 16 + v) limit then hex_digits limit (n * 16 + v) s else none)

-- `from_str_radix(s, 16)` to an unsigned integer below `limit`.
abbrev pub parse_hex : (limit : ℕ) → Text → Option ℕ
parse_hex limit [] = none
parse_hex limit (c ∷ s) =
    if c == 43
    then if is_blank s then none else hex_digits limit 0 s
    else hex_digits limit 0 (c ∷ s)

abbrev pub strip_prefix : (prefix s : Text) → Option Text
strip_prefix [] s = some s
strip_prefix (_ ∷ _) [] = none
strip_prefix (a ∷ p) (b ∷ s) = if a == b then strip_prefix p s else none
