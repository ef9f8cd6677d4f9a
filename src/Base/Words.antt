-- ===== src/Base/Words.antt =====
-- Cutting and reading words: `strings.Cut`, `strings.Fields`, `strings.TrimSuffix`, and the unsigned
-- numbers of strconv.
use Prim.Native.Nat.{ℕ, ◌+◌, ◌-◌, ◌*◌, ◌^◌}
use mathlib.Core.Bool.{Bool, false, not, ◌&&◌, ◌||◌}
use mathlib.Core.Option.{Option, none, some}
use mathlib.Core.List.{List, [], ◌∷◌, map}
use cpa_monitor.Base.Tests.{ltb, leb, ◌==◌, if◌then◌else◌}
use cpa_monitor.Base.Lists.{length, drop}
use cpa_monitor.Base.Strings.{starts_with, Text, is_space, onto_head, text_eq, lower_ascii}
use cpa_monitor.Base.Int.{ℤ, pos, sub_ℕ}

-- `strings.Cut(s, c)` at one character: what stands before its first occurrence, and after it.
unfoldable pub cut : ℕ → Text → Option (Text × Text)
cut c [] = none
cut c (x ∷ s) =
    let rest = cut c s in
    if x == c
    then some ([], s)
    else elim rest [ none ↦ none | some (before, after) ↦ some (x ∷ before, after) ]

-- The text goes on with a character that is not white space.
unfoldable pub goes_on_visibly : Text → Bool
goes_on_visibly [] = false
goes_on_visibly (c ∷ s) = not (is_space c)

-- `strings.Fields`.
unfoldable pub fields : Text → List Text
unfolding goes_on_visibly
fields [] = []
fields (c ∷ s) =
    let rest = fields s in
    if is_space c then rest else if goes_on_visibly s then onto_head c rest else (c ∷ []) ∷ rest

-- The text without its last character, if that is `c`: `strings.TrimSuffix`.
unfoldable pub trim_suffix : ℕ → Text → Text
trim_suffix c [] = []
trim_suffix c (x ∷ []) = if x == c then [] else x ∷ []
trim_suffix c (x ∷ y ∷ s) = x ∷ trim_suffix c (y ∷ s)

-- The value of a digit, in base 10 or 16.
unfoldable pub digit : ℕ → ℕ → Option ℕ
digit base c =
    let value =
      if leb b'0' c && leb c b'9'
      then c - 48
      else if leb b'a' c && leb c b'z'
      then c - 87
      else if leb b'A' c && leb c b'Z'
      then c - 55
      else base in
    if ltb value base then some value else none

unfoldable pub digits_value : ℕ → Text → ℕ → Option ℕ
digits_value base [] n = some n
digits_value base (c ∷ s) n = elim (digit base c) [
  | none ↦ none
  | some d ↦ digits_value base s (n * base + d)
]

-- `strconv.ParseUint(s, base, bits)`, without the kind of its error.
unfoldable pub parse_uint : ℕ → ℕ → Text → Option ℕ
parse_uint base bits [] = none
parse_uint base bits (c ∷ s) = elim (digits_value base (c ∷ s) 0) [
  | none ↦ none
  | some n ↦ if ltb n (2 ^ bits) then some n else none
]

-- `strconv.Atoi`, without the kind of its error: an int64.
unfoldable pub atoi : Text → Option ℤ
atoi [] = none
atoi (c ∷ s) =
    if c == b'-'
    then (elim (parse_uint 10 64 s) [
      | none ↦ none
      | some n ↦ if ltb (2 ^ 63) n then none else some (sub_ℕ 0 n)
    ])
    else (elim (parse_uint 10 63 (if c == b'+' then s else c ∷ s)) [
      | none ↦ none
      | some n ↦ some (pos n)
    ])

-- What stands before the last occurrence of a character, and after it.
unfoldable pub cut_last : ℕ → Text → Option (Text × Text)
cut_last c [] = none
cut_last c (x ∷ s) = elim (cut_last c s) [
  | some (before, after) ↦ some (x ∷ before, after)
  | none ↦ if x == c then some ([], s) else none
]

-- `strings.Count(s, c)` of one character, and `strings.ContainsAny(s, cs)`.
unfoldable pub count_char : ℕ → Text → ℕ
count_char c [] = 0
count_char c (x ∷ s) = (if x == c then 1 else 0) + count_char c s

unfoldable pub char_mem : ℕ → Text → Bool
char_mem c [] = false
char_mem c (x ∷ s) = (x == c) || char_mem c s

unfoldable pub contains_any_char : Text → Text → Bool
contains_any_char [] cs = false
contains_any_char (x ∷ s) cs = char_mem x cs || contains_any_char s cs

-- `unicode.IsControl`.
unfoldable pub is_control : ℕ → Bool
is_control c = ltb c 32 || (leb 127 c && leb c 159)

-- The ASCII letter that a character folds to, in lower case; U+017F and U+212A fold to s and k.
unfoldable pub fold_rune : ℕ → ℕ
unfolding lower_ascii
fold_rune c = if c == 0x17F then b's' else if c == 0x212A then b'k' else lower_ascii c

-- `strings.EqualFold(s, word)`, for a lower-case ASCII word.
unfoldable pub equal_fold_ascii : Text → Text → Bool
unfolding fold_rune
equal_fold_ascii s word = text_eq (map fold_rune s) word

-- `strings.TrimSuffix` and `strings.TrimPrefix`.
unfoldable pub without_suffix : Text → Text → Text
without_suffix suffix [] = []
without_suffix suffix (c ∷ s) =
    let rest = without_suffix suffix s in if text_eq (c ∷ s) suffix then [] else c ∷ rest

unfoldable pub without_prefix : Text → Text → Text
without_prefix prefix s = if starts_with s prefix then drop (length prefix) s else s
