-- ===== src/Web/Query.antt =====
-- src/web_status.c: reading the request line, `parse_segment_path` and the two query readers.
pub mod Scan
use Prim.Native.Char.{code}
use Prim.Native.String.{String}
use chrontabulator.Base.{
  ℕ, zero, suc, ◌+◌, ◌-◌, ◌%◌, ◌^◌, ◌≤◌, Bool, true, false, not, ◌&&◌, ◌||◌, Option, none, some,
  List, [], ◌∷◌, ltb, leb, ◌==◌, if◌then◌else◌, length, arith,
}
use chrontabulator.Wire.Address.{Text}

-- The bytes of a string literal.
abbrev pub codes : String → Text
codes String.[] = []
codes (String.◌∷◌ c s) = code c ∷ codes s

-- `strncmp(s, prefix, strlen(prefix)) == 0`
unfoldable pub has_prefix : Text → Text → Bool
has_prefix [] s = true
has_prefix (c ∷ prefix) [] = false
has_prefix (c ∷ prefix) (d ∷ s) = c == d && has_prefix prefix s

-- `s + n`, within the text.
unfoldable pub drop : ℕ → Text → Text
drop zero s = s
drop (suc n) [] = []
drop (suc n) (c ∷ s) = drop n s

-- `strchr(s, c)`, and the text after what it found.
unfoldable pub after_char : ℕ → Text → Option Text
after_char c [] = none
after_char c (d ∷ s) = if d == c then some s else after_char c s

-- The text up to a character that `ends` it.
unfoldable pub before : (ℕ → Bool) → Text → Text
before ends [] = []
before ends (c ∷ s) = if ends c then [] else c ∷ before ends s

unfoldable pub take : ℕ → Text → Text
take zero s = []
take (suc n) [] = []
take (suc n) (c ∷ s) = c ∷ take n s

pub length-take : (n : ℕ) (s : Text) → length (take n s) ≤ n
unfolding take
length-take zero s = omega arith
length-take (suc n) [] = omega arith
length-take (suc n) (c ∷ s) = omega (arith, length-take n s)

-- Where a query ends: the end of the text, or a space.
abbrev pub at_end : Text → Bool
at_end [] = true
at_end (c ∷ s) = c == b' '

abbrev pub starts_with_digit : Text → Bool
starts_with_digit [] = false
starts_with_digit (c ∷ s) = leb b'0' c && leb c b'9'

-- `strncmp(q, key, key_len) == 0 && q[key_len] == '='`
unfoldable pub is_key : Text → Text → Bool
is_key key q = has_prefix key q && has_prefix (b'=' ∷ []) (drop (length key) q)

abbrev ends_value : ℕ → Bool
ends_value c = c == b'&' || c == b' '

-- What is left of the query after this pair; none, when it was the last.
abbrev pub next_pair : Text → Option Text
next_pair q = after_char b'&' q

module _ (strtoul : Text → ℕ × Text) where
  unfoldable pub parse_segment_path : Text → Text → Option (ℕ × Text)
  parse_segment_path line method_prefix =
      if not (has_prefix method_prefix line)
      then none
      else (let p = drop (length method_prefix) line in
          if not (starts_with_digit p) then none else some ((strtoul p).0 % 2 ^ 32, (strtoul p).1))

module _ (strtoull : Text → ℕ × Text) where
  -- The number given with the key at `q`, if a number is.
  unfoldable pub number_at : Text → Text → Option ℕ
  number_at key q =
      let value = drop (suc (length key)) q in
      if is_key key q && not (length (strtoull value).1 == length value)
      then some (strtoull value).0
      else none

  -- The loop of `query_get_uint`, on fuel.
  unfoldable pub uint_scan : ℕ → Text → Text → Option ℕ
  uint_scan zero key q = none
  uint_scan (suc fuel) key q = if at_end q then none else (elim (number_at key q) [
    | some v ↦ some v
    | none ↦ elim (next_pair q) [ none ↦ none | some r ↦ uint_scan fuel key r ]
  ])

  -- Every round goes on behind a character of the text.
  unfoldable pub query_get_uint : Text → Text → Option ℕ
  query_get_uint rest key = elim (after_char b'?' rest) [
    | none ↦ none
    | some q ↦ uint_scan (length q) key q
  ]

-- The loop of `query_get_str`, on fuel; `size` is that of the buffer.
unfoldable pub str_scan : ℕ → Text → ℕ → Text → Option Text
str_scan zero key size q = none
str_scan (suc fuel) key size q =
    if at_end q
    then none
    else if is_key key q
    then some (take (size - 1) (before ends_value (drop (suc (length key)) q)))
    else elim (next_pair q) [ none ↦ none | some r ↦ str_scan fuel key size r ]

unfoldable pub query_get_str : Text → Text → ℕ → Option Text
query_get_str rest key size = elim (after_char b'?' rest) [
  | none ↦ none
  | some q ↦ str_scan (length q) key size q
]
