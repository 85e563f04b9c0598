-- ===== src/Robots/Octets.antt =====
-- orchestrator/robots_policy.py: `_normalize_octets`.
use thorondor.Prelude.{
  ℕ, ◌+◌, ◌-◌, ◌*◌, ◌/◌, ◌%◌, Bool, true, false, Option, none, some, List, [], ◌∷◌, ◌++◌, ◌&&◌,
  ◌||◌, leb, ltb, ◌==◌, if◌then◌else◌,
}

-- The characters beyond ASCII, as Python classifies them: the value of a decimal digit, and whether
-- it is white space.
pub record Unicode : Type 0 where
  pub decimal : ℕ → Option ℕ
  pub is_space : ℕ → Bool

abbrev pub between : ℕ → ℕ → ℕ → Bool
between lo hi c = leb lo c && leb c hi

-- `UNRESERVED`
abbrev pub is_unreserved : ℕ → Bool
is_unreserved c =
    between b'A' b'Z' c
    || between b'a' b'z' c
    || between b'0' b'9' c
    || c == b'-'
    || c == b'.'
    || c == b'_'
    || c == b'~'

-- The results of `int(token, 16)` on two characters: an error, a number, or a number below zero.
pub data Parsed : Type 0 where
  invalid negative : Parsed
  number : ℕ → Parsed

-- Two characters beside each other after which the number does not end: digits.
abbrev pub digits : Option ℕ → Option ℕ → Parsed
digits none b = invalid
digits (some a) none = invalid
digits (some a) (some b) = number (16 * a + b)

abbrev pub digit : Option ℕ → Parsed
digit none = invalid
digit (some b) = number b

-- `int("-0", 16)` is 0.
abbrev pub minus : Option ℕ → Parsed
minus none = invalid
minus (some b) = if b == 0 then number 0 else negative

abbrev pub upper_hex : ℕ → ℕ
upper_hex d = if ltb d 10 then d + b'0' else d - 10 + b'A'

-- "%{byte:02X}"
abbrev pub percent : ℕ → List ℕ
percent byte = b'%' ∷ upper_hex (byte / 16) ∷ upper_hex (byte % 16) ∷ []

-- `character.encode("utf-8")` of a character beyond ASCII.
unfoldable pub utf8 : ℕ → List ℕ
utf8 c =
    if ltb c 0x800
    then (0xC0 + c / 64) ∷ (0x80 + c % 64) ∷ []
    else if ltb c 0x10000
    then (0xE0 + c / 4096) ∷ (0x80 + c / 64 % 64) ∷ (0x80 + c % 64) ∷ []
    else (0xF0 + c / 262144) ∷ (0x80 + c / 4096 % 64) ∷ (0x80 + c / 64 % 64) ∷ (0x80 + c % 64) ∷ []

abbrev pub percent_all : List ℕ → List ℕ
percent_all [] = []
percent_all (byte ∷ rest) = percent byte ++ percent_all rest

-- One character that begins no octet; `encode` of a surrogate raises.
unfoldable pub plain : ℕ → Option (List ℕ)
unfolding utf8
plain c =
    if ltb 127 c
    then if between 0xD800 0xDFFF c then none else some (percent_all (utf8 c))
    else some (c ∷ [])

abbrev pub decoded : ℕ → List ℕ
decoded byte = if is_unreserved byte then byte ∷ [] else percent byte

abbrev pub prepend : List ℕ → Option (List ℕ) → Option (List ℕ)
prepend front none = none
prepend front (some rest) = some (front ++ rest)

abbrev pub prepend_plain : Option (List ℕ) → Option (List ℕ) → Option (List ℕ)
prepend_plain none rest = none
prepend_plain (some front) rest = prepend front rest

module _ (u : Unicode) where
  abbrev pub hex_digit : ℕ → Option ℕ
  hex_digit c =
      if between b'0' b'9' c
      then some (c - b'0')
      else if between b'a' b'f' c
      then some (c - b'a' + 10)
      else if between b'A' b'F' c
      then some (c - b'A' + 10)
      else if ltb c 128
      then none
      else u.decimal c

  -- In what `int` reads, the separators 28 to 31 are no white space, though `str.isspace` says so.
  abbrev pub is_space : ℕ → Bool
  is_space c = if ltb c 128 then between 9 13 c || c == 32 else u.is_space c

  -- `int` drops white space around the number, and takes a sign before it.
  unfoldable pub int16 : ℕ → ℕ → Parsed
  int16 a b =
      if is_space a
      then digit (hex_digit b)
      else if is_space b
      then digit (hex_digit a)
      else if a == b'+'
      then digit (hex_digit b)
      else if a == b'-'
      then minus (hex_digit b)
      else digits (hex_digit a) (hex_digit b)

  -- After a `%` with two characters behind it: the three are taken at once, or the `%` alone; `chr` of
  -- a number below zero raises.
  unfoldable pub normalize_octets : List ℕ → Option (List ℕ)
  unfolding int16 plain
  normalize_octets [] = some []
  normalize_octets (c ∷ []) = plain c
  normalize_octets (c ∷ a ∷ []) = prepend_plain (plain c) (normalize_octets (a ∷ []))
  normalize_octets (c ∷ a ∷ b ∷ rest) = elim (c == b'%') [
    | true ↦ elim (int16 a b) [
      | invalid ↦ prepend (b'%' ∷ []) (normalize_octets (a ∷ b ∷ rest))
      | negative ↦ none
      | number byte ↦ prepend (decoded byte) (normalize_octets rest)
    ]
    | false ↦ prepend_plain (plain c) (normalize_octets (a ∷ b ∷ rest))
  ]
