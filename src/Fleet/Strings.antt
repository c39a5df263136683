-- ===== src/Fleet/Strings.antt =====
-- What steam_pumper/fleet.py uses of Python's strings and of `ipaddress`: `strip`, `lower` as far
-- as ASCII letters, the size in UTF-8, the character class of account ids, and IPv4 literals.
use mathlib.Core.List.{reverse}
use steam_download_pumper.Common.{
  ℕ, ◌+◌, ◌-◌, ◌*◌, Bool, true, false, ◌&&◌, ◌||◌, List, [], ◌∷◌, map, leb, ltb, ◌==◌, length,
  if◌then◌else◌,
}
use steam_download_pumper.Common.Text.{Text}

-- `str.isspace` of one character.
abbrev between : ℕ → ℕ → ℕ → Bool
between lo hi c = leb lo c && leb c hi

unfoldable pub is_space : ℕ → Bool
is_space c =
    between 9 13 c
    || between 28 32 c
    || c == 133
    || c == 160
    || c == 5760
    || between 8192 8202 c
    || between 8232 8233 c
    || c == 8239
    || c == 8287
    || c == 12288

unfoldable pub lstrip : Text → Text
lstrip [] = []
lstrip (c ∷ cs) = let rest = lstrip cs in if is_space c then rest else c ∷ cs

unfoldable pub strip : Text → Text
unfolding lstrip is_space
strip s = reverse (lstrip (reverse (lstrip s)))

-- `str.lower`, on the ASCII letters: no other character is lowered to one of the letters of the
-- words that the source compares with.
unfoldable pub lower : Text → Text
lower s = map (λ c. if between 65 90 c then c + 32 else c) s

-- `len(s.encode("utf-8"))`
unfoldable pub utf8_size : Text → ℕ
utf8_size [] = 0
utf8_size (c ∷ cs) =
    (if ltb c 128 then 1 else if ltb c 2048 then 2 else if ltb c 65536 then 3 else 4) + utf8_size cs

-- One character of `[A-Za-z0-9_.:-]`.
unfoldable pub is_id_char : ℕ → Bool
is_id_char c =
    between 65 90 c
    || between 97 122 c
    || between 48 57 c
    || c == 95
    || c == 46
    || c == 58
    || c == 45

abbrev pub all_chars : (ℕ → Bool) → Text → Bool
all_chars p [] = true
all_chars p (c ∷ cs) = p c && all_chars p cs

-- The text up to the first `sep`, and the parts after it: `s.split(sep)`.
unfoldable pub split_on : ℕ → Text → List Text
split_on sep [] = [] ∷ []
split_on sep (c ∷ cs) = elim (split_on sep cs) [
  | [] ↦ (c ∷ []) ∷ []
  | part ∷ parts ↦ if c == sep then [] ∷ part ∷ parts else (c ∷ part) ∷ parts
]

abbrev decimal : ℕ → Text → ℕ
decimal acc [] = acc
decimal acc (c ∷ cs) = decimal (acc * 10 + (c - 48)) cs

-- `IPv4Address._parse_octet`: one to three digits, no leading zero, at most 255.
unfoldable pub is_octet : Text → Bool
is_octet [] = false
is_octet (c ∷ cs) =
    all_chars (between 48 57) (c ∷ cs)
    && leb (length (c ∷ cs)) 3
    && (length cs == 0 || (if c == 48 then false else true))
    && leb (decimal 0 (c ∷ cs)) 255

abbrev all_octets : List Text → Bool
all_octets [] = true
all_octets (o ∷ os) = is_octet o && all_octets os

-- `ip_address(s).version == 4`, false where the call raises or where the address is of version 6.
unfoldable pub is_ipv4 : Text → Bool
unfolding split_on is_octet
is_ipv4 s = let parts = split_on 46 s in length parts == 4 && all_octets parts
