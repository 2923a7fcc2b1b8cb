-- ===== src/Gamestream/Text.antt =====
-- The C texts of libgamestream/client.c as lists of bytes, with what it uses of the C library, and
-- its two conversions between bytes and hexadecimal digits.
use Prim.Native.Char.{code}
use Prim.Native.String.{String}
use moonlight_allwinner_h.Prelude.{
  ℕ, zero, suc, drop, ◌+◌, ◌-◌, ◌*◌, ◌/◌, ◌%◌, Bool, true, false, List, [], ◌∷◌, Option, none, some,
  ◌&&◌, ◌||◌, leb, ltb, ◌==◌, if◌then◌else◌,
}
use moonlight_allwinner_h.Prelude.Int.{ℤ, pos, neg_ℤ}

abbrev pub Text : Type 0
Text = List ℕ

-- The bytes of a literal.
abbrev pub codes : String → Text
codes String.[] = []
codes (String.◌∷◌ c s) = code c ∷ codes s

-- `strcmp(a, b) == 0`
unfoldable pub text_eq : Text → Text → Bool
text_eq [] [] = true
text_eq (a ∷ s) (b ∷ bs) = a == b && text_eq s bs
text_eq _ _ = false

unfoldable pub starts_with : Text → Text → Bool
starts_with [] t = true
starts_with (a ∷ s) (b ∷ bs) = a == b && starts_with s bs
starts_with (a ∷ s) [] = false

-- `strstr(t, part) != NULL`
unfoldable pub contains : Text → Text → Bool
contains part [] = starts_with part []
contains part (c ∷ t) = starts_with part (c ∷ t) || contains part t

abbrev pub is_digit : ℕ → Bool
is_digit c = leb b'0' c && leb c b'9'

unfoldable pub digits_value : Text → ℕ → ℕ
digits_value [] acc = acc
digits_value (c ∷ t) acc =
    let rest = digits_value t (acc * 10 + (c - b'0')) in if is_digit c then rest else acc

abbrev pub is_space : ℕ → Bool
is_space c = c == 32 || (leb 9 c && leb c 13)

-- `atoi`, without its overflow
unfoldable pub atoi : Text → ℤ
atoi [] = pos 0
atoi (c ∷ t) =
    let skipped = atoi t in
    if is_space c
    then skipped
    else if c == b'-'
    then neg_ℤ (pos (digits_value t 0))
    else if c == b'+'
    then pos (digits_value t 0)
    else pos (digits_value (c ∷ t) 0)

-- One digit of `%x`.
abbrev pub hex_digit : ℕ → ℕ
hex_digit n = if ltb n 10 then b'0' + n else b'a' + (n - 10)

-- `bytes_to_hex`: `sprintf("%02x")` of each byte
unfoldable pub bytes_to_hex : List ℕ → Text
bytes_to_hex [] = []
bytes_to_hex (b ∷ bs) = hex_digit (b / 16) ∷ hex_digit (b % 16) ∷ bytes_to_hex bs

-- The value of a hexadecimal digit, if it is one.
unfoldable pub hex_value : ℕ → Option ℕ
hex_value c =
    if is_digit c
    then some (c - b'0')
    else if leb b'a' c && leb c b'f'
    then some (c - b'a' + 10)
    else if leb b'A' c && leb c b'F'
    then some (c - b'A' + 10)
    else none

-- `sscanf("%2hhx")` on two hexadecimal digits gives their value. What it makes of anything else, a
-- blank, a sign or the end of the text, is `odd`.
unfoldable pub scan_byte : (Text → ℕ) → Text → ℕ
scan_byte odd [] = odd []
scan_byte odd (c ∷ []) = odd (c ∷ [])
scan_byte odd (hi ∷ lo ∷ rest) = elim (hex_value hi) [
  | none ↦ odd (hi ∷ lo ∷ rest)
  | some h ↦ elim (hex_value lo) [ none ↦ odd (hi ∷ lo ∷ rest) | some l ↦ h * 16 + l ]
]

-- `hex_to_bytes` of the first `len` characters, which reads two of them for an odd last one too
unfoldable pub hex_to_bytes : (Text → ℕ) → Text → ℕ → List ℕ
hex_to_bytes odd t zero = []
hex_to_bytes odd t (suc zero) = scan_byte odd t ∷ []
hex_to_bytes odd t (suc (suc n)) = scan_byte odd t ∷ hex_to_bytes odd (drop 2 t) n
