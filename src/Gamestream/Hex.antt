-- ===== src/Gamestream/Hex.antt =====
-- The round trip of `bytes_to_hex` and `hex_to_bytes` of libgamestream/client.c.
use moonlight_allwinner_h.Prelude.{
  ℕ, suc, ◌*◌, ◌/◌, ◌%◌, ◌<◌, ◌≡◌, refl, List, [], ◌∷◌, ◌++◌, some, arith, length,
}
use moonlight_allwinner_h.Gamestream.Text.{
  Text, hex_digit, hex_value, bytes_to_hex, scan_byte, hex_to_bytes,
}

-- Every element fits in a byte.
abbrev pub AllBytes : List ℕ → Type 0
AllBytes [] = Unit {0}
AllBytes (b ∷ bs) = (b < 256) × AllBytes bs

hex_value-hex_digit : (n : ℕ) → n < 16 → hex_value (hex_digit n) ≡ some n
unfolding hex_value
hex_value-hex_digit n h = ground arith

scan-digits :
    (odd : Text → ℕ) (b : ℕ) (rest : Text)
    → b < 256
    → scan_byte odd (hex_digit (b / 16) ∷ hex_digit (b % 16) ∷ rest) ≡ b
unfolding scan_byte
scan-digits odd b rest h =
    ground (
      arith,
      hex_value-hex_digit (b / 16) (omega arith),
      hex_value-hex_digit (b % 16) (omega arith),
    )

double_suc : (n : ℕ) → suc n * 2 ≡ suc (suc (n * 2))
double_suc n = omega arith

-- Bytes written in hexadecimal and read back are the same bytes, whatever text follows them and
-- whatever is read of a text that is not a digit.
pub hex_round_trip :
    (odd : Text → ℕ) (bs : List ℕ) (rest : Text)
    → AllBytes bs
    → hex_to_bytes odd (bytes_to_hex bs ++ rest) (length bs * 2) ≡ bs
unfolding hex_to_bytes bytes_to_hex
hex_round_trip odd [] rest h = refl
hex_round_trip odd (b ∷ bs) rest (hb, h) =
    rw (double_suc (length bs))
      (cc (scan-digits odd b (bytes_to_hex bs ++ rest) hb, hex_round_trip odd bs rest h))
