-- ===== src/Contrast/Colors/Hex.antt =====
-- The short forms of hexadecimal colours.
use sniff_css.Prelude.{ℕ, ◌+◌, ◌*◌, ◌<◌, ◌≡◌, refl, Option, some, arith}
use sniff_css.Contrast.Colors.{Bytes, channels}

same_bytes :
    {r r' g g' b b' a a' : ℕ}
    → r ≡ r'
    → g ≡ g'
    → b ≡ b'
    → a ≡ a'
    → ◌≡◌ {A = Option Bytes}
        (some (record { r = r; g = g; b = b; a = a }))
        (some (record { r = r'; g = g'; b = b'; a = a' }))
same_bytes p q u v = rw p (rw q (rw u (rw v refl)))

-- The three digits `rgb` mean the same colour as `rrggbb`, and `rgba` the same as `rrggbbaa`.
pub channels-doubled :
    (r g b a : ℕ)
    → r < 16
    → g < 16
    → b < 16
    → a < 16
    → (channels ((r * 16 + g) * 16 + b) 3
        ≡ channels ((((((r * 16 + r) * 16 + g) * 16 + g) * 16 + b) * 16) + b) 6)
      × (channels (((r * 16 + g) * 16 + b) * 16 + a) 4
          ≡ channels
              ((((((((r * 16 + r) * 16 + g) * 16 + g) * 16 + b) * 16 + b) * 16 + a) * 16) + a)
              8)
channels-doubled r g b a hr hg hb ha = (
  same_bytes (omega arith) (omega arith) (omega arith) refl,
  same_bytes (omega arith) (omega arith) (omega arith) (omega arith),
)
