-- ===== src/Chat/Client/Color.antt =====
-- examples/chat/chat_client/src/color.rs: the colours of nicknames. The components are below 256.
use Prim.Native.String.{◌++◌}
use thespis_impl_remote.Common.{
  ℕ, String, Bool, true, not, ◌≡◌, ◌↔◌, ◌⊎◌, inl, inr, Bool-cases, arith, ◌≤◌, ◌<◌, ◌+◌, ◌-◌, ltb,
  if◌then◌else◌,
}

pub record Color : Type 0 where
  pub r : ℕ
  pub g : ℕ
  pub b : ℕ
  pub a : ℕ

-- How `format!` prints a number: with two hexadecimal digits, and in decimal.
pub record Printer : Type 0 where
  pub hex : ℕ → String
  pub decimal : ℕ → String

unfoldable pub new : ℕ → ℕ → ℕ → ℕ → Color
new r g b a = record { r = r; g = g; b = b; a = a }

unfoldable pub is_light : Color → Bool
is_light c = ltb 378 (c.r + c.g + c.b)

unfoldable pub is_dark : Color → Bool
unfolding is_light
is_dark c = not (is_light c)

unfoldable pub invert : Color → Color
invert c = record { r = 255 - c.r; g = 255 - c.g; b = 255 - c.b; a = 255 - c.a }

unfoldable pub light : Color → Color
unfolding is_dark invert
light c = if is_dark c then invert c else c

unfoldable pub dark : Color → Color
unfolding is_light invert
dark c = if is_light c then invert c else c

unfoldable pub to_css : Printer → Color → String
to_css p c = "#" ++ (p.hex c.r ++ (p.hex c.g ++ p.hex c.b))

unfoldable pub to_cssa : Printer → Color → String
to_cssa p c =
    "rgba("
    ++ (p.decimal c.r
        ++ ("," ++ (p.decimal c.g ++ ("," ++ (p.decimal c.b ++ ("," ++ (p.decimal c.a ++ ")")))))))

module _ (c : Color) (red : c.r < 256) (green : c.g < 256) (blue : c.b < 256) where
  -- A colour made light is light.
  light-is_light : is_light (light c) ≡ true
  unfolding light is_light
  light-is_light = ground arith

  -- A colour made dark is dark, but for those close to the middle on the light side, which are so
  -- inverted too.
  dark-is_dark_iff : (is_dark (dark c) ≡ true) ↔ ((c.r + c.g + c.b ≤ 378) ⊎ (386 < c.r + c.g + c.b))
  unfolding dark is_dark
  dark-is_dark_iff = (
    λ h. elim (Bool-cases (ltb 378 (c.r + c.g + c.b))) [
      | inl above ↦ inr (ground (arith, above, h))
      | inr below ↦ inl (ground (arith, below))
    ],
    λ h. elim h [ inl low ↦ ground (arith, low) | inr high ↦ ground (arith, high) ],
  )
