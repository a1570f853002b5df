-- ===== src/Prelude/Text/Trim.antt =====
-- Laws of `trim_space`: it is idempotent, and keeps every code point that is no white space.
use Prim.Native.Nat.{ℕ}
use Prim.Native.Char.{code}
use Prim.Native.String.{String}
use mathlib.Core.Path.{◌≡◌, refl, ap, ◌∙◌}
use mathlib.Core.Logic.{inl, inr}
use mathlib.Core.Bool.{Bool, true, false, not, ◌&&◌, ◌||◌}
use native.Mathlib.Omega.{arith}
use vault_plugin_secrets_tem.Prelude.Tests.{nat_eq, Bool-cases}
use vault_plugin_secrets_tem.Prelude.Text.{is_empty, is_space, trim_left, trim_right, trim_space}

-- The text has the code point.
unfoldable pub has_code : ℕ → String → Bool
has_code x String.[] = false
has_code x (String.◌∷◌ c s) = nat_eq (code c) x || has_code x s

has_code-empty : (x : ℕ) (s : String) → is_empty s ≡ true → has_code x s ≡ false
unfolding has_code
has_code-empty x String.[] h = refl
has_code-empty x (String.◌∷◌ c s) h = cc

module _ (x : ℕ) (solid : is_space x ≡ false) where
  space_differs : (c : ℕ) → is_space c ≡ true → nat_eq c x ≡ false
  space_differs c h = ground arith

  has_code-trim_left : (s : String) → has_code x (trim_left s) ≡ has_code x s
  unfolding has_code trim_left
  has_code-trim_left String.[] = refl
  has_code-trim_left (String.◌∷◌ c s) = elim (Bool-cases (is_space (code c))) [
    | inl space ↦ rw (space, space_differs (code c) space) (has_code-trim_left s)
    | inr solid' ↦ rw solid' refl
  ]

  has_code-trim_right : (s : String) → has_code x (trim_right s) ≡ has_code x s
  unfolding has_code trim_right
  has_code-trim_right String.[] = refl
  has_code-trim_right (String.◌∷◌ c s) =
      ground (arith, has_code-trim_right s, space_differs (code c), has_code-empty x (trim_right s))

  pub has_code-trim_space : (s : String) → has_code x (trim_space s) ≡ has_code x s
  unfolding trim_space
  has_code-trim_space s = has_code-trim_right (trim_left s) ∙ has_code-trim_left s

trim_right-trim_right : (s : String) → trim_right (trim_right s) ≡ trim_right s
unfolding trim_right
trim_right-trim_right String.[] = refl
trim_right-trim_right (String.◌∷◌ c s) =
    elim (Bool-cases (is_space (code c) && is_empty (trim_right s))) [
      | inl gone ↦ rw gone refl
      | inr kept ↦ rw kept (rw (trim_right-trim_right s, kept) refl)
    ]

-- The text does not start with white space.
abbrev solid_start : String → Bool
solid_start String.[] = true
solid_start (String.◌∷◌ c s) = not (is_space (code c))

solid_start-trim_left : (s : String) → solid_start (trim_left s) ≡ true
unfolding trim_left
solid_start-trim_left String.[] = refl
solid_start-trim_left (String.◌∷◌ c s) = elim (Bool-cases (is_space (code c))) [
  | inl space ↦ rw space (solid_start-trim_left s)
  | inr solid ↦ rw solid (rw solid refl)
]

-- A text that starts with no white space still does so after its end is trimmed.
trim_left-trim_right : (s : String) → solid_start s ≡ true → trim_left (trim_right s) ≡ trim_right s
unfolding trim_left trim_right
trim_left-trim_right String.[] h = refl
trim_left-trim_right (String.◌∷◌ c s) h =
    let solid : is_space (code c) ≡ false = ground arith in rw solid (rw solid refl)

pub trim_space-trim_space : (s : String) → trim_space (trim_space s) ≡ trim_space s
unfolding trim_space
trim_space-trim_space s =
    ap trim_right (trim_left-trim_right (trim_left s) (solid_start-trim_left s))
    ∙ trim_right-trim_right (trim_left s)
