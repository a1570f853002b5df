-- ===== src/Prelude/Text/Split.antt =====
-- Laws of `split`.
use Prim.Native.Nat.{ℕ}
use Prim.Native.Char.{Char, code}
use Prim.Native.String.{String, ◌++◌}
use text.Mathlib.TextLemmas.{nil-append, cons-append}
use mathlib.Core.Path.{◌≡◌, refl, ap}
use mathlib.Core.Logic.{inl, inr}
use mathlib.Core.Bool.{false}
use mathlib.Core.List.{List, [], ◌∷◌}
use native.Mathlib.Omega.{arith}
use vault_plugin_secrets_tem.Prelude.Tests.{nat_eq, Bool-cases}
use vault_plugin_secrets_tem.Prelude.Lists.{All}
use vault_plugin_secrets_tem.Prelude.Text.{split, prepend}
use vault_plugin_secrets_tem.Prelude.Text.Trim.{has_code}

prepend-All :
    (sep : ℕ) (c : Char) (parts : List String)
    → nat_eq (code c) sep ≡ false
    → All (λ t. has_code sep t ≡ false) parts
    → All (λ t. has_code sep t ≡ false) (prepend c parts)
unfolding prepend has_code
prepend-All sep c [] other h = (rw other refl, tt)
prepend-All sep c (part ∷ parts) other h = (rw other h.0, h.1)

-- The parts hold no separator.
pub split-All-has_code : (sep : ℕ) (s : String) → All (λ t. has_code sep t ≡ false) (split sep s)
unfolding split has_code
split-All-has_code sep String.[] = (refl, tt)
split-All-has_code sep (String.◌∷◌ c s) = elim (Bool-cases (nat_eq (code c) sep)) [
  | inl cut ↦ rw cut (refl, split-All-has_code sep s)
  | inr same ↦ rw same (prepend-All sep c (split sep s) same (split-All-has_code sep s))
]

-- A text with no separator is one part.
split_whole : (sep : ℕ) (s : String) → has_code sep s ≡ false → split sep s ≡ s ∷ []
unfolding split has_code prepend
split_whole sep String.[] h = refl
split_whole sep (String.◌∷◌ c s) h =
    let other : nat_eq (code c) sep ≡ false = ground arith in
    let rest : has_code sep s ≡ false = ground arith in rw (other, split_whole sep s rest) refl

-- Two texts with no separator, and one between them.
pub split-append :
    (s t : String)
    → has_code b'=' s ≡ false
    → has_code b'=' t ≡ false
    → split b'=' (s ++ ("=" ++ t)) ≡ s ∷ t ∷ []
unfolding split has_code prepend
split-append String.[] t hs ht =
    rw (nil-append ("=" ++ t), cons-append _ String.[] t, nil-append t)
      (ap (λ (l : List String). String.[] ∷ l) (split_whole b'=' t ht))
split-append (String.◌∷◌ c s) t hs ht =
    let other : nat_eq (code c) b'=' ≡ false = ground arith in
    let rest : has_code b'=' s ≡ false = ground arith in
    rw (cons-append c s ("=" ++ t), other, split-append s t rest ht) refl
