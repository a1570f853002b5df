-- ===== src/Prelude/Text/Dots.antt =====
-- Splitting at dots and joining with dots.
use Prim.Native.Char.{Char, code}
use Prim.Native.String.{◌++◌ as str_append}
use text.Mathlib.TextLemmas.{nil-append, cons-append}
use text.Mathlib.TextEquality.{Char-path}
use native.Mathlib.Omega.{arith}
use vault_plugin_secrets_tem.Prelude.{
  String, ◌≡◌, ◌≢◌, refl, ap, ◌∙◌, inl, inr, false, List, [], ◌∷◌, nat_eq, Bool-cases,
}
use vault_plugin_secrets_tem.Prelude.Text.{split, prepend}
use vault_plugin_secrets_tem.Prelude.Text.Trim.{has_code}

abbrev dot : Char
dot = "."

-- A text, a dot and a text.
abbrev pub dotted : String → String → String
dotted s t = str_append s (str_append "." t)

abbrev pub join_dots : List String → String
join_dots [] = ""
join_dots (s ∷ []) = s
join_dots (s ∷ t ∷ ts) = dotted s (join_dots (t ∷ ts))

-- The parts of a text whose first part has no dot.
pub split-dotted :
    (s t : String) → has_code b'.' s ≡ false → split b'.' (dotted s t) ≡ s ∷ split b'.' t
unfolding split has_code prepend
split-dotted String.[] t h =
    rw (nil-append (str_append "." t), cons-append _ String.[] t, nil-append t) refl
split-dotted (String.◌∷◌ c s) t h =
    let other : nat_eq (code c) b'.' ≡ false = ground arith in
    let rest : has_code b'.' s ≡ false = ground arith in
    rw (cons-append c s (str_append "." t), other, split-dotted s t rest) refl

pub split-undotted : (s : String) → has_code b'.' s ≡ false → split b'.' s ≡ s ∷ []
unfolding split has_code prepend
split-undotted String.[] h = refl
split-undotted (String.◌∷◌ c s) h =
    let other : nat_eq (code c) b'.' ≡ false = ground arith in
    let rest : has_code b'.' s ≡ false = ground arith in rw (other, split-undotted s rest) refl

prepend-ne-nil : (c : Char) (parts : List String) → prepend c parts ≢ []
unfolding prepend
prepend-ne-nil c [] e = cc
prepend-ne-nil c (s ∷ parts) e = cc

split-ne-nil : (s : String) → split b'.' s ≢ []
unfolding split prepend
split-ne-nil String.[] e = cc
split-ne-nil (String.◌∷◌ c s) e = elim (Bool-cases (nat_eq (code c) b'.')) [
  | inl cut ↦ let no : String.[] ∷ split b'.' s ≡ [] = rw cut at e in cc
  | inr same ↦ prepend-ne-nil c (split b'.' s) (rw same at e)
]

join_dots-prepend :
    (c : Char) (parts : List String) → join_dots (prepend c parts) ≡ String.◌∷◌ c (join_dots parts)
unfolding prepend
join_dots-prepend c [] = refl
join_dots-prepend c (s ∷ []) = refl
join_dots-prepend c (s ∷ t ∷ ts) = cons-append c s (str_append "." (join_dots (t ∷ ts)))

join_dots-nil :
    (parts : List String)
    → parts ≢ []
    → join_dots (String.[] ∷ parts) ≡ str_append "." (join_dots parts)
join_dots-nil [] some_part = absurd (some_part refl)
join_dots-nil (s ∷ parts) some_part = nil-append (str_append "." (join_dots (s ∷ parts)))

-- Joining the parts gives the text back.
pub join_dots-split : (s : String) → join_dots (split b'.' s) ≡ s
unfolding split
join_dots-split String.[] = refl
join_dots-split (String.◌∷◌ c s) = elim (Bool-cases (nat_eq (code c) b'.')) [
  | inl cut ↦
      let number : code c ≡ b'.' = ground arith in
      let is_dot : c ≡ dot = Char-path c dot number in
      rw (cut, join_dots-nil (split b'.' s) (split-ne-nil s), join_dots-split s, is_dot)
        (cons-append dot String.[] s ∙ ap (λ u. String.◌∷◌ dot u) (nil-append s))
  | inr same ↦ rw (same, join_dots-prepend c (split b'.' s), join_dots-split s) refl
]
