-- ===== src/Prelude/Text.antt =====
-- What the program uses of Go's `strings` package, over Unicode texts.
pub mod Trim
pub mod Split
pub mod Dots
use Prim.Native.Nat.{ℕ, zero, suc, ◌+◌, ◌/◌, ◌%◌}
use Prim.Native.Char.{Char, code}
use Prim.Native.String.{String, ◌++◌}
use mathlib.Core.Path.{◌≡◌, refl}
use mathlib.Core.Bool.{Bool, true, false, ◌&&◌, ◌||◌}
use mathlib.Core.List.{List, [], ◌∷◌, map}
use vault_plugin_secrets_tem.Prelude.Tests.{ltb, leb, nat_eq, if◌then◌else◌}

-- The code points of a text.
abbrev pub codes : String → List ℕ
codes String.[] = []
codes (String.◌∷◌ c s) = code c ∷ codes s

abbrev pub codes_eq : List ℕ → List ℕ → Bool
codes_eq [] [] = true
codes_eq (a ∷ as') (b ∷ bs) = nat_eq a b && codes_eq as' bs
codes_eq _ _ = false

abbrev pub is_empty : String → Bool
is_empty String.[] = true
is_empty (String.◌∷◌ c s) = false

-- unicode.IsSpace: the code points with the property White_Space.
unfoldable pub is_space : ℕ → Bool
is_space c =
    (leb 9 c && leb c 13)
    || nat_eq c 32
    || nat_eq c 0x85
    || nat_eq c 0xa0
    || nat_eq c 0x1680
    || (leb 0x2000 c && leb c 0x200a)
    || nat_eq c 0x2028
    || nat_eq c 0x2029
    || nat_eq c 0x202f
    || nat_eq c 0x205f
    || nat_eq c 0x3000

trim_left : String → String
trim_left String.[] = String.[]
trim_left (String.◌∷◌ c s) = if is_space (code c) then trim_left s else String.◌∷◌ c s

trim_right : String → String
trim_right String.[] = String.[]
trim_right (String.◌∷◌ c s) =
    let rest = trim_right s in
    if is_space (code c) && is_empty rest then String.[] else String.◌∷◌ c rest

-- strings.TrimSpace
unfoldable pub trim_space : String → String
unfolding trim_left trim_right is_space
trim_space s = trim_right (trim_left s)

-- unicode.ToLower on the code points whose lower case is an ASCII letter. Those are the only ones
-- that can turn a text into one of the program's ASCII names, and texts are lowered for nothing else.
unfoldable pub to_lower : ℕ → ℕ
to_lower c =
    if leb b'A' c && leb c b'Z'
    then c + 32
    else if nat_eq c 0x130
    then b'i'
    else if nat_eq c 0x212a
    then b'k'
    else c

-- strings.ToLower, as a list of code points.
unfoldable pub lower : String → List ℕ
unfolding to_lower
lower s = map to_lower (codes s)

prepend : Char → List String → List String
prepend c [] = String.◌∷◌ c String.[] ∷ []
prepend c (part ∷ parts) = String.◌∷◌ c part ∷ parts

-- strings.Split at a one-character separator: never an empty list.
unfoldable pub split : ℕ → String → List String
unfolding prepend
split sep String.[] = String.[] ∷ []
split sep (String.◌∷◌ c s) =
    let parts = split sep s in if nat_eq (code c) sep then String.[] ∷ parts else prepend c parts

-- strings.TrimRight at a one-character cutset.
unfoldable pub trim_suffix : ℕ → String → String
trim_suffix cut String.[] = String.[]
trim_suffix cut (String.◌∷◌ c s) =
    let rest = trim_suffix cut s in
    if nat_eq (code c) cut && is_empty rest then String.[] else String.◌∷◌ c rest

trim_example : trim_space "  a b " ≡ "a b"
unfolding trim_space
trim_example = refl

split_example : split b'=' "prod=write" ≡ "prod" ∷ "write" ∷ []
unfolding split
split_example = refl

lower_example : codes_eq (lower "Finance-ADMIN") (codes "finance-admin") ≡ true
unfolding lower
lower_example = refl

digit : ℕ → String
digit d =
    if nat_eq d 0
    then "0"
    else if nat_eq d 1
    then "1"
    else if nat_eq d 2
    then "2"
    else if nat_eq d 3
    then "3"
    else if nat_eq d 4
    then "4"
    else if nat_eq d 5
    then "5"
    else if nat_eq d 6
    then "6"
    else if nat_eq d 7
    then "7"
    else if nat_eq d 8
    then "8"
    else "9"

decimal_fuel : ℕ → ℕ → String
decimal_fuel zero n = ""
decimal_fuel (suc fuel) n =
    let front = decimal_fuel fuel (n / 10) in if ltb n 10 then digit n else front ++ digit (n % 10)

-- "%d" of an int64 that is not negative: twenty digits are enough.
unfoldable pub decimal : ℕ → String
unfolding decimal_fuel digit
decimal n = decimal_fuel 20 n

decimal_example : decimal 1755820800 ≡ "1755820800"
unfolding decimal
decimal_example = refl

-- Go's order of texts: that of their bytes in UTF-8, which is that of their code points.
abbrev pub codes_leb : List ℕ → List ℕ → Bool
codes_leb [] bs = true
codes_leb (a ∷ as') [] = false
codes_leb (a ∷ as') (b ∷ bs) = ltb a b || (nat_eq a b && codes_leb as' bs)

unfoldable pub insert_text : String → List String → List String
insert_text s [] = s ∷ []
insert_text s (t ∷ ts) =
    let rest = insert_text s ts in if codes_leb (codes s) (codes t) then s ∷ t ∷ ts else t ∷ rest

-- sort.Strings: texts that are equal in this order are the same, so its result is the only one.
unfoldable pub sort_texts : List String → List String
unfolding insert_text
sort_texts [] = []
sort_texts (s ∷ ts) = insert_text s (sort_texts ts)

sort_example :
    sort_texts ("b=read" ∷ "a=write" ∷ "a=read" ∷ []) ≡ "a=read" ∷ "a=write" ∷ "b=read" ∷ []
unfolding sort_texts
sort_example = refl

codes_begin : List ℕ → List ℕ → Bool
codes_begin xs [] = true
codes_begin [] (y ∷ ys) = false
codes_begin (x ∷ xs) (y ∷ ys) = nat_eq x y && codes_begin xs ys

-- strings.HasPrefix
unfoldable pub has_prefix : String → String → Bool
unfolding codes_begin
has_prefix s prefix = codes_begin (codes s) (codes prefix)
