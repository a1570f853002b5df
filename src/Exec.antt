-- ===== src/Exec.antt =====
-- Actions of Go code that calls the outside world: each takes the state of the world and gives a
-- value or an error, with the state that the call leaves. Also the contexts that bound such calls.
use Prim.Native.Nat.{min}
use vault_plugin_secrets_tem.Prelude.{
  ℕ, ◌+◌, String, ◌≡◌, refl, Bool, false, Option, none, some, leb,
}
use vault_plugin_secrets_tem.Client.Errors.{Error, wrap}

pub data Result (A : Type 0) : Type 0 where
  ok : A → Result A
  err : Error → Result A

abbrev pub and_then : {A B : Type 0} → Result A → (A → Result B) → Result B
and_then (ok a) f = f a
and_then (err e) f = err e

abbrev pub wrap_err : {A : Type 0} → String → Result A → Result A
wrap_err op (ok a) = ok a
wrap_err op (err e) = err (wrap op e)

pub and_then-eq-ok :
    {A B : Type 0} (r : Result A) (f : A → Result B) {b : B}
    → and_then r f ≡ ok b
    → (a : A) × (r ≡ ok a) × (f a ≡ ok b)
and_then-eq-ok (ok a) f h = (a, refl, h)
and_then-eq-ok (err e) f h = cc

abbrev pub Exec : Type 0 → Type 0 → Type 0
Exec S A = S → Result A × S

abbrev pub continue : {S A B : Type 0} → Result A → (A → Exec S B) → Exec S B
continue (ok a) f s = f a s
continue (err e) f s = (err e, s)

infixl 10 ◌>>=◌ ◌>>◌
abbrev pub ◌>>=◌ : {S A B : Type 0} → Exec S A → (A → Exec S B) → Exec S B
◌>>=◌ m f s = let (r, s') = m s in continue r f s'

abbrev pub ◌>>◌ : {S B : Type 0} → Exec S (Unit {0}) → Exec S B → Exec S B
m >> k = m >>= λ _. k

abbrev pub pure : {S A : Type 0} → A → Exec S A
pure a s = (ok a, s)

abbrev pub raise : {S A : Type 0} → Error → Exec S A
raise e s = (err e, s)

abbrev pub lift : {S A : Type 0} → Result A → Exec S A
lift r s = (r, s)

-- The call itself, its error handed to the caller as a value.
abbrev pub try : {S A : Type 0} → Exec S A → Exec S (Result A)
try m s = let (r, s') = m s in (ok r, s')

-- A context: the time at which it ends, if it has a deadline.
abbrev pub Context : Type 0
Context = Option ℕ

-- context.WithTimeout at the time `now`: never later than the parent's deadline.
abbrev pub with_timeout : Context → ℕ → ℕ → Context
with_timeout none d now = some (now + d)
with_timeout (some t) d now = some (min t (now + d))

-- The context's deadline has passed at the time `now`.
abbrev pub is_over : Context → ℕ → Bool
is_over none now = false
is_over (some t) now = leb t now

-- Times and durations in nanoseconds.
abbrev pub millisecond : ℕ
millisecond = 1000000

abbrev pub second : ℕ
second = 1000000000
