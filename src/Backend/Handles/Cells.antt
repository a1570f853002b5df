-- ===== src/Backend/Handles/Cells.antt =====
-- Facts about every handle with its index, and what the list operations do to them.
use mathlib.Core.Path.{subst}
use vault_plugin_secrets_tem.Prelude.{
  ℕ, zero, suc, ◌+◌, ◌<◌, ◌≡◌, ◌≢◌, refl, ap, sym, some, List, [], ◌∷◌, ◌++◌, length, get_elem?,
  arith,
}
use vault_plugin_secrets_tem.Backend.Handles.{ClientHandle, update}

some_inj : {A : Type 0} {a b : A} → some a ≡ some b → a ≡ b
some_inj e = cc

abbrev pub AllAt : (ℕ → ClientHandle → Type 0) → ℕ → List ClientHandle → Type 0
AllAt P n [] = Unit
AllAt P n (h ∷ hs) = P n h × AllAt P (suc n) hs

module _ (P Q : ℕ → ClientHandle → Type 0) where
  pub AllAt-mono :
      (n : ℕ) (hs : List ClientHandle)
      → ((i : ℕ) (h : ClientHandle) → i < n + length hs → P i h → Q i h)
      → AllAt P n hs
      → AllAt Q n hs
  AllAt-mono n [] f a = tt
  AllAt-mono n (h ∷ hs) f a =
      (f n h (omega arith) a.0, AllAt-mono (suc n) hs (λ i g below p. f i g (omega arith) p) a.1)

  -- Above the index `k` nothing is updated.
  above :
      (k n : ℕ) (hs : List ClientHandle)
      (later : (i : ℕ) (h : ClientHandle) → i ≢ k → P i h → Q i h)
      → k < n
      → AllAt P n hs
      → AllAt Q n hs
  above k n [] later e a = tt
  above k n (h ∷ hs) later e a =
      (later n h (λ q. omega arith) a.0, above k (suc n) hs later (omega arith) a.1)

  pub AllAt-update :
      (f : ClientHandle → ClientHandle) (k n j : ℕ) (hs : List ClientHandle)
      → k ≡ n + j
      → ((h : ClientHandle) → P k h → Q k (f h))
      → ((i : ℕ) (h : ClientHandle) → i ≢ k → P i h → Q i h)
      → AllAt P n hs
      → AllAt Q n (update f j hs)
  unfolding update
  AllAt-update f k n j [] e here other a = tt
  AllAt-update f k n zero (h ∷ hs) e here other a =
      let same : k ≡ n = omega arith in
      (
        subst (λ i. Q i (f h)) same (here h (subst (λ i. P i h) (sym same) a.0)),
        above k (suc n) hs other (omega arith) a.1,
      )
  AllAt-update f k n (suc j) (h ∷ hs) e here other a =
      (other n h (λ q. omega arith) a.0, AllAt-update f k (suc n) j hs (omega arith) here other a.1)

pub AllAt-append :
    (P : ℕ → ClientHandle → Type 0) (n : ℕ) (hs : List ClientHandle) (h : ClientHandle)
    → AllAt P n hs
    → P (n + length hs) h
    → AllAt P n (hs ++ h ∷ [])
AllAt-append P n [] h a p = (subst (λ i. P i h) (omega arith) p, tt)
AllAt-append P n (x ∷ hs) h a p =
    (a.0, AllAt-append P (suc n) hs h a.1 (subst (λ i. P i h) (omega arith) p))

pub AllAt-get_elem? :
    (P : ℕ → ClientHandle → Type 0) (n j : ℕ) (hs : List ClientHandle) (h : ClientHandle)
    → AllAt P n hs
    → get_elem? hs j ≡ some h
    → P (n + j) h
AllAt-get_elem? P n j [] h a e = cc
AllAt-get_elem? P n zero (x ∷ hs) h a e =
    subst (λ y. P (n + 0) y) (some_inj e) (subst (λ i. P i x) (omega arith) a.0)
AllAt-get_elem? P n (suc j) (x ∷ hs) h a e =
    subst (λ i. P i h) (omega arith) (AllAt-get_elem? P (suc n) j hs h a.1 e)

pub length-update :
    (f : ClientHandle → ClientHandle) (j : ℕ) (hs : List ClientHandle)
    → length (update f j hs) ≡ length hs
unfolding update
length-update f j [] = refl
length-update f zero (h ∷ hs) = refl
length-update f (suc j) (h ∷ hs) = ap suc (length-update f j hs)
