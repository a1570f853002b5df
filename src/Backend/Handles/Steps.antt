-- ===== src/Backend/Handles/Steps.antt =====
-- The steps that requests and calls of resetClient make on the handles, one for each critical section.
use vault_plugin_secrets_tem.Prelude.{
  ℕ, ◌+◌, ◌≡◌, refl, Bool, false, Option, none, some, List, [], ◌∷◌, length, arith, nat_eq,
  if◌then◌else◌,
}
use vault_plugin_secrets_tem.Client.{ClientConfig}
use vault_plugin_secrets_tem.Backend.Handles.{
  Handles, acquire_at, release_at, install, drop_current, retire_at,
}

-- How often an index is in a list.
abbrev pub count : ℕ → List ℕ → ℕ
count i [] = 0
count i (j ∷ us) = (if nat_eq j i then 1 else 0) + count i us

abbrev pub is_current : Option ℕ → ℕ → Bool
is_current none i = false
is_current (some j) i = nat_eq j i

-- One occurrence of the index `i` is taken out.
pub data Leaves (i : ℕ) : List ℕ → List ℕ → Type 0 where
  first : (us : List ℕ) → Leaves i (i ∷ us) us
  later : (j : ℕ) {us vs : List ℕ} → Leaves i us vs → Leaves i (j ∷ us) (j ∷ vs)

pub count-Leaves :
    {i : ℕ} {us vs : List ℕ} (k : ℕ)
    → Leaves i us vs
    → count k us ≡ (if nat_eq i k then 1 else 0) + count k vs
count-Leaves k (first us) = refl
count-Leaves {i} k (later j l) = omega (arith, count-Leaves k l)

-- `users` holds the handles that requests in flight use, once for each use, and `retiring` the handles
-- that calls of resetClient have dropped and not yet retired.
pub record System : Type 0 where
  pub handles : Handles
  pub users : List ℕ
  pub retiring : List ℕ

-- A request shares the current handle or installs a new one (getClient), or ends (its release); a
-- call of resetClient drops the current handle, or retires the one it dropped. They interleave in any
-- order. A call of resetClient that finds no handle changes nothing, and is no step.
pub data Step : System → System → Type 0 where
  share :
      (s : System) (i : ℕ)
      → s.handles.current ≡ some i
      → Step s (record s { handles = acquire_at i s.handles; users = i ∷ s.users })
  build :
      (s : System) (c : ClientConfig)
      → s.handles.current ≡ none
      → Step s
          (record s { handles = install c s.handles; users = length s.handles.cells ∷ s.users })
  finish :
      (s : System) (i : ℕ) (us : List ℕ)
      → Leaves i s.users us
      → Step s (record s { handles = release_at i s.handles; users = us })
  drop :
      (s : System) (i : ℕ)
      → s.handles.current ≡ some i
      → Step s (record s { handles = drop_current s.handles; retiring = i ∷ s.retiring })
  retire_one :
      (s : System) (i : ℕ) (rs : List ℕ)
      → Leaves i s.retiring rs
      → Step s (record s { handles = retire_at i s.handles; retiring = rs })

abbrev pub init : System
init = record { handles = record { cells = []; current = none }; users = []; retiring = [] }

pub data Reach : System → Type 0 where
  here : Reach init
  next : {s t : System} → Reach s → Step s t → Reach t
