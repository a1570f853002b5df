-- ===== src/Backend/Handles/Lifetime.antt =====
-- The life of client handles under any interleaving of requests and the halves of resets.
use mathlib.Core.Path.{subst}
use vault_plugin_secrets_tem.Prelude.{
  ℕ, ◌+◌, ◌≤◌, ◌<◌, ◌≡◌, ◌≢◌, refl, true, false, Option, none, some, List, [], ◌∷◌, length,
  get_elem?, length-append, arith, nat_eq,
}
use vault_plugin_secrets_tem.Client.{ClientConfig}
use vault_plugin_secrets_tem.Backend.Handles.Cells.{
  AllAt, AllAt-mono, AllAt-update, AllAt-append, AllAt-get_elem?, length-update,
}
use vault_plugin_secrets_tem.Backend.Handles.{
  ClientHandle, new_handle, acquire, release, retire, acquire_at, release_at, install, drop_current,
  retire_at,
}
use vault_plugin_secrets_tem.Backend.Handles.Steps.{
  System, Step, share, build, finish, drop, retire_one, Reach, here, next, Leaves, count,
  count-Leaves, is_current,
}

-- A handle is closed exactly if it is retired and nothing uses it, and it is closed once.
pub record IsTidy (h : ClientHandle) : Type 0 where
  pub closed_idle : h.closed ≡ true → (h.retired ≡ true) × (h.refs ≡ 0)
  pub idle_closed : h.retired ≡ true → h.refs ≡ 0 → h.closed ≡ true
  pub once : h.closed ≡ true → h.closes ≡ 1
  pub never : h.closed ≡ false → h.closes ≡ 0

new_handle-IsTidy : (c : ClientConfig) → IsTidy (acquire (new_handle c))
unfolding acquire new_handle
new_handle-IsTidy c = ground arith

acquire-IsTidy : (h : ClientHandle) → IsTidy h → h.retired ≡ false → IsTidy (acquire h)
unfolding acquire
acquire-IsTidy h t live = ground arith

release-IsTidy : (h : ClientHandle) → IsTidy h → 0 < h.refs → IsTidy (release h)
unfolding release
release-IsTidy h t used = ground arith

retire-IsTidy : (h : ClientHandle) → IsTidy h → IsTidy (retire h)
unfolding retire
retire-IsTidy h t = ground arith

-- What holds of the handle with the index `i`.
pub record Fits (current : Option ℕ) (users retiring : List ℕ) (i : ℕ) (h : ClientHandle)
    : Type 0 where
  pub tidy : IsTidy h
  pub counted : h.refs ≡ count i users
  pub live : is_current current i ≡ true → h.retired ≡ false
  pub kept : is_current current i ≡ true → count i retiring ≡ 0
  pub old : is_current current i ≡ false → count i retiring ≡ 0 → h.retired ≡ true

abbrev FitsAll : System → Type 0
FitsAll s = AllAt (Fits s.handles.current s.users s.retiring) 0 s.handles.cells

pub record Inv (s : System) : Type 0 where
  pub cells : FitsAll s
  pub used_there : (i : ℕ) → length s.handles.cells ≤ i → count i s.users ≡ 0
  pub retiring_there : (i : ℕ) → length s.handles.cells ≤ i → count i s.retiring ≡ 0
  pub current_there : (i : ℕ) → s.handles.current ≡ some i → i < length s.handles.cells

nat_eq_self : (i : ℕ) → nat_eq i i ≡ true
nat_eq_self i = ground arith

module _ (c : Option ℕ) (us rs : List ℕ) where
  acquire-Fits :
      (i : ℕ) (h : ClientHandle)
      → is_current c i ≡ true
      → Fits c us rs i h
      → Fits c (i ∷ us) rs i (acquire h)
  unfolding acquire
  acquire-Fits i h now f = ground arith

  used-Fits : (i j : ℕ) (h : ClientHandle) → j ≢ i → Fits c us rs j h → Fits c (i ∷ us) rs j h
  used-Fits i j h ne f = ground arith

  release-Fits :
      (vs : List ℕ) (i : ℕ) (h : ClientHandle)
      → count i us ≡ 1 + count i vs
      → Fits c us rs i h
      → Fits c vs rs i (release h)
  unfolding release
  release-Fits vs i h less f = ground arith

  unused-Fits :
      (vs : List ℕ) (j : ℕ) (h : ClientHandle)
      → count j us ≡ count j vs
      → Fits c us rs j h
      → Fits c vs rs j h
  unused-Fits vs j h same f = ground arith

  -- A handle that a reset has dropped is not the current one, so it may be retired.
  retire-Fits :
      (qs : List ℕ) (i : ℕ) (h : ClientHandle)
      → count i rs ≡ 1 + count i qs
      → Fits c us rs i h
      → Fits c us qs i (retire h)
  unfolding retire
  retire-Fits qs i h less f = ground arith

  unretired-Fits :
      (qs : List ℕ) (j : ℕ) (h : ClientHandle)
      → count j rs ≡ count j qs
      → Fits c us rs j h
      → Fits c us qs j h
  unretired-Fits qs j h same f = ground arith

module _ (us rs : List ℕ) where
  drop-Fits : (i j : ℕ) (h : ClientHandle) → Fits (some i) us rs j h → Fits none us (i ∷ rs) j h
  drop-Fits i j h f = ground arith

  install-Fits :
      (n j : ℕ) (h : ClientHandle) → j ≢ n → Fits none us rs j h → Fits (some n) (n ∷ us) rs j h
  install-Fits n j h ne f = ground arith

  new_handle-Fits :
      (c : ClientConfig) (n : ℕ)
      → count n us ≡ 0
      → count n rs ≡ 0
      → Fits (some n) (n ∷ us) rs n (acquire (new_handle c))
  unfolding acquire new_handle
  new_handle-Fits c n unused unretired = ground arith

module _ (s : System) (v : Inv s) where
  Inv-share :
      (i : ℕ)
      → s.handles.current ≡ some i
      → Inv (record s { handles = acquire_at i s.handles; users = i ∷ s.users })
  unfolding acquire_at
  Inv-share i e =
      let now = s.handles.current in
      let longer = length-update acquire i s.handles.cells in
      record {
        cells =
            AllAt-update (Fits now s.users s.retiring) (Fits now (i ∷ s.users) s.retiring) acquire i
              0 i s.handles.cells (omega arith)
              (λ h f. acquire-Fits now s.users s.retiring i h (rw e (nat_eq_self i)) f)
              (λ j h ne f. used-Fits now s.users s.retiring i j h ne f) v.cells;
        used_there = λ j far. ground (arith, longer, v.used_there j, v.current_there i e);
        retiring_there = λ j far. v.retiring_there j (omega (arith, longer));
        current_there = λ j p. omega (arith, longer, v.current_there j p);
      }

  Inv-build :
      (c : ClientConfig)
      → s.handles.current ≡ none
      → Inv (record s { handles = install c s.handles; users = length s.handles.cells ∷ s.users })
  unfolding install
  Inv-build c e =
      let n = length s.handles.cells in
      let made = acquire (new_handle c) in
      let fits = Fits (some n) (n ∷ s.users) s.retiring in
      let before = subst (λ k. AllAt (Fits k s.users s.retiring) 0 s.handles.cells) e v.cells in
      let longer = length-append s.handles.cells (made ∷ []) in
      record {
        cells =
            AllAt-append fits 0 s.handles.cells made
              (AllAt-mono (Fits none s.users s.retiring) fits 0 s.handles.cells
                (λ j h below f. install-Fits s.users s.retiring n j h (λ q. omega arith) f) before)
              (let zero_add : n ≡ 0 + n = omega arith in
                subst (λ k. fits k made) zero_add
                  (new_handle-Fits s.users s.retiring c n (v.used_there n (omega arith))
                    (v.retiring_there n (omega arith))));
        used_there = λ j far. ground (arith, longer, v.used_there j);
        retiring_there = λ j far. v.retiring_there j (omega (arith, longer));
        current_there = λ j p. ground (arith, longer);
      }

  Inv-finish :
      (i : ℕ) (us : List ℕ)
      → Leaves i s.users us
      → Inv (record s { handles = release_at i s.handles; users = us })
  unfolding release_at
  Inv-finish i us l =
      let now = s.handles.current in
      let same = length-update release i s.handles.cells in
      record {
        cells =
            AllAt-update (Fits now s.users s.retiring) (Fits now us s.retiring) release i 0 i
              s.handles.cells (omega arith)
              (λ h f.
                release-Fits now s.users s.retiring us i h
                  (rw (nat_eq_self i) at (count-Leaves i l)) f)
              (λ j h ne f.
                unused-Fits now s.users s.retiring us j h (ground (arith, count-Leaves j l)) f)
              v.cells;
        used_there = λ j far. ground (arith, same, v.used_there j, count-Leaves j l);
        retiring_there = λ j far. v.retiring_there j (omega (arith, same));
        current_there = λ j p. omega (arith, same, v.current_there j p);
      }

  Inv-drop :
      (i : ℕ)
      → s.handles.current ≡ some i
      → Inv (record s { handles = drop_current s.handles; retiring = i ∷ s.retiring })
  unfolding drop_current
  Inv-drop i e = record {
    cells =
        AllAt-mono (Fits (some i) s.users s.retiring) (Fits none s.users (i ∷ s.retiring)) 0
          s.handles.cells (λ j h below f. drop-Fits s.users s.retiring i j h f)
          (subst (λ k. AllAt (Fits k s.users s.retiring) 0 s.handles.cells) e v.cells);
    used_there = v.used_there;
    retiring_there = λ j far. ground (arith, v.retiring_there j, v.current_there i e);
    current_there = λ j p. cc;
  }

  Inv-retire_one :
      (i : ℕ) (rs : List ℕ)
      → Leaves i s.retiring rs
      → Inv (record s { handles = retire_at i s.handles; retiring = rs })
  unfolding retire_at
  Inv-retire_one i rs l =
      let now = s.handles.current in
      let same = length-update retire i s.handles.cells in
      record {
        cells =
            AllAt-update (Fits now s.users s.retiring) (Fits now s.users rs) retire i 0 i
              s.handles.cells (omega arith)
              (λ h f.
                retire-Fits now s.users s.retiring rs i h (rw (nat_eq_self i) at (count-Leaves i l))
                  f)
              (λ j h ne f.
                unretired-Fits now s.users s.retiring rs j h (ground (arith, count-Leaves j l)) f)
              v.cells;
        used_there = λ j far. v.used_there j (omega (arith, same));
        retiring_there = λ j far. ground (arith, same, v.retiring_there j, count-Leaves j l);
        current_there = λ j p. omega (arith, same, v.current_there j p);
      }

Step-Inv : {s t : System} → Step s t → Inv s → Inv t
Step-Inv (share s i e) v = Inv-share s v i e
Step-Inv (build s c e) v = Inv-build s v c e
Step-Inv (finish s i us l) v = Inv-finish s v i us l
Step-Inv (drop s i e) v = Inv-drop s v i e
Step-Inv (retire_one s i rs l) v = Inv-retire_one s v i rs l

-- Every state that requests and resets can reach, in any order, satisfies the invariant.
pub Reach-Inv : {s : System} → Reach s → Inv s
Reach-Inv here = record {
  cells = tt;
  used_there = λ i far. refl;
  retiring_there = λ i far. refl;
  current_there = λ i p. cc;
}
Reach-Inv (next r st) = Step-Inv st (Reach-Inv r)

Fits-at :
    {s : System} (i : ℕ) (h : ClientHandle)
    → Reach s
    → get_elem? s.handles.cells i ≡ some h
    → Fits s.handles.current s.users s.retiring i h
Fits-at {s} i h r e =
    let fits = Fits s.handles.current s.users s.retiring in
    let f = AllAt-get_elem? fits 0 i s.handles.cells h (Reach-Inv r).cells e in
    let zero_add : 0 + i ≡ i = omega arith in subst (λ j. fits j h) zero_add f

-- In every state that requests and the halves of resets reach, in any order, a handle that some
-- request uses has not been closed.
pub open_while_used :
    {s : System} (i : ℕ) (h : ClientHandle)
    → Reach s
    → get_elem? s.handles.cells i ≡ some h
    → 0 < count i s.users
    → (h.closed ≡ false) × (h.closes ≡ 0)
open_while_used {s} i h r e used = let g = Fits-at i h r e in ground (arith, g)

-- In every state that requests and the halves of resets reach, in any order, a handle that is no
-- longer the backend's current one, that no request uses and that no reset has yet to retire has been
-- closed exactly once.
pub closed_when_unused :
    {s : System} (i : ℕ) (h : ClientHandle)
    → Reach s
    → get_elem? s.handles.cells i ≡ some h
    → is_current s.handles.current i ≡ false
    → count i s.users ≡ 0
    → count i s.retiring ≡ 0
    → (h.closed ≡ true) × (h.closes ≡ 1)
closed_when_unused {s} i h r e stale idle retired = let g = Fits-at i h r e in ground (arith, g)
