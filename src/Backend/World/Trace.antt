-- ===== src/Backend/World/Trace.antt =====
-- The calls that a handler makes: rules for what it adds to the trace, one for each way to build it.
use mathlib.Core.Path.{subst}
use mathlib.Core.List.{append-nil, append_assoc}
use vault_plugin_secrets_tem.Prelude.{
  ℕ, String, ◌≡◌, refl, sym, ap, ◌∙◌, Bool, true, false, Option, none, some, List, [], ◌∷◌, ◌++◌,
  if◌then◌else◌,
}
use vault_plugin_secrets_tem.Exec.{Exec}
use vault_plugin_secrets_tem.Client.{ClientConfig}
use vault_plugin_secrets_tem.Client.Errors.{Error}
use vault_plugin_secrets_tem.Backend.Entries.{Config, config_storage_path}
use vault_plugin_secrets_tem.Backend.Handles.{ClientHandle}
use vault_plugin_secrets_tem.Backend.Handler.{
  Handler, Outcome, done, rejected, failed, Rejection, continue, ◌>>=◌, reject_if, or_fail,
}
use vault_plugin_secrets_tem.Backend.World.{
  Env, State, Event, Codec, ask, note, load, decode_or_none, installed, build_client,
  share_or_build, cached, client_config, get_config, get_client, with_client,
}

abbrev pub Post : Type 0 → Type (0 + 1)
Post A = Outcome A → List Event → Type 0

-- The handler adds events to the trace that fit its outcome, the newest first.
pub record Emits {W A : Type 0} (P : Post A) (m : Handler (State W) A) : Type 0 where
  pub at :
      (s : State W) → (events : List Event) × ((m s).1.trace ≡ events ++ s.trace) × P (m s).0 events

-- Nothing is added.
abbrev pub Quiet : {A : Type 0} → Post A
Quiet r events = events ≡ []

-- The outcome is no response, and the events fit.
abbrev pub OnFailure : {A : Type 0} → (List Event → Type 0) → Post A
OnFailure P (done a) events = ⊥
OnFailure P (rejected r) events = P events
OnFailure P (failed e) events = P events

module _ {W : Type 0} where
  pub Emits-ask : {A : Type 0} (m : Exec W A) → Emits {W = W} Quiet (ask m)
  Emits-ask m = record { at = λ s. ([], refl, refl) }

  pub Emits-lift : {A : Type 0} (r : Outcome A) → Emits {W = W} Quiet (λ s. (r, s))
  Emits-lift r = record { at = λ s. ([], refl, refl) }

  pub Emits-note :
      {A : Type 0} (P : Post A) (event : A → Event) (m : W → A × W)
      → ((a : A) → P (done a) (event a ∷ []))
      → Emits {W = W} P (note event m)
  Emits-note P event m p = record { at = λ s. (event (m s.world).0 ∷ [], refl, p (m s.world).0) }

  pub Emits-mono :
      {A : Type 0} (P Q : Post A) (m : Handler (State W) A)
      → ((r : Outcome A) (e : List Event) → P r e → Q r e)
      → Emits P m
      → Emits Q m
  Emits-mono P Q m f h = record { at = λ s. let (e, t, p) = h.at s in (e, t, f (m s).0 e p) }

  module _ {A B : Type 0} (P : Post A) (Q : A → Post B) (R : Post B) (f : A → Handler (State W) B)
      (both : (a : A) (e₁ : List Event) (r : Outcome B) (e₂ : List Event)
        → P (done a) e₁
        → Q a r e₂
        → R r (e₂ ++ e₁))
      (on_rejected : (x : Rejection) (e : List Event) → P (rejected x) e → R (rejected x) e)
      (on_failed : (x : Error) (e : List Event) → P (failed x) e → R (failed x) e)
      (rest : (a : A) (e : List Event) → P (done a) e → Emits (Q a) (f a)) where
    after :
        (r : Outcome A) (s : State W) (old e : List Event)
        → s.trace ≡ e ++ old
        → P r e
        → (events : List Event) × ((continue r f s).1.trace ≡ events ++ old)
          × R (continue r f s).0 events
    after (done a) s old e t p =
        let (e₂, t₂, q) = (rest a e p).at s in
        (e₂ ++ e, t₂ ∙ ap (λ l. e₂ ++ l) t ∙ sym (append_assoc e₂ e old), both a e (f a s).0 e₂ p q)
    after (rejected x) s old e t p = (e, t, on_rejected x e p)
    after (failed x) s old e t p = (e, t, on_failed x e p)

    -- What the second part adds stands before what the first part added. It may rely on what the
    -- first part gave.
    pub Emits-bind_with : (m : Handler (State W) A) → Emits P m → Emits R (m >>= f)
    Emits-bind_with m first = record {
      at = λ s. let (e, t, p) = first.at s in after (m s).0 (m s).1 s.trace e t p;
    }

  pub Emits-bind :
      {A B : Type 0} (P : Post A) (Q : A → Post B) (R : Post B) (f : A → Handler (State W) B)
      → ((a : A) (e₁ : List Event) (r : Outcome B) (e₂ : List Event)
          → P (done a) e₁
          → Q a r e₂
          → R r (e₂ ++ e₁))
      → ((x : Rejection) (e : List Event) → P (rejected x) e → R (rejected x) e)
      → ((x : Error) (e : List Event) → P (failed x) e → R (failed x) e)
      → ((a : A) → Emits (Q a) (f a))
      → (m : Handler (State W) A) → Emits P m
      → Emits R (m >>= f)
  Emits-bind P Q R f both on_rejected on_failed rest m first =
      Emits-bind_with P Q R f both on_rejected on_failed (λ a e p. rest a) m first

  -- A first part that adds nothing.
  pub Emits-quiet :
      {A B : Type 0} (R : Post B) (m : Handler (State W) A) (f : A → Handler (State W) B)
      → ((x : Rejection) → R (rejected x) [])
      → ((x : Error) → R (failed x) [])
      → Emits Quiet m
      → ((a : A) → Emits R (f a))
      → Emits R (m >>= f)
  Emits-quiet R m f on_rejected on_failed first rest =
      Emits-bind Quiet (λ _. R) R f
        (λ a e₁ r e₂ q p. subst (R r) (sym (append-nil e₂) ∙ ap (λ l. e₂ ++ l) (sym q)) p)
        (λ x e q. subst (R (rejected x)) (sym q) (on_rejected x))
        (λ x e q. subst (R (failed x)) (sym q) (on_failed x)) rest m first

  -- Handlers that add nothing make up a handler that adds nothing.
  pub Emits-silent :
      {A B : Type 0} (m : Handler (State W) A) (f : A → Handler (State W) B)
      → Emits Quiet m
      → ((a : A) → Emits Quiet (f a))
      → Emits Quiet (m >>= f)
  Emits-silent m f = Emits-quiet Quiet m f (λ x. refl) (λ x. refl)

  pub Emits-reject_if : (b : Bool) (x : Rejection) → Emits {W = W} Quiet (reject_if b x)
  Emits-reject_if true x = record { at = λ s. ([], refl, refl) }
  Emits-reject_if false x = record { at = λ s. ([], refl, refl) }

-- What a handler adds when it starts in the given state.
abbrev pub EmitsFrom : {W A : Type 0} → Post A → Handler (State W) A → State W → Type 0
EmitsFrom P m s = (events : List Event) × ((m s).1.trace ≡ events ++ s.trace) × P (m s).0 events

-- A first part that adds nothing and gives a known value is followed by what that value leads to.
pub EmitsFrom-known :
    {W A B : Type 0} (P : Post B) (m : Handler (State W) A) (f : A → Handler (State W) B) (a : A)
    (s : State W)
    → (m s).0 ≡ done a
    → Emits Quiet m
    → EmitsFrom P (f a) (m s).1
    → EmitsFrom P (m >>= f) s
EmitsFrom-known P m f a s known quiet (events, traced, p) =
    let (e, t, none_added) = quiet.at s in
    let same : (m s).1.trace ≡ s.trace = t ∙ ap (λ l. l ++ s.trace) none_added in
    subst
      (λ r.
        (events' : List Event) × ((continue r f (m s).1).1.trace ≡ events' ++ s.trace)
        × P (continue r f (m s).1).0 events')
      (sym known) (events, traced ∙ ap (λ l. events ++ l) same, p)

-- The noted call alone, with its result.
abbrev pub Notes : {A : Type 0} → (A → Event) → Post A
Notes event (done a) events = events ≡ event a ∷ []
Notes event _ events = ⊥

pub OnFailure-map :
    {A : Type 0} (P Q : List Event → Type 0) (r : Outcome A) (e e' : List Event)
    → (P e → Q e')
    → OnFailure P r e
    → OnFailure Q r e'
OnFailure-map P Q (done a) e e' f h = h
OnFailure-map P Q (rejected x) e e' f h = f h
OnFailure-map P Q (failed x) e e' f h = f h

-- Nothing is added, and the outcome is a value.
abbrev pub Harmless : {A : Type 0} → Post A
Harmless (done a) events = events ≡ []
Harmless _ events = ⊥

module _ {W : Type 0} where
  pub Emits-Notes :
      {A : Type 0} (event : A → Event) (m : W → A × W) → Emits {W = W} (Notes event) (note event m)
  Emits-Notes event m = record { at = λ s. (event (m s.world).0 ∷ [], refl, refl) }

  pub Emits-if :
      {A : Type 0} (R : Post A) (b : Bool) (m n : Handler (State W) A)
      → (b ≡ true → Emits R m)
      → (b ≡ false → Emits R n)
      → Emits R (if b then m else n)
  Emits-if R true m n hm hn = hm refl
  Emits-if R false m n hm hn = hn refl

  -- A noted call, and what follows it.
  pub Emits-noting :
      {A B : Type 0} (Q : A → Post B) (R : Post B) (event : A → Event) (m : W → A × W)
      (f : A → Handler (State W) B)
      → ((a : A) (r : Outcome B) (e : List Event) → Q a r e → R r (e ++ event a ∷ []))
      → ((a : A) → Emits (Q a) (f a))
      → Emits R (note event m >>= f)
  Emits-noting Q R event m f both rest =
      Emits-bind (Notes event) Q R f
        (λ a e₁ r e₂ p q. subst (λ l. R r (e₂ ++ l)) (sym p) (both a r e₂ q)) (λ x e q. absurd q)
        (λ x e q. absurd q) rest (note event m) (Emits-Notes event m)

  pub Emits-get : {A : Type 0} (f : State W → A) → Emits {W = W} Harmless (λ s. (done (f s), s))
  Emits-get f = record { at = λ s. ([], refl, refl) }

  pub Emits-asked : {A : Type 0} (m : Exec W A) → Emits {W = W} Harmless (ask m)
  Emits-asked m = record { at = λ s. ([], refl, refl) }

  pub Emits-after :
      {A B : Type 0} (R : Post B) (m : Handler (State W) A) (f : A → Handler (State W) B)
      → Emits Harmless m
      → ((a : A) → Emits R (f a))
      → Emits R (m >>= f)
  Emits-after R m f first rest =
      Emits-bind Harmless (λ _. R) R f
        (λ a e₁ r e₂ q p. subst (R r) (sym (append-nil e₂) ∙ ap (λ l. e₂ ++ l) (sym q)) p)
        (λ x e q. absurd q) (λ x e q. absurd q) rest m first

module _ {W : Type 0} (env : Env W) where
  pub Emits-load : {A : Type 0} (codec : Codec A) (key : String) → Emits Quiet (load env codec key)
  unfolding load
  Emits-load codec key =
      Emits-silent (ask (env.storage_get key)) _ (Emits-ask (env.storage_get key)) λ got.
        Emits-silent (λ s. (or_fail got, s)) _ (Emits-lift (or_fail got))
          λ raw. Emits-lift (decode_or_none codec raw)

  pub Emits-get_config : Emits Quiet (get_config env)
  unfolding get_config
  Emits-get_config = Emits-load env.config_codec config_storage_path

  Emits-installed : (c : ClientConfig) → Emits Quiet (installed env c)
  unfolding installed
  Emits-installed c = record { at = λ s. ([], refl, refl) }

  Emits-build_client : (cfg : Option Config) → Emits Quiet (build_client env cfg)
  unfolding build_client
  Emits-build_client none = record { at = λ s. ([], refl, refl) }
  Emits-build_client (some cfg) =
      Emits-silent (ask (env.new_client (client_config cfg))) _
        (Emits-ask (env.new_client (client_config cfg)))
        λ made.
          Emits-silent (λ s. (or_fail made, s)) _ (Emits-lift (or_fail made))
            λ _. Emits-installed (client_config cfg)

  Emits-share_or_build : (o : Option (ℕ × ClientHandle)) → Emits Quiet (share_or_build env o)
  unfolding share_or_build
  Emits-share_or_build (some (i, h)) = record { at = λ s. ([], refl, refl) }
  Emits-share_or_build none = record {
    at = λ s.
        (Emits-silent (get_config env) (build_client env) Emits-get_config Emits-build_client).at s;
  }

  pub Emits-get_client : Emits Quiet (get_client env)
  unfolding get_client
  Emits-get_client = record { at = λ s. (Emits-share_or_build (cached s.handles)).at s }

  pub Emits-with_client :
      {A : Type 0} (R : Post A) (body : ClientConfig → Handler (State W) A)
      → ((x : Rejection) → R (rejected x) [])
      → ((x : Error) → R (failed x) [])
      → ((c : ClientConfig) → Emits R (body c))
      → Emits R (with_client env body)
  unfolding with_client
  Emits-with_client R body on_rejected on_failed inner =
      Emits-quiet R (get_client env) _ on_rejected on_failed Emits-get_client
        λ (i, c). record { at = λ s. (inner c).at s }
