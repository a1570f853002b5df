-- ===== src/Client/Grpc/Search.antt =====
-- The search by name of client/grpc.go (FindServiceAccountByName), against the listing as a whole.
use vault_plugin_secrets_tem.Prelude.{String, ◌≡◌, ◌≢◌, ◌⊎◌, List, ◌∷◌, ◌++◌, All}
use vault_plugin_secrets_tem.Exec.{Result, ok, err}
use vault_plugin_secrets_tem.Client.Errors.{error, not_found, no_account_named}
use vault_plugin_secrets_tem.Client.{ServiceAccount}
use vault_plugin_secrets_tem.Client.Access.{spec_from_proto}
use vault_plugin_secrets_tem.Client.Service.{Role, Permission, ProtoAccount}

-- None of the accounts has the name.
abbrev pub NoneNamed : String → List ProtoAccount → Type 0
NoneNamed name sas = All (λ sa. sa.spec.name ≢ name) sas

module _ (show_role : Role → String) (show_permission : Permission → String) where
  -- An account as the engine sees it.
  abbrev pub seen : ProtoAccount → ServiceAccount
  seen sa = record {
    id = sa.id;
    resource_version = sa.resource_version;
    spec = spec_from_proto show_role show_permission sa.spec;
  }

  -- The answer to a search for a name: the account with the name before which no account has it, or
  -- NotFound, where none has it.
  abbrev pub IsFirstNamed : String → List ProtoAccount → Result ServiceAccount → Type 0
  IsFirstNamed name sas r =
      ((before after : List ProtoAccount) × (sa : ProtoAccount) × (sas ≡ before ++ sa ∷ after)
        × NoneNamed name before
        × (sa.spec.name ≡ name)
        × (r ≡ ok (seen sa)))
      ⊎ (NoneNamed name sas × (r ≡ err (error not_found (no_account_named name))))
