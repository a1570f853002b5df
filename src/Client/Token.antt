-- ===== src/Client/Token.antt =====
-- client/token.go: the ID that an API key carries in itself. Base64 and JSON decoding are
-- parameters, `none` where Go gives an error; a claim that is absent decodes to the empty text.
pub mod Carried
use vault_plugin_secrets_tem.Prelude.{
  String, ◌≡◌, false, Option, none, some, List, [], ◌∷◌, arith, length, if◌then◌else◌,
}
use vault_plugin_secrets_tem.Prelude.Text.{is_empty, split, trim_suffix}
use vault_plugin_secrets_tem.Exec.{Result, ok, err}
use vault_plugin_secrets_tem.Client.Errors.{
  error, invalid_argument, not_jwt, bad_payload_encoding, bad_payload, no_key_id_claim,
}

pub record TokenCodec : Type 0 where
  pub decode_base64 : String → Option String
  pub key_id_claim : String → Option String

module _ (codec : TokenCodec) where
  claim_of : Option String → Result String
  claim_of none = err (error invalid_argument bad_payload)
  claim_of (some id) = if is_empty id then err (error invalid_argument no_key_id_claim) else ok id

  payload_of : Option String → Result String
  payload_of none = err (error invalid_argument bad_payload_encoding)
  payload_of (some payload) = claim_of (codec.key_id_claim payload)

  id_of_parts : List String → Result String
  id_of_parts (header ∷ payload ∷ signature ∷ []) =
      payload_of (codec.decode_base64 (trim_suffix b'=' payload))
  id_of_parts parts = err (error invalid_argument (not_jwt (length parts)))

  -- APIKeyIDFromToken
  unfoldable pub api_key_id_from_token : String → Result String
  unfolding id_of_parts payload_of claim_of
  api_key_id_from_token token = id_of_parts (split b'.' token)
