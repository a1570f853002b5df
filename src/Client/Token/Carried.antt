-- ===== src/Client/Token/Carried.antt =====
-- The ID that a token carries, said without splitting it (APIKeyIDFromToken of client/token.go).
use vault_plugin_secrets_tem.Prelude.{
  String, ◌≡◌, ◌↔◌, refl, sym, false, Option, none, some, List, [], ◌∷◌, All, arith,
}
use vault_plugin_secrets_tem.Prelude.Text.{is_empty, split, trim_suffix}
use vault_plugin_secrets_tem.Prelude.Text.Trim.{has_code}
use vault_plugin_secrets_tem.Prelude.Text.Split.{split-All-has_code}
use vault_plugin_secrets_tem.Prelude.Text.Dots.{
  dotted, join_dots, split-dotted, split-undotted, join_dots-split,
}
use vault_plugin_secrets_tem.Exec.{ok}
use vault_plugin_secrets_tem.Client.Token.{
  TokenCodec, claim_of, payload_of, id_of_parts, api_key_id_from_token,
}

-- A token of three parts with no dot in them, whose middle part decodes, without its padding, to a
-- payload that claims the ID; and the ID is not empty.
pub record Carries (codec : TokenCodec) (token id : String) : Type 0 where
  pub header : String
  pub body : String
  pub signature : String
  pub payload : String
  pub whole : token ≡ dotted header (dotted body signature)
  pub header_plain : has_code b'.' header ≡ false
  pub body_plain : has_code b'.' body ≡ false
  pub signature_plain : has_code b'.' signature ≡ false
  pub decoded : codec.decode_base64 (trim_suffix b'=' body) ≡ some payload
  pub claimed : codec.key_id_claim payload ≡ some id
  pub full : is_empty id ≡ false

module _ (codec : TokenCodec) where
  claim_of-ok :
      (o : Option String) (id : String)
      → claim_of codec o ≡ ok id
      → (o ≡ some id) × (is_empty id ≡ false)
  unfolding claim_of
  claim_of-ok none id h = cc
  claim_of-ok (some j) id h = ground arith

  payload_of-ok :
      (o : Option String) (id : String)
      → payload_of codec o ≡ ok id
      → (payload : String) × (o ≡ some payload)
        × (codec.key_id_claim payload ≡ some id)
        × (is_empty id ≡ false)
  unfolding payload_of
  payload_of-ok none id h = cc
  payload_of-ok (some payload) id h =
      let (claimed, full) = claim_of-ok (codec.key_id_claim payload) id h in
      (payload, refl, claimed, full)

  -- The parts are those of the token.
  id_of_parts-Carries :
      (token id : String) (parts : List String)
      → join_dots parts ≡ token
      → All (λ t. has_code b'.' t ≡ false) parts
      → id_of_parts codec parts ≡ ok id
      → Carries codec token id
  unfolding id_of_parts
  id_of_parts-Carries token id (header ∷ body ∷ signature ∷ []) same plain h =
      let (payload, decoded, claimed, full) =
        payload_of-ok (codec.decode_base64 (trim_suffix b'=' body)) id h in
      record {
        header = header;
        body = body;
        signature = signature;
        payload = payload;
        whole = sym same;
        header_plain = plain.0;
        body_plain = plain.1.0;
        signature_plain = plain.1.1.0;
        decoded = decoded;
        claimed = claimed;
        full = full;
      }
  id_of_parts-Carries token id _ same plain h = cc

  Carries-api_key_id :
      (token id : String) → Carries codec token id → api_key_id_from_token codec token ≡ ok id
  unfolding api_key_id_from_token id_of_parts payload_of claim_of
  Carries-api_key_id token id c =
      rw
        (
          c.whole,
          split-dotted c.header (dotted c.body c.signature) c.header_plain,
          split-dotted c.body c.signature c.body_plain,
          split-undotted c.signature c.signature_plain,
          c.decoded,
          c.claimed,
          c.full,
        )
        refl

  -- An ID is read out of a token exactly if the token consists of three parts with no dot in them and
  -- dots between, the middle part decodes, without its padding, to a payload that claims this ID, and
  -- the ID is not empty.
  pub api_key_id_from_token-Carries :
      (token id : String) → api_key_id_from_token codec token ≡ ok id ↔ Carries codec token id
  api_key_id_from_token-Carries token id = (
    (λ h.
        id_of_parts-Carries token id (split b'.' token) (join_dots-split token)
          (split-All-has_code b'.' token) (unfold api_key_id_from_token in h)),
    Carries-api_key_id token id,
  )
