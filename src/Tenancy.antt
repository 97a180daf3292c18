-- ===== src/Tenancy.antt =====
-- src/kafka_a2a/tenancy.py, and `strip_principal_secrets_for_storage` of src/kafka_a2a/credentials.py:
-- who a request comes from, and how that is kept in a task's metadata.
-- `Principal.model_validate` and `Principal.model_dump` are pydantic's, so they are an interface.
pub mod Laws
use kafka_a2a.Common.{
  String, ◌≡◌, ◌≢◌, Bool, true, Option, none, some, List, [], ◌∷◌, ◌==◌, if◌then◌else◌, or_text,
}
use kafka_a2a.Common.Dict.{lookup, insert}
use kafka_a2a.Common.Value.{Value, Fields, Metadata, null, or_empty}

pub record Principal : Type 0 where
  pub user_id : String
  pub tenant_id : Option String
  pub bearer_token : Option String
  pub claims : Option Fields

-- `validate` gives none where pydantic raises. What is dumped validates to what it was, and what
-- validates has a user id (`min_length=1`). No principal is dumped as null.
pub record PrincipalCodec : Type 0 where
  pub validate : Value → Option Principal
  pub dump : Principal → Value
  pub validate-dump : (p : Principal) → p.user_id ≢ "" → validate (dump p) ≡ some p
  pub validate_user : (v : Value) {p : Principal} → validate v ≡ some p → p.user_id ≢ ""
  pub validate-null : validate null ≡ none

-- `PrincipalMatcher.matches`, by the field `require_tenant_match`
unfoldable pub matches : Bool → Principal → Principal → Bool
matches require_tenant_match stored request =
    if stored.user_id == request.user_id
    then (if require_tenant_match
        then or_text stored.tenant_id "" == or_text request.tenant_id ""
        else true)
    else kafka_a2a.Common.false

-- the principal without its secrets
abbrev pub without_secrets : Principal → Principal
without_secrets p = record {
  user_id = p.user_id;
  tenant_id = p.tenant_id;
  bearer_token = none;
  claims = none;
}

module _ (codec : PrincipalCodec) where
  validated : Option Value → Option Principal
  validated none = none
  validated (some null) = none
  validated (some value) = codec.validate value

  unfoldable pub extract_principal : Metadata → String → Option Principal
  unfolding validated
  extract_principal metadata key = validated (lookup key metadata)

  unfoldable pub with_principal : Metadata → Principal → String → Metadata
  with_principal metadata principal key = insert key (codec.dump principal) metadata

  unfoldable pub strip_principal_secrets_for_storage : Metadata → String → Metadata
  unfolding extract_principal
  strip_principal_secrets_for_storage [] key = []
  strip_principal_secrets_for_storage (e ∷ metadata) key =
      elim (extract_principal (e ∷ metadata) key) [
        | none ↦ e ∷ metadata
        | some principal ↦ insert key (codec.dump (without_secrets principal)) (e ∷ metadata)
      ]
