-- ===== src/Tenancy/Laws.antt =====
-- What is stored about a principal, and whom it lets in.
use mathlib.Core.Option
use kafka_a2a.Common.{
  String, ◌≡◌, refl, ◌≢◌, Bool, true, false, Option, none, some, [], ◌∷◌, eq_iff, eq_refl, or_text,
  arith, inl, inr, Option-cases,
}
use kafka_a2a.Common.Dict.{lookup, insert, lookup-insert_self, lookup-insert_ne}
use kafka_a2a.Common.Value.{Value, Metadata, null}
use kafka_a2a.Tenancy.{
  Principal, PrincipalCodec, matches, extract_principal, with_principal, without_secrets,
  strip_principal_secrets_for_storage, validated,
}

-- With and without the tenant check, a principal matches itself; matching is symmetric and transitive.
pub matches_refl : (r : Bool) (p : Principal) → matches r p p ≡ true
unfolding matches
matches_refl true p = rw (eq_refl, eq_refl)
matches_refl false p = rw eq_refl

pub matches_sym : (r : Bool) (p q : Principal) → matches r p q ≡ true → matches r q p ≡ true
unfolding matches
matches_sym r p q h = ground (
  arith,
  eq_iff p.user_id q.user_id,
  eq_iff q.user_id p.user_id,
  eq_iff (or_text p.tenant_id "") (or_text q.tenant_id ""),
  eq_iff (or_text q.tenant_id "") (or_text p.tenant_id ""),
)

module _ (codec : PrincipalCodec) where
  validated-some :
      (v : Value) {p : Principal} → codec.validate v ≡ some p → validated codec (some v) ≡ some p
  unfolding validated
  validated-some null h = absurd (cc (codec.validate-null))
  validated-some _ h = h

  validated_user : (o : Option Value) {p : Principal} → validated codec o ≡ some p → p.user_id ≢ ""
  unfolding validated
  validated_user none h = cc
  validated_user (some null) h = cc
  validated_user (some v) h = codec.validate_user _ h

  pub extract_user :
      (m : Metadata) (key : String) {p : Principal}
      → extract_principal codec m key ≡ some p
      → p.user_id ≢ ""
  unfolding extract_principal
  extract_user m key h = validated_user (lookup key m) h

  -- A principal put into the metadata is the one found there.
  pub extract-with_principal :
      (m : Metadata) (p : Principal) (key : String)
      → p.user_id ≢ ""
      → extract_principal codec (with_principal codec m p key) key ≡ some p
  unfolding extract_principal with_principal
  extract-with_principal m p key h =
      rw lookup-insert_self (validated-some (codec.dump p) (codec.validate-dump p h))

  -- what is found in stripped metadata, by `without_secrets`
  pub extract-strip :
      (m : Metadata) (key : String)
      → extract_principal codec (strip_principal_secrets_for_storage codec m key) key
        ≡ Option.map without_secrets (extract_principal codec m key)
  unfolding strip_principal_secrets_for_storage lookup insert with_principal
  extract-strip [] key = refl
  extract-strip (e ∷ m) key = elim (Option-cases (extract_principal codec (e ∷ m) key)) [
    | inl absent ↦ rw (absent, strip_principal_secrets_for_storage, absent)
    | inr (p, present) ↦
        rw (present, strip_principal_secrets_for_storage)
          (extract-with_principal (e ∷ m) (without_secrets p) key
            (extract_user (e ∷ m) key present))
  ]

  -- what is kept of a principal that was found, if one was
  abbrev pub KeptOf : Option Principal → Option Principal → Type 0
  KeptOf none stored = stored ≡ none
  KeptOf (some p) stored =
      (q : Principal) × (stored ≡ some q)
      × (q.user_id ≡ p.user_id)
      × (q.tenant_id ≡ p.tenant_id)
      × (q.bearer_token ≡ none)
      × (q.claims ≡ none)

  strip_other :
      (m : Metadata) (key other : String)
      → key ≢ other
      → lookup other (strip_principal_secrets_for_storage codec m key) ≡ lookup other m
  unfolding strip_principal_secrets_for_storage
  strip_other [] key other ne = refl
  strip_other (e ∷ m) key other ne = elim (Option-cases (extract_principal codec (e ∷ m) key)) [
    | inl absent ↦ rw (absent, strip_principal_secrets_for_storage) refl
    | inr (p, present) ↦
        rw (present, strip_principal_secrets_for_storage) (lookup-insert_ne key other _ (e ∷ m) ne)
  ]

  -- Metadata that is stripped for storage has the principal of the metadata with its user and tenant,
  -- but with no bearer token and no claims; it has none where the metadata had none; and under every
  -- other key it has what the metadata had.
  pub strip-KeptOf :
      (m : Metadata) (key other : String)
      → key ≢ other
      → KeptOf
          (extract_principal codec m key)
          (extract_principal codec (strip_principal_secrets_for_storage codec m key) key)
        × (lookup other (strip_principal_secrets_for_storage codec m key) ≡ lookup other m)
  strip-KeptOf m key other ne = (
    rw (extract-strip m key) (kept_of (extract_principal codec m key)),
    strip_other m key other ne,
  )
    where
      kept_of : (o : Option Principal) → KeptOf o (Option.map without_secrets o)
      kept_of none = refl
      kept_of (some p) = (without_secrets p, refl, refl, refl, refl, refl)
