-- ===== src/Transport/Envelope.antt =====
-- The scope fields that a client puts on an envelope and those that an agent reads from it.
use kafka_a2a.Common.{
  String, ◌≡◌, refl, Bool-cases, Option-cases, inl, inr, Option, none, some, List, [], ◌∷◌, ◌==◌,
}
use kafka_a2a.Common.Value.{Value, Fields, null, bool, nonneg, neg, float, str, arr, obj, get_field}
use kafka_a2a.Transport.Scope.{
  unless_blank, unless_empty, normalize_text, normalize_text_list, text_of_keys, first_text,
  list_of_keys, first_text_list, extract_envelope_scope_fields, truthy_text, truthy_list,
  scope_fields,
}

unless_blank-truthy : (s : String) → truthy_text (unless_blank s) ≡ unless_blank s
unless_blank-truthy s = elim (Bool-cases (s == "")) [ inl e ↦ rw e refl | inr e ↦ rw (e, e) refl ]

unless_empty-truthy : (l : List String) → truthy_list (unless_empty l) ≡ unless_empty l
unless_empty-truthy [] = refl
unless_empty-truthy (x ∷ xs) = refl

module _ (repr : Value → String) where
  normalize_text-truthy : (v : Value) → truthy_text (normalize_text repr v) ≡ normalize_text repr v
  unfolding normalize_text
  normalize_text-truthy null = refl
  normalize_text-truthy (bool b) = unless_blank-truthy _
  normalize_text-truthy (nonneg n) = unless_blank-truthy _
  normalize_text-truthy (neg n) = unless_blank-truthy _
  normalize_text-truthy (float s) = unless_blank-truthy _
  normalize_text-truthy (str s) = unless_blank-truthy _
  normalize_text-truthy (arr xs) = unless_blank-truthy _
  normalize_text-truthy (obj fs) = unless_blank-truthy _

  normalize_text_list-truthy :
      (v : Value) → truthy_list (normalize_text_list repr v) ≡ normalize_text_list repr v
  unfolding normalize_text_list
  normalize_text_list-truthy (arr items) = unless_empty-truthy _
  normalize_text_list-truthy null = refl
  normalize_text_list-truthy (bool b) = refl
  normalize_text_list-truthy (nonneg n) = refl
  normalize_text_list-truthy (neg n) = refl
  normalize_text_list-truthy (float s) = refl
  normalize_text_list-truthy (str s) = refl
  normalize_text_list-truthy (obj fs) = refl

  -- of two options that a test keeps, the first that is there is kept
  or_kept :
      {A : Type 0} (kept : Option A → Option A) (o rest : Option A)
      → kept o ≡ o
      → kept rest ≡ rest
      → kept (elim o [ some s ↦ some s | none ↦ rest ]) ≡ (elim o [ some s ↦ some s | none ↦ rest ])
  or_kept kept none rest h k = k
  or_kept kept (some s) rest h k = h

  text_of_keys-truthy :
      (keys : List String) (fs : Fields)
      → truthy_text (text_of_keys repr keys fs) ≡ text_of_keys repr keys fs
  unfolding text_of_keys
  text_of_keys-truthy [] fs = refl
  text_of_keys-truthy (key ∷ keys) fs = elim (Option-cases (get_field key fs)) [
    | inl e ↦ rw (e, text_of_keys) (text_of_keys-truthy keys fs)
    | inr (v, e) ↦
        rw (e, text_of_keys)
          (or_kept truthy_text (normalize_text repr v) _ (normalize_text-truthy v)
            (text_of_keys-truthy keys fs))
  ]

  first_text-truthy :
      (keys : List String) (sources : List Fields)
      → truthy_text (first_text repr keys sources) ≡ first_text repr keys sources
  unfolding first_text
  first_text-truthy keys [] = refl
  first_text-truthy keys (fs ∷ sources) =
      or_kept truthy_text (text_of_keys repr keys fs) _ (text_of_keys-truthy keys fs)
        (first_text-truthy keys sources)

  list_of_keys-truthy :
      (keys : List String) (fs : Fields)
      → truthy_list (list_of_keys repr keys fs) ≡ list_of_keys repr keys fs
  unfolding list_of_keys
  list_of_keys-truthy [] fs = refl
  list_of_keys-truthy (key ∷ keys) fs = elim (Option-cases (get_field key fs)) [
    | inl e ↦ rw (e, list_of_keys) (list_of_keys-truthy keys fs)
    | inr (v, e) ↦
        rw (e, list_of_keys)
          (or_kept truthy_list (normalize_text_list repr v) _ (normalize_text_list-truthy v)
            (list_of_keys-truthy keys fs))
  ]

  first_text_list-truthy :
      (keys : List String) (sources : List Fields)
      → truthy_list (first_text_list repr keys sources) ≡ first_text_list repr keys sources
  unfolding first_text_list
  first_text_list-truthy keys [] = refl
  first_text_list-truthy keys (fs ∷ sources) =
      or_kept truthy_list (list_of_keys repr keys fs) _ (list_of_keys-truthy keys fs)
        (first_text_list-truthy keys sources)

  -- The scope fields that are extracted from a payload and put on an envelope are those that
  -- `scope_fields` reads from it: none is lost and none is added.
  pub scope_fields-extract :
      (v : Value)
      → scope_fields (extract_envelope_scope_fields repr v) ≡ extract_envelope_scope_fields repr v
  unfolding scope_fields extract_envelope_scope_fields
  scope_fields-extract (obj payload) = simp (first_text-truthy, first_text_list-truthy)
  scope_fields-extract null = refl
  scope_fields-extract (bool b) = refl
  scope_fields-extract (nonneg n) = refl
  scope_fields-extract (neg n) = refl
  scope_fields-extract (float s) = refl
  scope_fields-extract (str s) = refl
  scope_fields-extract (arr xs) = refl
