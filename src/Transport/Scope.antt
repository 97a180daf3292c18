-- ===== src/Transport/Scope.antt =====
-- `_extract_envelope_scope_fields`, and `scope_fields` of an envelope. The dict of scope fields has at
-- most its six keys, so it is a record of options.
use kafka_a2a.Common.{
  String, Option, none, some, List, [], ◌∷◌, ◌++◌, ◌==◌, is_given, if◌then◌else◌,
}
use kafka_a2a.Common.Lists.{elem}
use kafka_a2a.Common.Text.{strip}
use kafka_a2a.Common.Value.{Value, Fields, Items, null, arr, obj, cons, nil, get_field, text_of}

pub record ScopeFields : Type 0 where
  pub scope_mode : Option String
  pub structural_location_id : Option String
  pub structural_location_ids : Option (List String)
  pub stock_location_id : Option String
  pub sync_key : Option String
  pub entity_ids : Option (List String)

abbrev pub unless_blank : String → Option String
unless_blank s = if s == "" then none else some s

-- `out or None`
abbrev pub unless_empty : List String → Option (List String)
unless_empty [] = none
unless_empty (x ∷ xs) = some (x ∷ xs)

module _ (repr : Value → String) where
  unfoldable pub normalize_text : Value → Option String
  unfolding strip text_of
  normalize_text null = none
  normalize_text v = unless_blank (strip (text_of repr v))

  -- a text that is new at the end of those that are out
  abbrev pub add_new : Option String → List String → List String
  add_new none out = out
  add_new (some s) out = if elem s out then out else out ++ s ∷ []

  unfoldable pub normalize_items : Items → List String → List String
  unfolding normalize_text
  normalize_items nil out = out
  normalize_items (cons item items) out = normalize_items items (add_new (normalize_text item) out)

  unfoldable pub normalize_text_list : Value → Option (List String)
  unfolding normalize_items
  normalize_text_list (arr items) = unless_empty (normalize_items items [])
  normalize_text_list _ = none

  abbrev dict_at : String → Fields → List Fields
  dict_at key fs = elim (get_field key fs) [
    | some v ↦ elim v [ obj inner ↦ inner ∷ [] | _ ↦ [] ]
    | none ↦ []
  ]

  abbrev with_metadata : List Fields → List Fields
  with_metadata [] = []
  with_metadata (params ∷ rest) = params ∷ dict_at "metadata" params

  -- the payload, its params and their metadata, as far as they are dicts
  unfoldable pub candidates : Fields → List Fields
  unfolding get_field
  candidates payload = payload ∷ with_metadata (dict_at "params" payload)

  -- the first key of a source that has a text, or a list of texts
  unfoldable pub text_of_keys : List String → Fields → Option String
  unfolding get_field normalize_text
  text_of_keys [] source = none
  text_of_keys (key ∷ keys) source =
      let rest = text_of_keys keys source in
      elim (get_field key source) [
        | none ↦ rest
        | some v ↦ elim (normalize_text v) [ some s ↦ some s | none ↦ rest ]
      ]

  unfoldable pub first_text : List String → List Fields → Option String
  unfolding text_of_keys
  first_text keys [] = none
  first_text keys (source ∷ sources) =
      let rest = first_text keys sources in
      elim (text_of_keys keys source) [ some s ↦ some s | none ↦ rest ]

  unfoldable pub list_of_keys : List String → Fields → Option (List String)
  unfolding get_field normalize_text_list
  list_of_keys [] source = none
  list_of_keys (key ∷ keys) source =
      let rest = list_of_keys keys source in
      elim (get_field key source) [
        | none ↦ rest
        | some v ↦ elim (normalize_text_list v) [ some l ↦ some l | none ↦ rest ]
      ]

  unfoldable pub first_text_list : List String → List Fields → Option (List String)
  unfolding list_of_keys
  first_text_list keys [] = none
  first_text_list keys (source ∷ sources) =
      let rest = first_text_list keys sources in
      elim (list_of_keys keys source) [ some l ↦ some l | none ↦ rest ]

  abbrev pub no_scope : ScopeFields
  no_scope = record {
    scope_mode = none;
    structural_location_id = none;
    structural_location_ids = none;
    stock_location_id = none;
    sync_key = none;
    entity_ids = none;
  }

  unfoldable pub extract_envelope_scope_fields : Value → ScopeFields
  unfolding candidates first_text first_text_list
  extract_envelope_scope_fields (obj payload) =
      let sources = candidates payload in
      record {
        scope_mode = first_text ("scope_mode" ∷ "scopeMode" ∷ "scope" ∷ []) sources;
        structural_location_id =
            first_text
              ("structural_location_id" ∷ "structuralLocationId" ∷ "primary_structural_location_id"
                ∷ [])
              sources;
        structural_location_ids =
            first_text_list ("structural_location_ids" ∷ "structuralLocationIds" ∷ []) sources;
        stock_location_id = first_text ("stock_location_id" ∷ "stockLocationId" ∷ []) sources;
        sync_key =
            first_text ("sync_key" ∷ "syncKey" ∷ "idempotency_key" ∷ "idempotencyKey" ∷ []) sources;
        entity_ids = first_text_list ("entity_ids" ∷ "entityIds" ∷ []) sources;
      }
  extract_envelope_scope_fields _ = no_scope

abbrev pub truthy_text : Option String → Option String
truthy_text o = if is_given o then o else none

abbrev pub truthy_list : Option (List String) → Option (List String)
truthy_list none = none
truthy_list (some l) = unless_empty l

-- `scope_fields()` of an envelope with these fields
unfoldable pub scope_fields : ScopeFields → ScopeFields
scope_fields s = record {
  scope_mode = truthy_text s.scope_mode;
  structural_location_id = truthy_text s.structural_location_id;
  structural_location_ids = truthy_list s.structural_location_ids;
  stock_location_id = truthy_text s.stock_location_id;
  sync_key = truthy_text s.sync_key;
  entity_ids = truthy_list s.entity_ids;
}
