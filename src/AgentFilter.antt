-- ===== src/AgentFilter.antt =====
-- src/kafka_a2a/agent_filter.py: which agents a host may see. A set of names is a list.
pub mod Shows
use Prim.Native.String.{◌++◌ as cat}
use text.Mathlib.Text.{starts_with}
use kafka_a2a.Common.{
  String, ◌≡◌, ◌≢◌, refl, Bool, true, false, not, ◌&&◌, ◌||◌, ◌==◌, eq_iff, Bool-cases, inl, inr,
  Option, none, some, List, [], ◌∷◌, if◌then◌else◌, or_text, is_some, get_or, is_given, arith,
}
use kafka_a2a.Common.Dict.{Dict, lookup}
use kafka_a2a.Common.Lists.{elem, keep, All, All-keep}
use kafka_a2a.Common.Text.{strip, split_commas, stripped}
use kafka_a2a.Common.Value.{Value, Fields, null, str, obj, end, get_field, text_of}
use kafka_a2a.Registry.Entries.{AgentCard}

-- `os.getenv(a) or os.getenv(b) or ""`, without its outer spaces
unfoldable pub env_text : String → String → Dict String → String
unfolding strip lookup
env_text a b env = strip (or_text (lookup a env) (or_text (lookup b env) ""))

-- `_card_extra`: the card has no attribute of the keys that are asked for, so one that it lacks is None
unfoldable pub card_extra : AgentCard → String → Value
unfolding get_field
card_extra card key = get_or (get_field key card.fields) null

abbrev pub fields_of_value : Value → Fields
fields_of_value (obj fs) = fs
fields_of_value _ = end

-- `_runtime_metadata`: the dict under "ka2aRuntime" of the metadata, else an empty one
unfoldable pub runtime_metadata : AgentCard → Fields
unfolding card_extra get_field
runtime_metadata card =
    fields_of_value
      (get_or (get_field "ka2aRuntime" (fields_of_value (card_extra card "metadata"))) null)

-- a text that is not blank, without its outer spaces
abbrev pub given_text : Value → Option String
given_text (str s) = if strip s == "" then none else some (strip s)
given_text _ = none

unfoldable pub card_public_slug : AgentCard → String
unfolding runtime_metadata card_extra strip get_field
card_public_slug card =
    elim (given_text (get_or (get_field "publicSlug" (runtime_metadata card)) null)) [
      | some slug ↦ slug
      | none ↦ elim (given_text (card_extra card "slug")) [
        | some slug ↦ slug
        | none ↦ strip card.name
      ]
    ]

-- the first value that is not None
abbrev pub first_present : Value → Value → Value
first_present null v = v
first_present v _ = v

abbrev pub none_if_blank : String → Option String
none_if_blank s = if s == "" then none else some s

abbrev pub profile_text : (Value → String) → Value → Option String
profile_text repr null = none
profile_text repr v = none_if_blank (strip (text_of repr v))

unfoldable pub card_profile_id : (Value → String) → AgentCard → Option String
unfolding runtime_metadata card_extra get_field strip text_of
card_profile_id repr card = profile_text repr (
    first_present (get_or (get_field "profileId" (runtime_metadata card)) null)
      (first_present (card_extra card "profile") (card_extra card "profile_id")))

unfoldable pub allowed_agent_names_from_env : Dict String → List String
unfolding env_text split_commas stripped
allowed_agent_names_from_env env =
    stripped
      (split_commas (env_text "KA2A_ALLOWED_DOWNSTREAM_AGENTS" "KA2A_ALLOWED_AGENT_NAMES" env))

unfoldable pub required_profile_id_from_env : Dict String → Option String
unfolding env_text
required_profile_id_from_env env =
    none_if_blank (env_text "KA2A_WORKSPACE_PROFILE_ID" "KA2A_RUNTIME_PROFILE_ID" env)

-- the value extends an allowed name by a suffix, or the other way round
unfoldable pub extends_any : String → List String → Bool
extends_any value [] = false
extends_any value (allowed ∷ rest) =
    starts_with value (cat allowed "_")
    || starts_with value (cat allowed "-")
    || starts_with allowed (cat value "_")
    || starts_with allowed (cat value "-")
    || extends_any value rest

-- `_matches_slug_allowlist`
unfoldable pub matches_slug_allowlist : String → List String → Bool
unfolding strip extends_any
matches_slug_allowlist value allowlist =
    not (strip value == "") && (elem (strip value) allowlist || extends_any (strip value) allowlist)

pub record Filter : Type 0 where
  pub exclude_names : List String
  pub include_names : List String
  pub required_profile_id : Option String
  pub allowed_public_slugs : List String

abbrev pub is_none : List String → Bool
is_none [] = true
is_none (x ∷ xs) = false

abbrev pub is_text : Option String → String → Bool
is_text none t = false
is_text (some s) t = s == t

module _ (repr : Value → String) (env : Dict String) where
  -- `required_profile_id or required_profile_id_from_env()`
  unfoldable pub required_profile : Filter → Option String
  unfolding required_profile_id_from_env
  required_profile f =
      if is_given f.required_profile_id
      then f.required_profile_id
      else required_profile_id_from_env env

  unfoldable pub has_profile : Option String → AgentCard → Bool
  unfolding card_profile_id
  has_profile none card = true
  has_profile (some required) card = is_text (card_profile_id repr card) required

  -- the tests of one round of the loop, each of which may skip the card
  unfoldable pub is_excluded : Filter → AgentCard → Bool
  unfolding strip card_public_slug
  is_excluded f card =
      (strip card.name == "")
      || elem (strip card.name) f.exclude_names
      || elem (card_public_slug card) f.exclude_names

  unfoldable pub is_included : Filter → AgentCard → Bool
  unfolding strip card_public_slug
  is_included f card =
      elem (strip card.name) f.include_names || elem (card_public_slug card) f.include_names

  unfoldable pub is_allowed : Filter → AgentCard → Bool
  unfolding allowed_agent_names_from_env matches_slug_allowlist is_included strip card_public_slug
  is_allowed f card =
      is_none (allowed_agent_names_from_env env)
      || (matches_slug_allowlist (strip card.name) (allowed_agent_names_from_env env)
          || matches_slug_allowlist (card_public_slug card) (allowed_agent_names_from_env env))
      || is_included f card

  unfoldable pub is_public : Filter → AgentCard → Bool
  unfolding matches_slug_allowlist is_included card_public_slug
  is_public f card =
      is_none f.allowed_public_slugs
      || matches_slug_allowlist (card_public_slug card) f.allowed_public_slugs
      || is_included f card

  unfoldable pub is_shown : Filter → AgentCard → Bool
  unfolding is_excluded required_profile has_profile is_allowed is_public
  is_shown f card =
      not (is_excluded f card)
      && has_profile (required_profile f) card
      && is_allowed f card
      && is_public f card

  unfoldable pub filter_agent_cards : List AgentCard → Filter → List AgentCard
  unfolding is_shown
  filter_agent_cards cards f = keep (is_shown f) cards
