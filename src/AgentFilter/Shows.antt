-- ===== src/AgentFilter/Shows.antt =====
-- What is true of each agent that the filter shows.
use mathlib.Core.Bool.{false≢true}
use kafka_a2a.Common.{
  String, ◌≡◌, ◌≢◌, ◌⊎◌, refl, sym, ap, ◌∙◌, Bool, true, false, not, ◌&&◌, ◌||◌, ◌==◌, eq_iff, inl,
  inr, Option, none, some, List, [], ◌∷◌,
}
use kafka_a2a.Common.Dict.{Dict}
use kafka_a2a.Common.Lists.{elem, keep, All, All-keep, All-map}
use kafka_a2a.Common.Text.{strip}
use kafka_a2a.Common.Value.{Value}
use kafka_a2a.Registry.Entries.{AgentCard}
use kafka_a2a.AgentFilter.{
  Filter, card_public_slug, card_profile_id, allowed_agent_names_from_env, matches_slug_allowlist,
  is_text, is_none, required_profile, has_profile, is_excluded, is_included, is_allowed, is_public,
  is_shown, filter_agent_cards,
}

-- An allowlist that lets a card through: it is empty, or one of the names is on it, or the card is
-- included by name.
abbrev pub LetsThrough : List String → Bool → Bool → Type 0
LetsThrough allowlist matched included = (allowlist ≡ []) ⊎ ((matched ≡ true) ⊎ (included ≡ true))

through :
    (allowlist : List String) (matched included : Bool)
    → (is_none allowlist || matched || included) ≡ true
    → LetsThrough allowlist matched included
through [] matched included h = inl refl
through (n ∷ ns) true included h = inr (inl refl)
through (n ∷ ns) false included h = inr (inr h)

all_true :
    (a b c d : Bool) → (a && b && c && d) ≡ true → (a ≡ true) × (b ≡ true) × (c ≡ true) × (d ≡ true)
all_true true true true true h = (refl, refl, refl, refl)
all_true true true true false h = absurd cc
all_true true true false d h = absurd cc
all_true true false c d h = absurd cc
all_true false b c d h = absurd cc

none_of : (a b c : Bool) → not (a || b || c) ≡ true → (a ≡ false) × (b ≡ false) × (c ≡ false)
none_of false false false h = (refl, refl, refl)
none_of true b c h = absurd cc
none_of false true c h = absurd cc
none_of false false true h = absurd cc

same_text : (o : Option String) (t : String) → is_text o t ≡ true → o ≡ some t
same_text none t h = absurd cc
same_text (some s) t h = ap (λ x. some x) ((eq_iff s t).0 h)

module _ (repr : Value → String) (env : Dict String) (f : Filter) where
  pub record IsShown (card : AgentCard) : Type 0 where
    pub named : strip card.name ≢ ""
    pub name_kept : elem (strip card.name) f.exclude_names ≡ false
    pub slug_kept : elem (card_public_slug card) f.exclude_names ≡ false
    pub profile :
        (required_profile repr env f ≡ none)
        ⊎ (card_profile_id repr card ≡ required_profile repr env f)
    pub allowed :
        LetsThrough
          (allowed_agent_names_from_env env)
          (matches_slug_allowlist (strip card.name) (allowed_agent_names_from_env env)
            || matches_slug_allowlist (card_public_slug card) (allowed_agent_names_from_env env))
          (is_included repr env f card)
    pub published :
        LetsThrough f.allowed_public_slugs
          (matches_slug_allowlist (card_public_slug card) f.allowed_public_slugs)
          (is_included repr env f card)

  profile_kept :
      (required : Option String) (card : AgentCard)
      → has_profile repr env required card ≡ true
      → (required ≡ none) ⊎ (card_profile_id repr card ≡ required)
  unfolding has_profile
  profile_kept none card h = inl refl
  profile_kept (some p) card h = inr (same_text (card_profile_id repr card) p h)

  not_excluded :
      (card : AgentCard)
      → not (is_excluded repr env f card) ≡ true
      → (strip card.name ≢ "")
        × (elem (strip card.name) f.exclude_names ≡ false)
        × (elem (card_public_slug card) f.exclude_names ≡ false)
  unfolding is_excluded
  not_excluded card h =
      let (a, b, c) =
        none_of (strip card.name == "") (elem (strip card.name) f.exclude_names)
          (elem (card_public_slug card) f.exclude_names) h in
      (λ e. false≢true (sym a ∙ (eq_iff (strip card.name) "").1 e), b, c)

  shown : (card : AgentCard) → is_shown repr env f card ≡ true → IsShown card
  unfolding is_shown is_allowed is_public
  shown card h =
      let (kept, profile, allowed, public) =
        all_true (not (is_excluded repr env f card))
          (has_profile repr env (required_profile repr env f) card) (is_allowed repr env f card)
          (is_public repr env f card) h in
      let (named, name_kept, slug_kept) = not_excluded card kept in
      record {
        named = named;
        name_kept = name_kept;
        slug_kept = slug_kept;
        profile = profile_kept (required_profile repr env f) card profile;
        allowed =
            through (allowed_agent_names_from_env env)
              (matches_slug_allowlist (strip card.name) (allowed_agent_names_from_env env)
                || matches_slug_allowlist (card_public_slug card)
                    (allowed_agent_names_from_env env))
              (is_included repr env f card) allowed;
        published =
            through f.allowed_public_slugs
              (matches_slug_allowlist (card_public_slug card) f.allowed_public_slugs)
              (is_included repr env f card) public;
      }

  -- Every card that the filter shows has a name, is not excluded by its name or its public slug, has
  -- the required profile where one is required, and gets through the allowlist of the environment
  -- and that of the public slugs, each of which is empty, or matches it, or is passed because the
  -- card is included by name. Being included passes neither the exclusion nor the profile.
  pub filter_agent_cards-IsShown :
      (cards : List AgentCard) → All IsShown (filter_agent_cards repr env cards f)
  unfolding filter_agent_cards
  filter_agent_cards-IsShown cards =
      All-map shown (keep (is_shown repr env f) cards) (All-keep (is_shown repr env f) cards)
