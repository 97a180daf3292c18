-- ===== src/ContextMemory/Owners.antt =====
-- Whose memory a key names.
use Prim.Native.Char.{code}
use Prim.Native.String.{◌++◌ as cat}
use text.Mathlib.TextLemmas.{append_cancel_left, append_assoc, append_inj, nil-append, cons-append}
use mathlib.Core.Bool.{false≢true}
use kafka_a2a.Common.{
  String, ◌≡◌, ◌≢◌, refl, sym, ap, ◌∙◌, Bool, true, false, ◌&&◌, Option, none, some, or_text,
  nat_eq, ◌==◌, eq_iff, if◌then◌else◌, arith, Bool-cases, inl, inr,
}
use kafka_a2a.Tenancy.{Principal}
use kafka_a2a.ContextMemory.{
  ContextMemory, InMemoryContextMemoryStore, context_memory_key, get, set, get-set_other,
}

-- no `:` in the text
unfoldable pub has_no_colon : String → Bool
has_no_colon String.[] = true
has_no_colon (String.◌∷◌ c s) = if nat_eq (code c) b':' then false else has_no_colon s

-- the text up to its first `:`
unfoldable up_to_colon : String → String
up_to_colon String.[] = ""
up_to_colon (String.◌∷◌ c s) =
    let rest = up_to_colon s in if nat_eq (code c) b':' then "" else String.◌∷◌ c rest

abbrev starts_with_colon : String → Bool
starts_with_colon String.[] = false
starts_with_colon (String.◌∷◌ c s) = nat_eq (code c) b':'

nothing_before : (s y : String) → starts_with_colon s ≡ true → up_to_colon (cat s y) ≡ ""
unfolding up_to_colon
nothing_before String.[] y h = absurd cc
nothing_before (String.◌∷◌ c s) y h = rw (cons-append, h) refl

up_to_colon-append :
    (a y : String) → has_no_colon a ≡ true → up_to_colon y ≡ "" → up_to_colon (cat a y) ≡ a
unfolding up_to_colon has_no_colon
up_to_colon-append String.[] y h e = rw nil-append e
up_to_colon-append (String.◌∷◌ c a) y h e = elim (Bool-cases (nat_eq (code c) b':')) [
  | inl colon ↦ absurd (cc (rw colon at h))
  | inr other ↦
      rw (cons-append, other) (ap (λ s. String.◌∷◌ c s) (up_to_colon-append a y (rw other at h) e))
]

first_parts :
    (a b x y : String)
    → has_no_colon a ≡ true
    → has_no_colon b ≡ true
    → up_to_colon x ≡ ""
    → up_to_colon y ≡ ""
    → cat a x ≡ cat b y
    → a ≡ b
first_parts a b x y ha hb hx hy e =
    sym (up_to_colon-append a x ha hx) ∙ ap up_to_colon e ∙ up_to_colon-append b y hb hy

apart :
    (namespace x y : String) → cat namespace (cat ":context:" x) ≢ cat namespace (cat ":tenant:" y)
apart namespace x y e = false≢true (sym different ∙ eq_here)
  where
    rest : cat ":context:" x ≡ cat ":tenant:" y
    rest = append_cancel_left namespace _ _ e

    two : cat ":c" (cat "ontext:" x) ≡ cat ":t" (cat "enant:" y)
    two = sym (append_assoc ":c" "ontext:" x) ∙ rest ∙ append_assoc ":t" "enant:" y

    same : ◌≡◌ {A = String} ":c" ":t"
    same = (append_inj two refl).0

    different : ◌≡◌ {A = Bool} (":c" == ":t") false
    different = refl

    eq_here : ◌≡◌ {A = Bool} (":c" == ":t") true
    eq_here = (eq_iff ":c" ":t").1 same

-- The tenant that a key has for a principal.
abbrev pub tenant_of : Principal → String
tenant_of p = or_text p.tenant_id "-"

-- The principals are one and the same owner of memories.
abbrev pub is_same_owner : Option Principal → Option Principal → Bool
is_same_owner none none = true
is_same_owner (some p) (some q) = tenant_of p == tenant_of q && p.user_id == q.user_id
is_same_owner _ _ = false

-- Neither the tenant nor the user has a `:`.
abbrev pub is_plain : Option Principal → Bool
is_plain none = true
is_plain (some p) = has_no_colon (tenant_of p) && has_no_colon p.user_id

plain_parts :
    (r : Principal)
    → is_plain (some r) ≡ true
    → (has_no_colon (tenant_of r) ≡ true) × (has_no_colon r.user_id ≡ true)
plain_parts r h = ground arith

owners_differ :
    (namespace c c' : String) (p q : Option Principal)
    → is_plain p ≡ true
    → is_plain q ≡ true
    → is_same_owner p q ≡ false
    → context_memory_key namespace c p ≢ context_memory_key namespace c' q
unfolding context_memory_key
owners_differ namespace c c' none none hp hq d e = absurd (cc d)
owners_differ namespace c c' none (some q) hp hq d e = apart namespace _ _ e
owners_differ namespace c c' (some p) none hp hq d e = apart namespace _ _ (sym e)
owners_differ namespace c c' (some p) (some q) hp hq d e = false≢true (
    sym d
    ∙ rw ((eq_iff (tenant_of p) (tenant_of q)).1 tenants, (eq_iff p.user_id q.user_id).1 users)
        refl)
  where
    behind : String → Principal → String
    behind k r = cat ":user:" (cat r.user_id (cat ":context:" (cat k ":memory")))

    tenant_parts : cat (tenant_of p) (behind c p) ≡ cat (tenant_of q) (behind c' q)
    tenant_parts = append_cancel_left ":tenant:" _ _ (append_cancel_left namespace _ _ e)

    tenants : tenant_of p ≡ tenant_of q
    tenants =
        first_parts (tenant_of p) (tenant_of q) (behind c p) (behind c' q) (plain_parts p hp).0
          (plain_parts q hq).0 (nothing_before ":user:" _ refl) (nothing_before ":user:" _ refl)
          tenant_parts

    user_parts :
        cat p.user_id (cat ":context:" (cat c ":memory"))
        ≡ cat q.user_id (cat ":context:" (cat c' ":memory"))
    user_parts = append_cancel_left ":user:" _ _ (
        append_cancel_left (tenant_of q) _ _
          (sym (ap (λ t. cat t (behind c p)) tenants) ∙ tenant_parts))

    users : p.user_id ≡ q.user_id
    users =
        first_parts p.user_id q.user_id (cat ":context:" (cat c ":memory"))
          (cat ":context:" (cat c' ":memory")) (plain_parts p hp).1 (plain_parts q hq).1
          (nothing_before ":context:" _ refl) (nothing_before ":context:" _ refl) user_parts

-- Setting a memory for one principal, or for none, leaves what another one reads, whatever the two
-- contexts are called and however they were chosen: the two are another tenant or another user, or one
-- of them is no principal, and the tenants and the users have no `:` in them.
pub get-set_foreign :
    (now context_id other_id : String) (principal other : Option Principal) (memory : ContextMemory)
    (s : InMemoryContextMemoryStore)
    → is_plain principal ≡ true
    → is_plain other ≡ true
    → is_same_owner principal other ≡ false
    → get other_id other (set now context_id principal memory s) ≡ get other_id other s
get-set_foreign now context_id other_id principal other memory s hp hq d =
    get-set_other now context_id other_id principal other memory s
      (owners_differ s.namespace context_id other_id principal other hp hq d)
