-- ===== src/Auth/Permissions.antt =====
-- What a principal may do, from the claims of its token.
use latlng.Prelude.{
  String, none, some, Bool, true, false, ◌&&◌, ◌||◌, List, [], ◌∷◌, ok, err, ◌>>=◌, any, ◌≡◌, refl,
  sym, ap, ◌∙◌, ◌==◌, string_key, nat_key, Bool-cases, Option-cases, inl, inr, bind_ok, ok_inj,
  ok≢err,
}
use latlng.Auth.{
  AuthAction, as_str, parse, same, contains, PermissionClaim, PermissionRule, ClaimsPayload,
  JwtClaims, parse_actions, rule_of, rules_of, from_payload, from_claims, matches_collection,
  allows, is_nil, unauthorized,
}
use latlng.Auth.Actions.{parse_iff}

-- The claim names the action and a pattern of the collection.
abbrev pub grants : (String → String → Bool) → AuthAction → String → PermissionClaim → Bool
grants glob_match a c claim =
    any (λ s. s == as_str a) claim.actions && matches_collection glob_match claim.collections c

parse_actions-some :
    (s : String) (ss : List String) (b : AuthAction)
    → parse s ≡ some b
    → parse_actions (s ∷ ss) ≡ (parse_actions ss >>= λ l. ok (b ∷ l))
unfolding parse_actions
parse_actions-some s ss b e = rw (e, parse_actions) refl

parse_actions-none :
    (s : String) (ss : List String) → parse s ≡ none → parse_actions (s ∷ ss) ≡ err unauthorized
unfolding parse_actions
parse_actions-none s ss e = rw (e, parse_actions) refl

same-text : (a b : AuthAction) (s : String) → parse s ≡ some b → same b a ≡ (s == as_str a)
same-text a b s e = ap (λ t. t == as_str a) ((parse_iff s b).0 e)

contains-parsed :
    (a : AuthAction) (ss : List String) (l : List AuthAction)
    → parse_actions ss ≡ ok l
    → contains a l ≡ any (λ s. s == as_str a) ss
unfolding parse_actions
contains-parsed a [] l h = ap (contains a) (sym (ok_inj h))
contains-parsed a (s ∷ ss) l h = elim (Option-cases (parse s)) [
  | inl e ↦ elim (ok≢err l unauthorized (sym h ∙ parse_actions-none s ss e)) [ ]
  | inr (b, e) ↦
      let (l', p, q) = bind_ok _ _ l (sym (parse_actions-some s ss b e) ∙ h) in
      ap (contains a) (sym (ok_inj q))
      ∙ ap (λ x. x || contains a l') (same-text a b s e)
      ∙ ap (λ x. s == as_str a || x) (contains-parsed a ss l' p)
]

rule_of-nil :
    (c : PermissionClaim)
    → (is_nil c.collections || is_nil c.actions) ≡ true
    → rule_of c ≡ err unauthorized
unfolding rule_of
rule_of-nil c e = rw e refl

rule_of-actions :
    (c : PermissionClaim)
    → (is_nil c.collections || is_nil c.actions) ≡ false
    → rule_of c
      ≡ (parse_actions c.actions >>= λ l. ok (record { patterns = c.collections; actions = l }))
unfolding rule_of
rule_of-actions c e = rw e refl

rule_of-some :
    (c : PermissionClaim) (r : PermissionRule)
    → rule_of c ≡ ok r
    → (r.patterns ≡ c.collections) × (parse_actions c.actions ≡ ok r.actions)
rule_of-some c r h = elim (Bool-cases (is_nil c.collections || is_nil c.actions)) [
  | inl e ↦ elim (ok≢err r unauthorized (sym h ∙ rule_of-nil c e)) [ ]
  | inr e ↦
      let (l, p, q) = bind_ok _ _ r (sym (rule_of-actions c e) ∙ h) in
      (ap (λ x. x.patterns) (sym (ok_inj q)), p ∙ ap (λ x. ok x.actions) (ok_inj q))
]

module _ (glob_match : String → String → Bool) where
  abbrev rule_grants : AuthAction → String → PermissionRule → Bool
  rule_grants a c r = contains a r.actions && matches_collection glob_match r.patterns c

  rules-grant :
      (a : AuthAction) (c : String) (cs : List PermissionClaim) (rs : List PermissionRule)
      → rules_of cs ≡ ok rs
      → any (rule_grants a c) rs ≡ any (grants glob_match a c) cs
  unfolding rules_of
  rules-grant a c [] rs h = ap (any (rule_grants a c)) (sym (ok_inj h))
  rules-grant a c (x ∷ cs) rs h =
      let (r, p, q) = bind_ok _ _ rs h in
      let (rs', u, v) = bind_ok _ _ rs q in
      let (m, n) = rule_of-some x r p in
      ap (any (rule_grants a c)) (sym (ok_inj v))
      ∙ ap (λ y. y || any (rule_grants a c) rs')
          (ap (λ y. y && matches_collection glob_match r.patterns c)
              (contains-parsed a x.actions r.actions n)
            ∙ ap (λ y. any (λ s. s == as_str a) x.actions && matches_collection glob_match y c) m)
      ∙ ap (λ y. grants glob_match a c x || y) (rules-grant a c cs rs' u)

  -- Where the claims are accepted, a token's principal may do an action in a collection exactly where the token is an
  -- administrator's, or one of its claims names the action and a pattern of the collection.
  pub from_payload-allows :
      (p : ClaimsPayload) (claims : JwtClaims) (key : String) (a : AuthAction) (c : String)
      → from_payload p ≡ ok claims
      → allows glob_match (from_claims key claims) a c
        ≡ (p.latlng_admin || any (grants glob_match a c) p.latlng_permissions)
  unfolding from_payload allows
  from_payload-allows p claims key a c h =
      let (rs, u, v) = bind_ok _ _ claims h in
      ap (λ x. allows glob_match (from_claims key x) a c) (sym (ok_inj v))
      ∙ ap (λ y. p.latlng_admin || y) (rules-grant a c p.latlng_permissions rs u)
