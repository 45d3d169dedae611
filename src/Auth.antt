-- ===== src/Auth.antt =====
-- Actions, permissions and the claims of tokens, crates/latlng-auth/src/lib.rs. `glob_match` is a
-- parameter; signing and verifying tokens, and the configuration, are not modelled.
pub mod Actions
pub mod Permissions
pub mod Examples
use latlng.Prelude.{
  ℕ, String, Option, none, some, Bool, true, false, ◌&&◌, ◌||◌, not, List, [], ◌∷◌, Result, ok, err,
  ◌>>◌, ◌>>=◌, any, leb, ◌==◌, string_key, nat_key, if◌then◌else◌, Option-cases,
}
use Prim.Native.Char.{code}

pub data AuthAction : Type 0 where
  collections_list collections_create collections_delete collections_inspect : AuthAction
  objects_read objects_write objects_delete queries_read subscriptions_read : AuthAction
  hooks_manage channels_manage metrics_read admin_all : AuthAction

unfoldable pub as_str : AuthAction → String
as_str collections_list = "collections:list"
as_str collections_create = "collections:create"
as_str collections_delete = "collections:delete"
as_str collections_inspect = "collections:inspect"
as_str objects_read = "objects:read"
as_str objects_write = "objects:write"
as_str objects_delete = "objects:delete"
as_str queries_read = "queries:read"
as_str subscriptions_read = "subscriptions:read"
as_str hooks_manage = "hooks:manage"
as_str channels_manage = "channels:manage"
as_str metrics_read = "metrics:read"
as_str admin_all = "admin:*"

unfoldable pub parse : String → Option AuthAction
parse s =
    if s == "collections:list"
    then some collections_list
    else if s == "collections:create"
    then some collections_create
    else if s == "collections:delete"
    then some collections_delete
    else if s == "collections:inspect"
    then some collections_inspect
    else if s == "objects:read"
    then some objects_read
    else if s == "objects:write"
    then some objects_write
    else if s == "objects:delete"
    then some objects_delete
    else if s == "queries:read"
    then some queries_read
    else if s == "subscriptions:read"
    then some subscriptions_read
    else if s == "hooks:manage"
    then some hooks_manage
    else if s == "channels:manage"
    then some channels_manage
    else if s == "metrics:read"
    then some metrics_read
    else if s == "admin:*"
    then some admin_all
    else none

-- Equality of actions, by their texts, no two of which are the same.
abbrev pub same : AuthAction → AuthAction → Bool
same a b = as_str a == as_str b

-- The set of actions is a list, in which an action may stand twice.
pub record PermissionRule : Type 0 where
  pub patterns : List String
  pub actions : List AuthAction

abbrev pub contains : AuthAction → List AuthAction → Bool
contains a actions = any (λ b. same b a) actions

pub record PermissionClaim : Type 0 where
  pub collections : List String
  pub actions : List String

pub record ClaimsPayload : Type 0 where
  pub sub : Option String
  pub latlng_permissions : List PermissionClaim
  pub latlng_admin : Bool

pub record JwtClaims : Type 0 where
  pub sub : Option String
  pub latlng_admin : Bool
  pub permissions : List PermissionRule

pub data AuthError : Type 0 where
  unauthorized unsupported_algorithm invalid_configuration : AuthError

unfoldable pub parse_actions : List String → Result AuthError (List AuthAction)
unfolding parse
parse_actions [] = ok []
parse_actions (s ∷ ss) = elim (parse s) [
  | none ↦ err unauthorized
  | some a ↦ parse_actions ss >>= λ l. ok (a ∷ l)
]

abbrev pub is_nil : {A : Type 0} → List A → Bool
is_nil [] = true
is_nil (x ∷ xs) = false

unfoldable pub rule_of : PermissionClaim → Result AuthError PermissionRule
unfolding parse_actions
rule_of c =
    if is_nil c.collections || is_nil c.actions
    then err unauthorized
    else parse_actions c.actions >>= λ l. ok (record { patterns = c.collections; actions = l })

unfoldable pub rules_of : List PermissionClaim → Result AuthError (List PermissionRule)
unfolding rule_of
rules_of [] = ok []
rules_of (c ∷ cs) = rule_of c >>= λ r. rules_of cs >>= λ rs. ok (r ∷ rs)

unfoldable pub from_payload : ClaimsPayload → Result AuthError JwtClaims
unfolding rules_of
from_payload p = rules_of p.latlng_permissions >>= λ rs.
    ok (record { sub = p.sub; latlng_admin = p.latlng_admin; permissions = rs })

pub record AuthPrincipal : Type 0 where
  pub rate_limit_key : String
  pub admin : Bool
  pub permissions : List PermissionRule

abbrev pub open_access : AuthPrincipal
open_access = record { rate_limit_key = "open:access"; admin = true; permissions = [] }

abbrev pub service_admin : AuthPrincipal
service_admin = record { rate_limit_key = "bearer:service"; admin = true; permissions = [] }

abbrev pub anonymous : AuthPrincipal
anonymous = record { rate_limit_key = "anonymous"; admin = false; permissions = [] }

-- `from_claims`, less the key that it derives from the subject or the token.
abbrev pub from_claims : String → JwtClaims → AuthPrincipal
from_claims key c = record {
  rate_limit_key = key;
  admin = c.latlng_admin;
  permissions = c.permissions;
}

abbrev pub collection_visibility_actions : List AuthAction
collection_visibility_actions =
    collections_inspect ∷ objects_read ∷ queries_read ∷ subscriptions_read ∷ objects_write
    ∷ objects_delete ∷ hooks_manage ∷ channels_manage ∷ []

abbrev pub is_global : List String → Bool
is_global patterns = any (λ p. p == "*") patterns

unfoldable pub allows_global : AuthPrincipal → AuthAction → Bool
allows_global p a = p.admin || any (λ r. contains a r.actions && is_global r.patterns) p.permissions

unfoldable pub any_collection_permission : AuthPrincipal → AuthAction → Bool
any_collection_permission p a = p.admin || any (λ r. contains a r.actions) p.permissions

module _ (glob_match : String → String → Bool) where
  abbrev pub matches_collection : List String → String → Bool
  matches_collection patterns c = any (λ p. p == "*" || glob_match p c) patterns

  unfoldable pub allows : AuthPrincipal → AuthAction → String → Bool
  allows p a c =
      p.admin || any (λ r. contains a r.actions && matches_collection r.patterns c) p.permissions

  unfoldable pub can_view_collection : AuthPrincipal → String → Bool
  unfolding allows
  can_view_collection p c =
      if p.admin
      then true
      else allows p collections_list c && any (λ a. allows p a c) collection_visibility_actions
