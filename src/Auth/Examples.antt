-- ===== src/Auth/Examples.antt =====
-- Actions by their texts, and a principal from a token's claims.
use latlng.Prelude.{
  String, ◌≡◌, refl, ◌↔◌, Bool, false, ◌||◌, [], ◌∷◌, some, any, ok, ◌==◌, string_key,
}
use latlng.Auth.{
  parse, as_str, queries_read, objects_write, ClaimsPayload, JwtClaims, from_payload, from_claims,
  allows,
}
use latlng.Auth.Actions.{parse_iff}
use latlng.Auth.Permissions.{grants, from_payload-allows}

abbrev same_text : String → String → Bool
same_text p c = p == c

abbrev payload : ClaimsPayload
payload = record {
  sub = some "driver";
  latlng_permissions =
      record { collections = "fleet" ∷ []; actions = "queries:read" ∷ [] }
      ∷ record { collections = "*" ∷ []; actions = "objects:write" ∷ [] }
      ∷ [];
  latlng_admin = false;
}

abbrev claims : JwtClaims
claims = record {
  sub = some "driver";
  latlng_admin = false;
  permissions =
      record { patterns = "fleet" ∷ []; actions = queries_read ∷ [] }
      ∷ record { patterns = "*" ∷ []; actions = objects_write ∷ [] }
      ∷ [];
}

claims_read : from_payload payload ≡ ok claims
unfolding from_payload
claims_read = refl

parse_iff_example :
    (parse "queries:read" ≡ some queries_read) ↔ (as_str queries_read ≡ "queries:read")
parse_iff_example = parse_iff "queries:read" queries_read

from_payload-allows_example :
    allows same_text (from_claims "jwt:sub:driver" claims) queries_read "depot"
    ≡ (false || any (grants same_text queries_read "depot") payload.latlng_permissions)
from_payload-allows_example =
    from_payload-allows same_text payload claims "jwt:sub:driver" queries_read "depot" claims_read
