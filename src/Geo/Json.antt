-- ===== src/Geo/Json.antt =====
-- serde_json's `Value`, with objects in key order (its `Map` without `preserve_order`).
use latlng.Prelude.{
  ℕ, zero, suc, ◌≡◌, refl, String, Option, none, some, Ordering, ◌==◌, ==_iff, string_key, arith,
  if◌then◌else◌,
}
use latlng.Geo.Float.{F64}

pub data Number : Type 0 where
  pos_int neg_int : ℕ → Number
  float : F64 → Number

mutual
  pub data Value : Type 0 where
    null : Value
    bool_true bool_false : Value
    number : Number → Value
    text : String → Value
    array : Items → Value
    object : Members → Value

  pub data Items : Type 0 where
    nil : Items
    cons : Value → Items → Items

  pub data Members : Type 0 where
    end : Members
    member : String → Value → Members → Members

-- `Map::get`, `Map::insert` and `Map::remove`.
unfoldable pub get : String → Members → Option Value
get k end = none
get k (member j v ms) = let rest = get k ms in if j == k then some v else rest

unfoldable pub insert : String → Value → Members → Members
insert k v end = member k v end
insert k v (member j w ms) =
    let rest = insert k v ms in
    elim (string_key.cmp j k) [
      | Ordering.lt ↦ member j w rest
      | Ordering.eq ↦ member k v ms
      | Ordering.gt ↦ member k v (member j w ms)
    ]

unfoldable pub remove : String → Members → Members
remove k end = end
remove k (member j w ms) = let rest = remove k ms in if j == k then rest else member j w rest

pub get-insert :
    (k j : String) (v : Value) (ms : Members)
    → get j (insert k v ms) ≡ (if k == j then some v else get j ms)
unfolding get insert
get-insert k j v end = refl
get-insert k j v (member i w ms) = ground (
  arith,
  get-insert k j v ms,
  string_key.cmp-eq i k,
  string_key.cmp_refl i,
  ==_iff k j,
  ==_iff i j,
)

pub get-remove :
    (k j : String) (ms : Members) → get j (remove k ms) ≡ (if k == j then none else get j ms)
unfolding get remove
get-remove k j end = ground arith
get-remove k j (member i w ms) =
    ground (arith, get-remove k j ms, ==_iff k j, ==_iff i k, ==_iff i j)

-- Arrays.
unfoldable pub length : Items → ℕ
length nil = 0
length (cons x xs) = suc (length xs)

unfoldable pub get_elem? : Items → ℕ → Option Value
get_elem? nil i = none
get_elem? (cons x xs) zero = some x
get_elem? (cons x xs) (suc i) = get_elem? xs i

unfoldable pub set : Items → ℕ → Value → Items
set nil i v = nil
set (cons x xs) zero v = cons v xs
set (cons x xs) (suc i) v = cons x (set xs i v)

unfoldable pub remove_at : Items → ℕ → Items
remove_at nil i = nil
remove_at (cons x xs) zero = xs
remove_at (cons x xs) (suc i) = cons x (remove_at xs i)
