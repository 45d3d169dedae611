-- ===== src/Geofence/Names.antt =====
-- The lists of names by collection that the registry of crates/latlng-geofence/src/lib.rs keeps beside its fences.
use latlng.Prelude.{
  String, Bool, true, false, not, ◌&&◌, ◌||◌, ◌≡◌, refl, sym, ap, ◌∙◌, arith, Option, none, some,
  List, [], ◌∷◌, ◌++◌, get_or, any, retain, ◌==◌, ==_iff, string_key, if◌then◌else◌, Bool-cases,
  Option-cases, inl, inr,
}
use latlng.Prelude.Map
use latlng.Prelude.Map.{Map, get-insert, get-remove}

-- Collections with the names of their fences.
abbrev pub Names : Type 0
Names = Map String (List String)

unfoldable pub push_index_name : Names → String → String → Names
push_index_name index collection name =
    let names = get_or (Map.get collection index) [] in
    Map.insert collection (if any (λ x. x == name) names then names else names ++ name ∷ []) index

abbrev pub put_names : String → List String → Names → Names
put_names collection [] index = Map.remove collection index
put_names collection (x ∷ xs) index = Map.insert collection (x ∷ xs) index

unfoldable pub remove_index_name : Names → String → String → Names
remove_index_name index collection name = elim (Map.get collection index) [
  | none ↦ index
  | some names ↦ put_names collection (retain (λ x. not (x == name)) names) index
]

unfoldable pub has_indexed_names : Names → String → Bool
has_indexed_names index collection = elim (Map.get collection index) [
  | none ↦ false
  | some [] ↦ false
  | some (x ∷ xs) ↦ true
]

-- `seen` and `output` have the same names.
unfoldable pub collect_indexed_names : List String → List String → List String
collect_indexed_names [] output = output
collect_indexed_names (x ∷ xs) output =
    collect_indexed_names xs (if any (λ y. y == x) output then output else output ++ x ∷ [])

-- Whether a name stands under a collection.
abbrev pub is_listed : String → String → Names → Bool
is_listed name collection index = any (λ x. x == name) (get_or (Map.get collection index) [])

get_or-if :
    (b : Bool) (o q : Option (List String))
    → get_or (if b then o else q) [] ≡ (if b then get_or o [] else get_or q [])
get_or-if true o q = refl
get_or-if false o q = refl

any-append :
    (n : String) (xs : List String) (x : String)
    → any (λ y. y == n) (xs ++ x ∷ []) ≡ (any (λ y. y == n) xs || (x == n))
any-append n [] x = ground arith
any-append n (y ∷ ys) x = ground (arith, any-append n ys x)

any-retain :
    (n m : String) (xs : List String)
    → any (λ y. y == n) (retain (λ y. not (y == m)) xs) ≡ (any (λ y. y == n) xs && not (m == n))
any-retain n m [] = refl
any-retain n m (x ∷ xs) = ground (arith, any-retain n m xs, ==_iff x m, ==_iff x n, ==_iff m n)

pub or-false : (b : Bool) → b ≡ (b || false)
or-false true = refl
or-false false = refl

pub and-true : (b : Bool) → b ≡ (b && true)
and-true true = refl
and-true false = refl

or_assoc : (a b c : Bool) → ((a || b) || c) ≡ (a || (b || c))
or_assoc true b c = refl
or_assoc false b c = refl

-- A name that is there already is not pushed again.
any-pushed :
    (n m : String) (xs : List String)
    → any (λ y. y == n) (if any (λ y. y == m) xs then xs else xs ++ m ∷ [])
      ≡ (any (λ y. y == n) xs || (m == n))
any-pushed n m xs = elim (Bool-cases (any (λ y. y == m) xs)) [
  | inr q ↦ ap (λ b. any (λ y. y == n) (if b then xs else xs ++ m ∷ [])) q ∙ any-append n xs m
  | inl q ↦
      ap (λ b. any (λ y. y == n) (if b then xs else xs ++ m ∷ [])) q ∙ (elim (Bool-cases (m == n)) [
        | inl r ↦
            let there = ap (λ x. any (λ y. y == x) xs) (sym ((==_iff m n).0 r)) ∙ q in
            there ∙ ap (λ b. b || (m == n)) (sym there)
        | inr r ↦ or-false (any (λ y. y == n) xs) ∙ ap (λ b. any (λ y. y == n) xs || b) (sym r)
      ])
]

put_names_lem :
    (d c : String) (xs : List String) (index : Names)
    → get_or (Map.get c (put_names d xs index)) []
      ≡ (if d == c then xs else get_or (Map.get c index) [])
put_names_lem d c [] index =
    ap (λ o. get_or o []) (get-remove d c index) ∙ get_or-if (d == c) none (Map.get c index)
put_names_lem d c (x ∷ xs) index =
    ap (λ o. get_or o []) (get-insert d c (x ∷ xs) index)
    ∙ get_or-if (d == c) (some (x ∷ xs)) (Map.get c index)

pub push_index_name_lem :
    (index : Names) (c d n m : String)
    → is_listed n c (push_index_name index d m) ≡ (is_listed n c index || ((d == c) && (m == n)))
unfolding push_index_name
push_index_name_lem index c d n m =
    let names = get_or (Map.get d index) [] in
    let pushed = if any (λ x. x == m) names then names else names ++ m ∷ [] in
    elim (Bool-cases (d == c)) [
      | inl q ↦
          ap (λ o. any (λ x. x == n) (get_or o []))
            (get-insert d c pushed index ∙ ap (λ b. if b then some pushed else Map.get c index) q)
          ∙ any-pushed n m names
          ∙ ap (λ x. is_listed n x index || (m == n)) ((==_iff d c).0 q)
          ∙ ap (λ b. is_listed n c index || (b && (m == n))) (sym q)
      | inr q ↦
          ap (λ o. any (λ x. x == n) (get_or o []))
            (get-insert d c pushed index ∙ ap (λ b. if b then some pushed else Map.get c index) q)
          ∙ or-false (is_listed n c index)
          ∙ ap (λ b. is_listed n c index || (b && (m == n))) (sym q)
    ]

pub remove_index_name_lem :
    (index : Names) (c d n m : String)
    → is_listed n c (remove_index_name index d m)
      ≡ (is_listed n c index && not ((d == c) && (m == n)))
unfolding remove_index_name
remove_index_name_lem index c d n m = elim (Option-cases (Map.get d index)) [
  | inl q ↦
      rw (q, remove_index_name)
        (elim (Bool-cases (d == c)) [
          | inl r ↦
              let gone =
                ap (λ o. any (λ x. x == n) (get_or o []))
                  (sym (ap (λ x. Map.get x index) ((==_iff d c).0 r)) ∙ q) in
              gone ∙ ap (λ b. b && not ((d == c) && (m == n))) (sym gone)
          | inr r ↦
              and-true (is_listed n c index)
              ∙ ap (λ b. is_listed n c index && not (b && (m == n))) (sym r)
        ])
  | inr (names, q) ↦
      rw (q, remove_index_name)
        (elim (Bool-cases (d == c)) [
          | inl r ↦
              ap (any (λ x. x == n)) (
                put_names_lem d c (retain (λ x. not (x == m)) names) index
                ∙ ap
                    (λ b.
                      if b then retain (λ x. not (x == m)) names else get_or (Map.get c index) [])
                    r)
              ∙ any-retain n m names
              ∙ ap (λ o. any (λ x. x == n) (get_or o []) && not (m == n))
                  (sym q ∙ ap (λ x. Map.get x index) ((==_iff d c).0 r))
              ∙ ap (λ b. is_listed n c index && not (b && (m == n))) (sym r)
          | inr r ↦
              ap (any (λ x. x == n)) (
                put_names_lem d c (retain (λ x. not (x == m)) names) index
                ∙ ap
                    (λ b.
                      if b then retain (λ x. not (x == m)) names else get_or (Map.get c index) [])
                    r)
              ∙ and-true (is_listed n c index)
              ∙ ap (λ b. is_listed n c index && not (b && (m == n))) (sym r)
        ])
]

pub collect_indexed_names_lem :
    (n : String) (xs out : List String)
    → any (λ y. y == n) (collect_indexed_names xs out)
      ≡ (any (λ y. y == n) out || any (λ y. y == n) xs)
unfolding collect_indexed_names
collect_indexed_names_lem n [] out = or-false (any (λ y. y == n) out)
collect_indexed_names_lem n (x ∷ xs) out =
    collect_indexed_names_lem n xs (if any (λ y. y == x) out then out else out ++ x ∷ [])
    ∙ ap (λ b. b || any (λ y. y == n) xs) (any-pushed n x out)
    ∙ or_assoc (any (λ y. y == n) out) (x == n) (any (λ y. y == n) xs)
