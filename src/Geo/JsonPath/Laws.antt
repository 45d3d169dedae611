-- ===== src/Geo/JsonPath/Laws.antt =====
-- What the path functions do to a value: a write is read back, and a failed write changes nothing.
use latlng.Prelude.{
  ℕ, zero, suc, ◌<◌, ◌≡◌, refl, sym, ◌∙◌, ap, String, List, [], ◌∷◌, Option, none, some, true, ok,
  err, ltb, ltb→lt, ◌==◌, ==_iff, ==_refl, string_key, arith, ◌⊎◌, inl, inr, Option-cases,
  Bool-cases,
}
use latlng.Prelude.Text.{parse_usize, is_empty, split, trim_start_matches}
use latlng.Geo.Json
use latlng.Geo.Json.{
  Value, array, object, null, bool_true, bool_false, number, text, Items, nil, cons, Members,
  member, end, get, insert, get-insert,
}
use latlng.Geo.JsonPath.{
  invalid_json_path, Outcome, within, segments, get_segments, get_json_path, set_segments,
  set_json_path, set_item, set_at, set_entry, replace, entry_or_object,
}

get-replace :
    (k : String) (c d : Value) (ms : Members) → get k ms ≡ some d → get k (replace k c ms) ≡ some c
unfolding get replace
get-replace k c d end e = cc
get-replace k c d (member j w ms) e = ground (arith, get-replace k c d ms, ==_iff j k, ==_refl k)

get-set_entry : (k : String) (c : Value) (ms : Members) → get k (set_entry k c ms) ≡ some c
unfolding set_entry
get-set_entry k c ms = elim (Option-cases (get k ms)) [
  | inl e ↦ rw (e, set_entry) (get-insert k k c ms ∙ ground (arith, ==_refl k))
  | inr (d, e) ↦ rw (e, set_entry) (get-replace k c d ms e)
]

replace_self : (k : String) (c : Value) (ms : Members) → get k ms ≡ some c → replace k c ms ≡ ms
unfolding get replace
replace_self k c end e = refl
replace_self k c (member j w ms) e = ground (arith, replace_self k c ms, ==_iff j k)

get_elem?-set :
    (xs : Items) (i : ℕ) (v : Value)
    → i < Json.length xs
    → Json.get_elem? (Json.set xs i v) i ≡ some v
unfolding Json.length Json.get_elem? Json.set
get_elem?-set nil i v h = elim h [ ]
get_elem?-set (cons x xs) zero v h = refl
get_elem?-set (cons x xs) (suc i) v h = get_elem?-set xs i v (omega arith)

get_elem?-lt : (xs : Items) (i : ℕ) (v : Value) → Json.get_elem? xs i ≡ some v → i < Json.length xs
unfolding Json.length Json.get_elem?
get_elem?-lt nil i v e = cc
get_elem?-lt (cons x xs) zero v e = omega arith
get_elem?-lt (cons x xs) (suc i) v e = omega (arith, get_elem?-lt xs i v e)

set_self : (xs : Items) (i : ℕ) (v : Value) → Json.get_elem? xs i ≡ some v → Json.set xs i v ≡ xs
unfolding Json.get_elem? Json.set
set_self nil i v e = refl
set_self (cons x xs) zero v e = ground arith
set_self (cons x xs) (suc i) v e = ap (cons x) (set_self xs i v e)

entry_self : (k : String) (c : Value) (ms : Members) → get k ms ≡ some c → set_entry k c ms ≡ ms
unfolding set_entry
entry_self k c ms e = rw (e, set_entry) (replace_self k c ms e)

-- A write either fails and leaves its target as it was, or succeeds, and then the path reads the
-- new value.
abbrev WroteOrKept : Value → List String → Value → Outcome (Unit {0}) → Type 0
WroteOrKept v ks new o =
    ((o.0 ≡ ok tt) × (get_segments o.1 ks ≡ some new)) ⊎ ((o.0 ≡ err invalid_json_path) × (o.1 ≡ v))

set_segments-fresh : (ks : List String) (new : Value) → (set_segments (object end) ks new).0 ≡ ok tt
unfolding set_segments get
set_segments-fresh [] new = refl
set_segments-fresh (k ∷ []) new = refl
set_segments-fresh (k ∷ l ∷ ks) new = set_segments-fresh (l ∷ ks) new

-- A write under an entry, from the write to the entry's value.
under_entry :
    (k : String) (ks : List String) (ms : Members) (c new : Value) (o : Outcome (Unit {0}))
    → (get k ms ≡ some c) ⊎ (o.0 ≡ ok tt)
    → WroteOrKept c ks new o
    → WroteOrKept (object ms) (k ∷ ks) new (within (λ d. object (set_entry k d ms)) o)
unfolding get_segments set_entry
under_entry k ks ms c new (r, d) h (inl w) = inl (w.0, rw (get-set_entry k d ms, get_segments) w.1)
under_entry k ks ms c new (r, d) (inl e) (inr w) =
    inr (w.0, ap (λ x. object (set_entry k x ms)) w.1 ∙ ap object (entry_self k c ms e))
under_entry k ks ms c new (r, d) (inr e) (inr w) = cc

under_item :
    (k : String) (i : ℕ) (ks : List String) (xs : Items) (c new : Value) (o : Outcome (Unit {0}))
    → parse_usize k ≡ some i
    → Json.get_elem? xs i ≡ some c
    → WroteOrKept c ks new o
    → WroteOrKept (array xs) (k ∷ ks) new (within (λ d. array (Json.set xs i d)) o)
unfolding get_segments
under_item k i ks xs c new (r, d) p e (inl w) =
    inl (w.0, rw (p, get_elem?-set xs i d (get_elem?-lt xs i c e), get_segments) w.1)
under_item k i ks xs c new (r, d) p e (inr w) =
    inr (w.0, ap (λ x. array (Json.set xs i x)) w.1 ∙ ap array (set_self xs i c e))

last_item :
    (k : String) (xs : Items) (new : Value) (o : Option ℕ)
    → parse_usize k ≡ o
    → WroteOrKept (array xs) (k ∷ []) new (set_item xs o new)
unfolding get_segments set_item
last_item k xs new none p = inr (refl, refl)
last_item k xs new (some i) p = elim (Bool-cases (ltb i (Json.length xs))) [
  | inl t ↦
      rw t (
        inl (refl, rw (p, get_elem?-set xs i new (ltb→lt i (Json.length xs) t), get_segments) refl))
  | inr f ↦ rw f (inr (refl, refl))
]

at_item :
    (k : String) (ks : List String) (xs : Items) (new : Value) (write : Value → Outcome (Unit {0}))
    → ((c : Value) → WroteOrKept c ks new (write c))
    → WroteOrKept (array xs) (k ∷ ks) new (set_at xs (parse_usize k) write)
unfolding set_at
at_item k ks xs new write h = elim (Option-cases (parse_usize k)) [
  | inl p ↦ rw (p, set_at) (inr (refl, refl))
  | inr (i, p) ↦ elim (Option-cases (Json.get_elem? xs i)) [
    | inl e ↦ rw (p, set_at, e) (inr (refl, refl))
    | inr (c, e) ↦ rw (p, set_at, e) (under_item k i ks xs c new (write c) p e (h c))
  ]
]

under_member :
    (k : String) (ks : List String) (ms : Members) (c : Value)
    → get k ms ≡ some c
    → get_segments (object ms) (k ∷ ks) ≡ get_segments c ks
unfolding get_segments
under_member k ks ms c e = rw (e, get_segments) refl

set_segments_lem : (ks : List String) (v new : Value) → WroteOrKept v ks new (set_segments v ks new)
unfolding set_segments get_segments entry_or_object
set_segments_lem [] v new = inl (refl, refl)
set_segments_lem (k ∷ []) (object ms) new = inl (
  refl,
  under_member k [] (insert k new ms) new (get-insert k k new ms ∙ ground (arith, ==_refl k)),
)
set_segments_lem (k ∷ []) (array xs) new = last_item k xs new (parse_usize k) refl
set_segments_lem (k ∷ l ∷ ks) (object ms) new =
    under_entry k (l ∷ ks) ms (entry_or_object k ms) new _
      (elim (Option-cases (get k ms)) [
        | inl e ↦ inr (rw (e, entry_or_object) (set_segments-fresh (l ∷ ks) new))
        | inr (c, e) ↦ inl (rw (e, entry_or_object) refl)
      ])
      (set_segments_lem (l ∷ ks) (entry_or_object k ms) new)
set_segments_lem (k ∷ l ∷ ks) (array xs) new =
    at_item k (l ∷ ks) xs new (λ c. set_segments c (l ∷ ks) new)
      (λ c. set_segments_lem (l ∷ ks) c new)
set_segments_lem (k ∷ ks) v new = inr (refl, refl)

segments-empty : (path : String) → is_empty path ≡ true → segments path ≡ []
unfolding segments trim_start_matches split
segments-empty String.[] h = refl
segments-empty (String.◌∷◌ c s) h = cc

segments-dot : segments "." ≡ []
unfolding segments trim_start_matches split
segments-dot = refl

-- What `get_json_path` reads at a path, with the paths that name the whole value.
read_segments : (v : Value) (path : String) → get_json_path v path ≡ get_segments v (segments path)
unfolding get_json_path get_segments
read_segments v path = elim (Bool-cases (is_empty path)) [
  | inl e ↦ rw (e, segments-empty path e, get_segments) refl
  | inr e ↦ elim (Bool-cases (path == ".")) [
    | inl d ↦
        rw (e, d) (ap (get_segments v) (sym (ap segments ((==_iff path ".").0 d) ∙ segments-dot)))
    | inr d ↦ rw (e, d) refl
  ]
]

-- `set_json_path` either succeeds, and then `get_json_path` reads the new value at the same path,
-- or fails with an invalid path, and then the target is as it was.
pub set_json_path_lem :
    (v new : Value) (path : String)
    → (((set_json_path v path new).0 ≡ ok tt)
        × (get_json_path (set_json_path v path new).1 path ≡ some new))
      ⊎ (((set_json_path v path new).0 ≡ err invalid_json_path)
          × ((set_json_path v path new).1 ≡ v))
unfolding set_json_path
set_json_path_lem v new path = rw read_segments (set_segments_lem (segments path) v new)
