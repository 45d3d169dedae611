-- ===== src/Geofence/Registry/Indexes.antt =====
-- The names by collection that the registry of crates/latlng-geofence/src/lib.rs keeps are those of its fences.
use latlng.Prelude.{
  String, Bool, true, false, not, ◌&&◌, ◌||◌, ◌≡◌, refl, sym, ap, ◌∙◌, Option, none, some, List, [],
  ◌∷◌, get_or, any, retain, ◌==◌, ==_iff, ==_refl, string_key, if◌then◌else◌, Bool-cases,
  Option-cases, inl, inr,
}
use latlng.Prelude.Map
use latlng.Prelude.Map.{Map, get-insert, get-remove}
use latlng.Geofence.Fence.{Places, GeofenceDef}
use latlng.Geofence.Names.{
  Names, collect_indexed_names, is_listed, push_index_name_lem, remove_index_name_lem,
  collect_indexed_names_lem, or-false, and-true,
}
use latlng.Geofence.Registry.{
  Table, no_fences, target_of, push_target, remove_target, del_stored, set_stored, del_each,
  pdel_stored, relevant_names, insert_indexes, remove_indexes,
}

abbrev pub is_key : Option String → String → Bool
is_key none c = false
is_key (some d) c = d == c

push_target_lem :
    (index : Names) (o : Option String) (c n m : String)
    → is_listed n c (push_target index o m) ≡ (is_listed n c index || (is_key o c && (m == n)))
push_target_lem index none c n m = or-false (is_listed n c index)
push_target_lem index (some d) c n m = push_index_name_lem index c d n m

remove_target_lem :
    (index : Names) (o : Option String) (c n m : String)
    → is_listed n c (remove_target index o m)
      ≡ (is_listed n c index && not (is_key o c && (m == n)))
remove_target_lem index none c n m = and-true (is_listed n c index)
remove_target_lem index (some d) c n m = remove_index_name_lem index c d n m

module _ {A : Type 0} (key : A → Option String) where
  -- Whether a fence of that name has that key.
  abbrev pub of_fence : String → Option A → Bool
  of_fence c none = false
  of_fence c (some a) = is_key (key a) c

  abbrev pub stands : String → String → Map String A → Bool
  stands n c stored = of_fence c (Map.get n stored)

  abbrev pub IsIndex : Map String A → Names → Type 0
  IsIndex stored index = (n c : String) → is_listed n c index ≡ stands n c stored

  pub remove-IsIndex :
      (stored : Map String A) (index : Names) (name : String) (a : A)
      → IsIndex stored index
      → Map.get name stored ≡ some a
      → IsIndex (Map.remove name stored) (remove_target index (key a) name)
  remove-IsIndex stored index name a h g n c =
      remove_target_lem index (key a) c n name
      ∙ (elim (Bool-cases (name == n)) [
        | inl q ↦
            let here : is_listed n c index ≡ is_key (key a) c =
              h n c
              ∙ ap (of_fence c) (ap (λ x. Map.get x stored) (sym ((==_iff name n).0 q)) ∙ g) in
            ap (λ b. b && not (is_key (key a) c && (name == n))) here
            ∙ ap (λ b. is_key (key a) c && not (is_key (key a) c && b)) q
            ∙ cancelled (is_key (key a) c)
            ∙ ap (λ b. of_fence c (if b then none else Map.get n stored)) (sym q)
        | inr q ↦
            ap (λ b. is_listed n c index && not (is_key (key a) c && b)) q
            ∙ kept (is_listed n c index) (is_key (key a) c)
            ∙ h n c
            ∙ ap (λ b. of_fence c (if b then none else Map.get n stored)) (sym q)
      ])
      ∙ ap (of_fence c) (sym (get-remove name n stored))
    where
      cancelled : (b : Bool) → (b && not (b && true)) ≡ false
      cancelled true = refl
      cancelled false = refl

      kept : (b d : Bool) → (b && not (d && false)) ≡ b
      kept true true = refl
      kept true false = refl
      kept false d = refl

  pub insert-IsIndex :
      (stored : Map String A) (index : Names) (name : String) (a : A)
      → IsIndex stored index
      → Map.get name stored ≡ none
      → IsIndex (Map.insert name a stored) (push_target index (key a) name)
  insert-IsIndex stored index name a h g n c =
      push_target_lem index (key a) c n name
      ∙ (elim (Bool-cases (name == n)) [
        | inl q ↦
            let here : is_listed n c index ≡ false =
              h n c
              ∙ ap (of_fence c) (ap (λ x. Map.get x stored) (sym ((==_iff name n).0 q)) ∙ g) in
            ap (λ b. b || (is_key (key a) c && (name == n))) here
            ∙ ap (λ b. is_key (key a) c && b) q
            ∙ sym (and-true (is_key (key a) c))
            ∙ ap (λ b. of_fence c (if b then some a else Map.get n stored)) (sym q)
        | inr q ↦
            ap (λ b. is_listed n c index || (is_key (key a) c && b)) q
            ∙ kept (is_listed n c index) (is_key (key a) c)
            ∙ h n c
            ∙ ap (λ b. of_fence c (if b then some a else Map.get n stored)) (sym q)
      ])
      ∙ ap (of_fence c) (sym (get-insert name n a stored))
    where
      kept : (b d : Bool) → (b || (d && false)) ≡ b
      kept true d = refl
      kept false true = refl
      kept false false = refl

module _ (p : Places) {A : Type 0} (def_of : A → GeofenceDef p) where
  abbrev pub collection_of : A → Option String
  collection_of a = some (def_of a).collection

  abbrev pub roams_to : A → Option String
  roams_to a = target_of p (def_of a).query

  -- Both lists of names are those of the fences.
  pub record IsTable (t : Table A) : Type 0 where
    pub collections : IsIndex collection_of t.stored t.by_collection
    pub targets : IsIndex roams_to t.stored t.by_target_collection

  del_stored-IsTable :
      (name : String) (t : Table A)
      → IsTable t
      → IsTable (del_stored p def_of name t).0
        × (Map.get name (del_stored p def_of name t).0.stored ≡ none)
  unfolding del_stored remove_indexes
  del_stored-IsTable name t h = elim (Option-cases (Map.get name t.stored)) [
    | inl q ↦ rw (q, del_stored) (h, q)
    | inr (a, q) ↦
        rw (q, del_stored)
          (
            record {
              collections =
                  remove-IsIndex collection_of t.stored t.by_collection name a h.collections q;
              targets = remove-IsIndex roams_to t.stored t.by_target_collection name a h.targets q;
            },
            get-remove name name t.stored
                ∙ ap (λ b. if b then none else Map.get name t.stored) (==_refl name),
          )
  ]

  set_stored-IsTable :
      (name : String) (a : A) (t : Table A) → IsTable t → IsTable (set_stored p def_of name a t)
  unfolding set_stored insert_indexes
  set_stored-IsTable name a t h =
      let t' = (del_stored p def_of name t).0 in
      let (k, q) = del_stored-IsTable name t h in
      record {
        collections =
            insert-IsIndex collection_of t'.stored t'.by_collection name a k.collections q;
        targets = insert-IsIndex roams_to t'.stored t'.by_target_collection name a k.targets q;
      }

  del_each-IsTable :
      (names : List String) (t : Table A) → IsTable t → IsTable (del_each p def_of names t)
  unfolding del_each
  del_each-IsTable [] t h = h
  del_each-IsTable (name ∷ names) t h =
      del_each-IsTable names (del_stored p def_of name t).0 (del_stored-IsTable name t h).0

  pub data Change : Type 0 where
    set : String → A → Change
    del : String → Change
    pdel : String → Change

  abbrev pub change : Table A → Change → Table A
  change t (set name a) = set_stored p def_of name a t
  change t (del name) = (del_stored p def_of name t).0
  change t (pdel pattern) = (pdel_stored p def_of pattern t).0

  abbrev pub changed : Table A → List Change → Table A
  changed t [] = t
  changed t (k ∷ ks) = changed (change t k) ks

  change-IsTable : (t : Table A) (k : Change) → IsTable t → IsTable (change t k)
  unfolding pdel_stored
  change-IsTable t (set name a) h = set_stored-IsTable name a t h
  change-IsTable t (del name) h = (del_stored-IsTable name t h).0
  change-IsTable t (pdel pattern) h =
      del_each-IsTable (retain (p.glob_match pattern) (Map.keys t.stored)) t h

  changed-IsTable : (t : Table A) (ks : List Change) → IsTable t → IsTable (changed t ks)
  changed-IsTable t [] h = h
  changed-IsTable t (k ∷ ks) h = changed-IsTable (change t k) ks (change-IsTable t k h)

  no_fences-IsTable : IsTable no_fences
  unfolding Map.get
  no_fences-IsTable = record { collections = λ n c. refl; targets = λ n c. refl }

  -- After any settings and deletions, by name and by pattern, in an empty registry: the names of channels
  -- or hooks that a mutation of a collection asks about are the names of exactly those that stand in
  -- the registry and are on that collection, or roam to it.
  pub relevant_names-changed :
      (ks : List Change) (name collection : String)
      → (let t = changed no_fences ks in
          any (λ x. x == name) (relevant_names p collection t) ≡ (
            stands collection_of name collection t.stored
            || stands roams_to name collection t.stored))
  unfolding relevant_names
  relevant_names-changed ks name collection =
      let t = changed no_fences ks in
      let h = changed-IsTable no_fences ks no_fences-IsTable in
      let first = get_or (Map.get collection t.by_collection) [] in
      collect_indexed_names_lem name (get_or (Map.get collection t.by_target_collection) [])
        (collect_indexed_names first [])
      ∙ ap (λ b. b || is_listed name collection t.by_target_collection)
          (collect_indexed_names_lem name first [] ∙ h.collections name collection)
      ∙ ap (λ b. stands collection_of name collection t.stored || b) (h.targets name collection)
