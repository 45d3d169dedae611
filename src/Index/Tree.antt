-- ===== src/Index/Tree.antt =====
-- The R-tree of a spatial index of crates/latlng-index/src/lib.rs and its map of entries hold the same entries. What rstar
-- documents of its tree is a hypothesis.
use latlng.Prelude.{
  String, Bool, true, false, ◌&&◌, Option, none, some, List, [], ◌∷◌, ◌≡◌, sym, ap, ◌∙◌, arith,
  ◌==◌, ==_iff, string_key, if◌then◌else◌, Option-cases, Bool-cases, inl, inr,
}
use latlng.Prelude.Map
use latlng.Geo.Float.{F64, fle}
use latlng.Geo.Bounds.{minus_180, plus_180}
use latlng.Index
use latlng.Index.{Crates, SpatialIndex, IndexedEntry, add_entry}

abbrev is_on_globe : F64 → Bool
is_on_globe x = fle minus_180 x && fle x plus_180

-- Every coordinate is from -180 to 180.
abbrev pub is_entry_on_globe : IndexedEntry → Bool
is_entry_on_globe e =
    is_on_globe e.bounds.min_lat
    && is_on_globe e.bounds.min_lon
    && is_on_globe e.bounds.max_lat
    && is_on_globe e.bounds.max_lon
    && is_on_globe e.center.0
    && is_on_globe e.center.1

abbrev pub to_list : Option IndexedEntry → List IndexedEntry
to_list none = []
to_list (some e) = e ∷ []

not_removed :
    (b : Bool) (o : Option IndexedEntry) (x : IndexedEntry)
    → (if b then none else o) ≡ some x
    → o ≡ some x
not_removed true o x h = cc
not_removed false o x h = h

-- `stored t id` lists the entries of an id that the tree iterates over, in an order that depends on
-- these entries alone. A new tree has none, an insertion adds the entry, and a removal takes out the entry
-- that is equal to the given one; what is said of the last two is where the tree has no entry of the id,
-- and just the given one. Coordinates are from -180 to 180, so that none is NaN and no area overflows.
pub record TreeLaws (c : Crates) (stored : c.RTree → String → List IndexedEntry) : Type 0 where
  pub created : (id : String) → stored c.tree_new id ≡ []
  pub inserted :
      (e : IndexedEntry) (t : c.RTree)
      → is_entry_on_globe e ≡ true
      → stored t e.id ≡ []
      → (id : String) → stored (c.tree_insert e t) id ≡ (if e.id == id then e ∷ [] else stored t id)
  pub removed :
      (e : IndexedEntry) (t : c.RTree)
      → is_entry_on_globe e ≡ true
      → stored t e.id ≡ e ∷ []
      → (id : String) → stored (c.tree_remove e t).0 id ≡ (if e.id == id then [] else stored t id)

module _ (c : Crates) (stored : c.RTree → String → List IndexedEntry)
    (laws : TreeLaws c stored) where
  -- The entries are those of their ids, and the tree has them and no others.
  abbrev pub HasTree : SpatialIndex c → Type 0
  HasTree s =
      ((id : String) (e : IndexedEntry)
        → Map.get id s.entries_by_id ≡ some e
        → (e.id ≡ id) × (is_entry_on_globe e ≡ true))
      × ((id : String) → stored s.tree id ≡ to_list (Map.get id s.entries_by_id))

  pub empty_index-HasTree : HasTree (Index.empty_index c)
  unfolding Map.get
  empty_index-HasTree = (λ id e h. cc, laws.created)

  removed_entry :
      (id j : String) (e : IndexedEntry) (s : SpatialIndex c)
      → HasTree s
      → Map.get id s.entries_by_id ≡ some e
      → stored (c.tree_remove e s.tree).0 j ≡ to_list (Map.get j (Map.remove id s.entries_by_id))
  removed_entry id j e s h k =
      let (same, on) = h.0 id e k in
      laws.removed e s.tree on (ap (stored s.tree) same ∙ h.1 id ∙ ap to_list k) j
      ∙ ground (arith, same, h.1 j, Map.get-remove id j s.entries_by_id)

  pub remove-HasTree :
      (id : String) (s : SpatialIndex c) → HasTree s → HasTree (Index.remove c id s).0
  unfolding Index.remove
  remove-HasTree id s h = elim (Option-cases (Map.get id s.entries_by_id)) [
    | inl k ↦ rw (k, Index.remove) h
    | inr (e, k) ↦
        rw (k, Index.remove)
          (
            λ j x l.
                h.0 j x (not_removed (id == j) _ x (sym (Map.get-remove id j s.entries_by_id) ∙ l)),
            λ j. removed_entry id j e s h k,
          )
  ]

  -- An entry goes in where its id has none.
  pub add_entry-HasTree :
      (e : IndexedEntry) (s : SpatialIndex c)
      → HasTree s
      → is_entry_on_globe e ≡ true
      → Map.get e.id s.entries_by_id ≡ none
      → HasTree (add_entry c e s)
  add_entry-HasTree e s h on k = (
    λ j x l. elim (Bool-cases (e.id == j)) [
      | inl q ↦ ground (arith, on, ==_iff e.id j, Map.get-insert e.id j e s.entries_by_id)
      | inr q ↦ h.0 j x (ground (arith, Map.get-insert e.id j e s.entries_by_id))
    ],
    λ j.
        laws.inserted e s.tree on (h.1 e.id ∙ ap to_list k) j
        ∙ ground (arith, h.1 j, Map.get-insert e.id j e s.entries_by_id),
  )
