-- ===== src/Core/Indexes/Laws.antt =====
-- What an index holds after an id is put in or taken out.
use latlng.Prelude.{
  String, some, Bool, true, false, not, ◌&&◌, ◌||◌, List, [], ◌∷◌, Ord, ◌==◌, ==_iff, ◌≡◌, refl,
  ◌∙◌, arith, string_key, if◌then◌else◌, Option-cases, inl, inr,
}
use latlng.Prelude.Map
use latlng.Prelude.Map.{Map}
use latlng.Prelude.Set
use latlng.Core.Indexes.{
  Index, is_nil, or_nil, insert_indexed_id, remove_indexed_id, remove_value, put_values,
}

contains-none : (i : String) → Set.contains i [] ≡ false
unfolding Set.contains
contains-none i = refl

contains-nil : (i : String) (s : List String) → is_nil s ≡ true → Set.contains i s ≡ false
unfolding Set.contains
contains-nil i [] h = refl
contains-nil i (x ∷ s) h = cc

module _ {K : Type 0} ⦃e : Ord K⦄ where
  -- The ids that the index gives for a field and a value.
  abbrev pub ids_of : String → K → Index K → List String
  ids_of field value index = or_nil (Map.get value (or_nil (Map.get field index)))

  -- Putting an id in adds it for its field and value, and changes nothing else that the index gives.
  pub insert_indexed_id_lem :
      (f g : String) (v w : K) (id i : String) (index : Index K)
      → Set.contains i (ids_of g w (insert_indexed_id f v id index))
        ≡ ((f == g && v == w && id == i) || Set.contains i (ids_of g w index))
  unfolding insert_indexed_id
  insert_indexed_id_lem f g v w id i index =
      let values = or_nil (Map.get f index) in
      let ids = or_nil (Map.get v values) in
      ground (
        arith,
        Map.get-insert f g (Map.insert v (Set.insert id ids) values) index,
        Map.get-insert v w (Set.insert id ids) values,
        Set.contains-insert id i ids,
        ==_iff f g,
        ==_iff v w,
      )

  nothing : (w : K) (i : String) → Set.contains i (or_nil (Map.get {V = List String} w [])) ≡ false
  unfolding Set.contains Map.get
  nothing w i = refl

  remove_ids :
      (v w : K) (id i : String) (ids : List String) (values : Map K (List String))
      → Map.get v values ≡ some ids
      → (b : Bool) → is_nil (Set.remove id ids) ≡ b
      → Set.contains i (
          or_nil (
            Map.get w (if b then Map.remove v values else Map.insert v (Set.remove id ids) values)))
        ≡ (not (v == w && id == i) && Set.contains i (or_nil (Map.get w values)))
  remove_ids v w id i ids values h true n = ground (
    arith,
    Map.get-remove v w values,
    Set.contains-remove id i ids,
    contains-nil i (Set.remove id ids) n,
    ==_iff v w,
  )
  remove_ids v w id i ids values h false n = ground (
    arith,
    Map.get-insert v w (Set.remove id ids) values,
    Set.contains-remove id i ids,
    ==_iff v w,
  )

  remove_value_lem :
      (v w : K) (id i : String) (values : Map K (List String))
      → Set.contains i (or_nil (Map.get w (remove_value v id values)))
        ≡ (not (v == w && id == i) && Set.contains i (or_nil (Map.get w values)))
  remove_value_lem v w id i values = elim (Option-cases (Map.get v values)) [
    | inl e ↦ rw (e, remove_value) (ground (arith, ==_iff v w, contains-none i))
    | inr (ids, e) ↦ rw (e, remove_value) (remove_ids v w id i ids values e _ refl)
  ]

  put_values_lem :
      (f g : String) (w : K) (i : String) (values : Map K (List String)) (index : Index K)
      → Set.contains i (ids_of g w (put_values f values index))
        ≡ Set.contains i (or_nil (Map.get w (if f == g then values else or_nil (Map.get g index))))
  put_values_lem f g w i [] index = ground (arith, Map.get-remove f g index)
  put_values_lem f g w i (x ∷ values) index = ground (arith, Map.get-insert f g (x ∷ values) index)

  -- Taking an id out removes it for its field and value, and changes nothing else that the index gives.
  pub remove_indexed_id_lem :
      (f g : String) (v w : K) (id i : String) (index : Index K)
      → Set.contains i (ids_of g w (remove_indexed_id f v id index))
        ≡ (not (f == g && v == w && id == i) && Set.contains i (ids_of g w index))
  unfolding remove_indexed_id
  remove_indexed_id_lem f g v w id i index = elim (Option-cases (Map.get f index)) [
    | inl e ↦ rw (e, remove_indexed_id) (ground (arith, ==_iff f g, nothing w i))
    | inr (values, e) ↦
        rw (e, remove_indexed_id)
          (put_values_lem f g w i (remove_value v id values) index
            ∙ ground (arith, remove_value_lem v w id i values, ==_iff f g))
  ]
