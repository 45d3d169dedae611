-- ===== src/Core/Collection/Expiry.antt =====
-- `due_expirations` against the deadlines of the objects.
use mathlib.Core.Bool.{true≢false}
use latlng.Prelude.{
  ℕ, zero, suc, ◌≤◌, String, Option, none, some, true, List, [], ◌∷◌, map, take, take_while, length,
  any, All, leb, leb→le, Ordering, ◌≡◌, refl, sym, ap, ◌∙◌, ◌↔◌, arith, ◌==◌, ==_iff, ==_refl,
  string_key, nat_key, pair_key, Bool-cases, inl, inr, Ord, Option-cases,
}
use latlng.Prelude.Map
use latlng.Prelude.Set
use latlng.Geo.Object.{Object}
use latlng.Index.{Crates}
use latlng.Core.Collection.{Collection, due_expirations}
use latlng.Core.Collection.Sync.{InSync, has_deadline, is_deadline, pair-==}

abbrev Pairs : Type 0
Pairs = List (ℕ × String)

abbrev due : ℕ → Pairs → Pairs
due now s = take_while (λ p. leb p.0 now) s

length-take_while : (now : ℕ) (s : Pairs) → length (due now s) ≤ length s
length-take_while now [] = omega arith
length-take_while now (p ∷ s) = ground (arith, length-take_while now s)

take-all : (n : ℕ) (s : Pairs) → length s ≤ n → take n s ≡ s
take-all zero [] h = refl
take-all zero (p ∷ s) h = elim h [ ]
take-all (suc n) [] h = refl
take-all (suc n) (p ∷ s) h = ap (λ r. p ∷ r) (take-all n s (omega arith))

least-first :
    (u : ℕ) (i : String) (t : ℕ) (id : String) (s : Pairs)
    → All (λ q. Ord.cmp pair_key (u, i) q ≡ Ordering.lt) s
    → Set.contains (t, id) s ≡ true
    → u ≤ t
unfolding Set.contains
least-first u i t id [] a m = cc
least-first u i t id ((v, j) ∷ s) a m =
    ground (arith, least-first u i t id s a.1, pair-== t v id j, ==_iff v t)

member-due :
    (now : ℕ) (id : String) (s : Pairs)
    → any (λ i. i == id) (map (λ p. p.1) (due now s)) ≡ true
    → (t : ℕ) × (Set.contains (t, id) s ≡ true) × (t ≤ now)
unfolding Set.contains
member-due now id [] h = cc
member-due now id ((u, i) ∷ s) h = elim (Bool-cases (leb u now)) [
  | inl e ↦ elim (Bool-cases (i == id)) [
    | inl f ↦ (u, ground (arith, pair-== u u id i, ==_refl u), leb→le u now e)
    | inr f ↦
        let rest = member-due now id s (ground (arith, h)) in
        (rest.0, ground (arith, rest.1), rest.2)
  ]
  | inr e ↦ elim (true≢false (sym h ∙ ground arith)) [ ]
]

due-member :
    (now t : ℕ) (id : String) (s : Pairs)
    → Set.IsSorted s
    → Set.contains (t, id) s ≡ true
    → t ≤ now
    → any (λ i. i == id) (map (λ p. p.1) (due now s)) ≡ true
unfolding Set.contains
due-member now t id [] h m l = cc
due-member now t id ((u, i) ∷ s) h m l =
    ground
      (arith, due-member now t id s h.1, pair-== t u id i, least-first u i t id s h.0, ==_iff u t)

-- An object's deadline, where it has one.
deadline-cases :
    (t : ℕ) (o : Option Object)
    → has_deadline t o ≡ true
    → (p : Object) × (o ≡ some p) × (p.expires_at ≡ some t)
deadline-cases t none h = cc
deadline-cases t (some p) h = elim (Option-cases p.expires_at) [
  | inl e ↦ elim (true≢false (sym h ∙ rw (e, is_deadline) refl)) [ ]
  | inr (u, e) ↦ (p, refl, e ∙ ap some ((==_iff u t).0 (sym (rw (e, is_deadline) refl) ∙ h)))
]

-- In a collection in sync, with room for every deadline, the ids that are due are those of the objects whose deadline is
-- now or before.
pub due_expirations_iff :
    (c : Crates) (s : Collection c) (now most : ℕ) (id : String)
    → InSync c s
    → Set.IsSorted s.expirations
    → length s.expirations ≤ most
    → (any (λ i. i == id) (due_expirations c now most s) ≡ true) ↔ (
        (o : Object) × (t : ℕ) × (Map.get id s.objects ≡ some o)
        × (o.expires_at ≡ some t)
        × (t ≤ now))
unfolding due_expirations
due_expirations_iff c s now most id h k l =
    let whole =
      take-all most (due now s.expirations) (omega (arith, length-take_while now s.expirations)) in
    (
      λ m.
          let (t, i, j) =
            member-due now id s.expirations
              (ap (λ x. any (λ i. i == id) (map (λ p. p.1) x)) (sym whole) ∙ m) in
          let (o, p, q) = deadline-cases t (Map.get id s.objects) (sym (h.1 t id) ∙ i) in
          (o, t, p, q, j),
      λ x.
          ap (λ y. any (λ i. i == id) (map (λ p. p.1) y)) whole
          ∙ due-member now x.1 id s.expirations k
              (h.1 x.1 id ∙ ap (has_deadline x.1) x.2 ∙ ap (is_deadline x.1) x.3 ∙ ==_refl x.1) x.4,
    )
