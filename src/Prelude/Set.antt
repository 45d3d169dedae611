-- ===== src/Prelude/Set.antt =====
-- Sets in key order: std's BTreeSet.
use latlng.Prelude.Key.{Ord, ◌==◌, ==_iff}
use latlng.Prelude.Lists.{All}
use latlng.Prelude.Tests.{if◌then◌else◌}
use mathlib.Core.Bool.{Bool, false, ◌||◌}
use mathlib.Core.List.{List, [], ◌∷◌}
use mathlib.Core.Path.{◌≡◌, refl}
use native.Mathlib.Omega.{arith}
use Prim.Native.Nat.{Ordering}

module _ {K : Type 0} ⦃e : Ord K⦄ where
  unfoldable pub contains : K → List K → Bool
  contains k [] = false
  contains k (j ∷ s) = j == k || contains k s

  unfoldable pub insert : K → List K → List K
  insert k [] = k ∷ []
  insert k (j ∷ s) =
      let rest = insert k s in
      elim (e.cmp j k) [ Ordering.lt ↦ j ∷ rest | Ordering.eq ↦ j ∷ s | Ordering.gt ↦ k ∷ j ∷ s ]

  unfoldable pub remove : K → List K → List K
  remove k [] = []
  remove k (j ∷ s) = let rest = remove k s in if j == k then rest else j ∷ rest

  pub contains-insert : (k j : K) (s : List K) → contains j (insert k s) ≡ (k == j || contains j s)
  unfolding contains insert
  contains-insert k j [] = refl
  contains-insert k j (i ∷ s) = ground (arith, contains-insert k j s, e.cmp-eq i k, ==_iff i j)

  pub contains-remove :
      (k j : K) (s : List K) → contains j (remove k s) ≡ (if k == j then false else contains j s)
  unfolding contains remove
  contains-remove k j [] = ground arith
  contains-remove k j (i ∷ s) =
      ground (arith, contains-remove k j s, ==_iff k j, ==_iff i k, ==_iff i j)

  -- The members rise strictly.
  abbrev pub IsSorted : List K → Type 0
  IsSorted [] = Unit
  IsSorted (k ∷ s) = All (λ j. e.cmp k j ≡ Ordering.lt) s × IsSorted s

  above-insert :
      (i k : K) (s : List K)
      → e.cmp i k ≡ Ordering.lt
      → All (λ j. e.cmp i j ≡ Ordering.lt) s
      → All (λ j. e.cmp i j ≡ Ordering.lt) (insert k s)
  unfolding insert
  above-insert i k [] h a = (h, tt)
  above-insert i k (j ∷ s) h a = ground (arith, above-insert i k s h a.1)

  above_trans :
      (i j : K) (s : List K)
      → e.cmp i j ≡ Ordering.lt
      → All (λ k. e.cmp j k ≡ Ordering.lt) s
      → All (λ k. e.cmp i k ≡ Ordering.lt) s
  above_trans i j [] h a = tt
  above_trans i j (k ∷ s) h a = (e.cmp_trans i j k h a.0, above_trans i j s h a.1)

  pub insert-IsSorted : (k : K) (s : List K) → IsSorted s → IsSorted (insert k s)
  unfolding insert
  insert-IsSorted k [] h = (tt, tt)
  insert-IsSorted k (j ∷ s) h =
      ground (arith, insert-IsSorted k s h.1, e.cmp-gt j k, above-insert j k s, above_trans k j s)

  above-remove :
      (i k : K) (s : List K)
      → All (λ j. e.cmp i j ≡ Ordering.lt) s
      → All (λ j. e.cmp i j ≡ Ordering.lt) (remove k s)
  unfolding remove
  above-remove i k [] a = tt
  above-remove i k (j ∷ s) a = ground (arith, above-remove i k s a.1)

  pub remove-IsSorted : (k : K) (s : List K) → IsSorted s → IsSorted (remove k s)
  unfolding remove
  remove-IsSorted k [] h = tt
  remove-IsSorted k (j ∷ s) h = ground (arith, remove-IsSorted k s h.1, above-remove j k s h.0)
