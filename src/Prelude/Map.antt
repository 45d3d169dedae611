-- ===== src/Prelude/Map.antt =====
-- Maps in key order: std's BTreeMap, and HashMap, whose order of iteration is unspecified.
use mathlib.Core.List.{append-nil, append_assoc}
use latlng.Prelude.Key.{Ord, ◌==◌, ==_iff}
use latlng.Prelude.Lists.{All, All-append}
use latlng.Prelude.Tests.{if◌then◌else◌}
use mathlib.Core.Bool.{Bool, true, false}
use mathlib.Core.List.{List, [], ◌∷◌, ◌++◌, map}
use mathlib.Core.Option.{Option, none, some}
use mathlib.Core.Path.{◌≡◌, refl, sym, ◌∙◌}
use native.Mathlib.Omega.{arith}
use Prim.Native.Nat.{Ordering}

abbrev pub Map : Type 0 → Type 0 → Type 0
Map K V = List (K × V)

module _ {K V : Type 0} ⦃e : Ord K⦄ where
  unfoldable pub get : K → Map K V → Option V
  get k [] = none
  get k ((j, v) ∷ m) = let rest = get k m in if j == k then some v else rest

  unfoldable pub insert : K → V → Map K V → Map K V
  insert k v [] = (k, v) ∷ []
  insert k v ((j, w) ∷ m) =
      let rest = insert k v m in
      elim (e.cmp j k) [
        | Ordering.lt ↦ (j, w) ∷ rest
        | Ordering.eq ↦ (k, v) ∷ m
        | Ordering.gt ↦ (k, v) ∷ (j, w) ∷ m
      ]

  unfoldable pub remove : K → Map K V → Map K V
  remove k [] = []
  remove k ((j, w) ∷ m) = let rest = remove k m in if j == k then rest else (j, w) ∷ rest

  pub get-insert :
      (k j : K) (v : V) (m : Map K V) → get j (insert k v m) ≡ (if k == j then some v else get j m)
  unfolding get insert
  get-insert k j v [] = refl
  get-insert k j v ((i, w) ∷ m) =
      ground (arith, get-insert k j v m, e.cmp-eq i k, e.cmp_refl i, ==_iff k j, ==_iff i j)

  -- A second write of a key hides the first.
  pub insert-insert : (k : K) (v u : V) (m : Map K V) → insert k u (insert k v m) ≡ insert k u m
  unfolding insert
  insert-insert k v u [] = ground (arith, e.cmp_refl k)
  insert-insert k v u ((j, w) ∷ m) = ground (arith, insert-insert k v u m, e.cmp_refl k)

  pub get-remove : (k j : K) (m : Map K V) → get j (remove k m) ≡ (if k == j then none else get j m)
  unfolding get remove
  get-remove k j [] = ground arith
  get-remove k j ((i, w) ∷ m) = ground (arith, get-remove k j m, ==_iff k j, ==_iff i k, ==_iff i j)

  -- What the program writes for `contains_key`, `keys` and `values`.
  abbrev pub contains_key : K → Map K V → Bool
  contains_key k m = elim (get k m) [ none ↦ false | some v ↦ true ]

  abbrev pub keys : Map K V → List K
  keys = map (λ p. p.0)

  abbrev pub values : Map K V → List V
  values = map (λ p. p.1)

  -- The keys rise strictly.
  abbrev pub IsSorted : Map K V → Type 0
  IsSorted [] = Unit
  IsSorted ((k, v) ∷ m) = All (λ p. e.cmp k p.0 ≡ Ordering.lt) m × IsSorted m

  above-insert :
      (i k : K) (v : V) (m : Map K V)
      → e.cmp i k ≡ Ordering.lt
      → All (λ p. e.cmp i p.0 ≡ Ordering.lt) m
      → All (λ p. e.cmp i p.0 ≡ Ordering.lt) (insert k v m)
  unfolding insert
  above-insert i k v [] h a = (h, tt)
  above-insert i k v ((j, w) ∷ m) h a = ground (arith, above-insert i k v m h a.1)

  above_trans :
      (i j : K) (m : Map K V)
      → e.cmp i j ≡ Ordering.lt
      → All (λ p. e.cmp j p.0 ≡ Ordering.lt) m
      → All (λ p. e.cmp i p.0 ≡ Ordering.lt) m
  above_trans i j [] h a = tt
  above_trans i j ((k, v) ∷ m) h a = (e.cmp_trans i j k h a.0, above_trans i j m h a.1)

  pub insert-IsSorted : (k : K) (v : V) (m : Map K V) → IsSorted m → IsSorted (insert k v m)
  unfolding insert
  insert-IsSorted k v [] s = (tt, tt)
  insert-IsSorted k v ((j, w) ∷ m) s = ground (
    arith,
    insert-IsSorted k v m s.1,
    e.cmp-eq j k,
    e.cmp-gt j k,
    above-insert j k v m,
    above_trans k j m,
  )

  above-remove :
      (i k : K) (m : Map K V)
      → All (λ p. e.cmp i p.0 ≡ Ordering.lt) m
      → All (λ p. e.cmp i p.0 ≡ Ordering.lt) (remove k m)
  unfolding remove
  above-remove i k [] a = tt
  above-remove i k ((j, w) ∷ m) a = ground (arith, above-remove i k m a.1)

  pub remove-IsSorted : (k : K) (m : Map K V) → IsSorted m → IsSorted (remove k m)
  unfolding remove
  remove-IsSorted k [] s = tt
  remove-IsSorted k ((j, w) ∷ m) s = ground (arith, remove-IsSorted k m s.1, above-remove j k m s.0)

  -- `insert` of every entry, in order.
  unfoldable pub insert_all : Map K V → List (K × V) → Map K V
  insert_all m [] = m
  insert_all m ((k, v) ∷ l) = insert_all (insert k v m) l

  -- Every key of the map lies below `k`.
  abbrev AllBelow : Map K V → K → Type 0
  AllBelow m k = All (λ p. e.cmp p.0 k ≡ Ordering.lt) m

  insert-last : (k : K) (v : V) (m : Map K V) → AllBelow m k → insert k v m ≡ m ++ (k, v) ∷ []
  unfolding insert
  insert-last k v [] b = refl
  insert-last k v ((j, w) ∷ m) b = ground (arith, insert-last k v m b.1)

  below-append :
      (k : K) (v : V) (m l : Map K V)
      → All (λ p. AllBelow m p.0) l
      → All (λ p. e.cmp k p.0 ≡ Ordering.lt) l
      → All (λ p. AllBelow (m ++ (k, v) ∷ []) p.0) l
  below-append k v m [] b h = tt
  below-append k v m ((j, w) ∷ l) b h =
      (All-append _ m ((k, v) ∷ []) b.0 (h.0, tt), below-append k v m l b.1 h.1)

  insert_all-append :
      (m l : Map K V) → IsSorted l → All (λ p. AllBelow m p.0) l → insert_all m l ≡ m ++ l
  unfolding insert_all
  insert_all-append m [] s b = sym (append-nil m)
  insert_all-append m ((k, v) ∷ l) s b = rw (insert-last k v m b.0) (
      insert_all-append (m ++ (k, v) ∷ []) l s.1 (below-append k v m l b.1 s.0)
      ∙ append_assoc m ((k, v) ∷ []) l)

  none-below : (l : Map K V) → All (λ p. AllBelow [] p.0) l
  none-below [] = tt
  none-below (p ∷ l) = (tt, none-below l)

  -- Rebuilding a sorted map from its entries gives it back.
  pub insert_all-entries : (l : Map K V) → IsSorted l → insert_all [] l ≡ l
  insert_all-entries l s = insert_all-append [] l s (none-below l)
