-- ===== src/Geofence/Roaming/Pairs.antt =====
-- The pairs that a roaming fence of crates/latlng-geofence/src/lib.rs remembers.
use latlng.Prelude.{
  String, Bool, true, false, not, ◌&&◌, ◌||◌, ◌≡◌, refl, sym, ap, ◌∙◌, arith, Option, none, some,
  List, [], ◌∷◌, ok, ◌>>=◌, ok_inj, is_some, any, retain, ◌==◌, ==_iff, string_key, pair_key,
  if◌then◌else◌, Bool-cases, inl, inr, Ord,
}
use latlng.Prelude.Map
use latlng.Prelude.Map.{Map, get-insert, get-remove}
use latlng.Geo.Float.{F64, fle}
use latlng.Geo.Object.{Object, point_coordinates}
use latlng.Geofence.{GeofenceEvent, MutationEvent}
use latlng.Geofence.Fence.{Places, StoredState}
use latlng.Geofence.Roaming.{
  Roam, near_enough, remember_matches, reconcile_source_pairs, without_parted, matches_of,
  current_matches, roam_distance_meters,
}

get-retain :
    {K V : Type 0} ⦃e : Ord K⦄ (f : K → Bool) (k : K) (m : Map K V)
    → Map.get k (retain (λ x. f x.0) m) ≡ (if f k then Map.get k m else none)
unfolding Map.get
get-retain f k [] = ground arith
get-retain f k ((j, v) ∷ m) = elim (Bool-cases (j == k)) [
  | inl q ↦ let same = ap f ((==_iff j k).0 q) in ground (arith, get-retain f k m, same, q)
  | inr q ↦ ground (arith, get-retain f k m, q)
]

-- The pairs of a source with the targets that a list gives.
abbrev pub is_pair : String → List (String × F64) → String × String → Bool
is_pair source ms x = any (λ y. (source, y.0) == x) ms

pair-eq : (s y a b : String) → ◌==◌ {K = String × String} (s, y) (a, b) ≡ ((s == a) && (y == b))
pair-eq s y a b = ground arith

is_pair_lem :
    (s a b : String) (ms : Map String F64)
    → is_pair s ms (a, b) ≡ ((s == a) && is_some (Map.get b ms))
unfolding Map.get
is_pair_lem s a b [] = ground arith
is_pair_lem s a b ((y, d) ∷ ms) = ground (arith, pair-eq s y a b, is_pair_lem s a b ms)

-- What is remembered of a pair, by whether it begins with the source and is near.
settled :
    (s a : String) (near : Bool) (old : Option Bool)
    → (if (s == a) && near then some true else if not (a == s) || near then old else none)
      ≡ (if s == a then (if near then some true else none) else old)
settled s a near old = ground (arith, ==_iff s a, ==_iff a s)

module _ (p : Places) where
  remember_matches_lem :
      (r : Roam p) (e : MutationEvent) (source : Object) (ms : List (String × F64))
      (s : StoredState) (x : String × String)
      → Map.get x (remember_matches p r e source ms s).0.pairs
        ≡ (if is_pair source.id ms x then some true else Map.get x s.pairs)
  unfolding remember_matches
  remember_matches_lem r e source [] s x = refl
  remember_matches_lem r e source ((id, d) ∷ ms) s x =
      remember_matches_lem r e source ms
        (record s { pairs = Map.insert (source.id, id) true s.pairs }) x
      ∙ ap (λ o. if is_pair source.id ms x then some true else o)
          (get-insert (source.id, id) x true s.pairs)
      ∙ either (is_pair source.id ms x) ((source.id, id) == x)
    where
      either :
          (a b : Bool)
          → (if a then some true else if b then some true else Map.get x s.pairs)
            ≡ (if b || a then some true else Map.get x s.pairs)
      either true true = refl
      either true false = refl
      either false true = refl
      either false false = refl

  -- Two points are at most so many meters apart.
  abbrev within_meters : F64 → Option (F64 × F64) → Option (F64 × F64) → Bool
  within_meters meters (some (y, x)) (some (v, u)) =
      fle (p.haversine_distance_meters y x v u) meters
  within_meters meters (some a) none = false
  within_meters meters none b = false

  -- Another object, of which the fence's pattern matches the id, and both are points at most the fence's
  -- meters apart.
  abbrev pub is_near : Roam p → Object → Object → Bool
  is_near r source t =
      not (t.id == source.id)
      && p.glob_match r.target_pattern t.id
      && within_meters r.meters (point_coordinates source.geo) (point_coordinates t.geo)

  near_enough_lem :
      (meters : F64) (a b : Option (F64 × F64))
      → is_some (near_enough p meters a b) ≡ within_meters meters a b
  near_enough_lem meters (some (y, x)) (some (v, u)) = ground arith
  near_enough_lem meters (some a) none = refl
  near_enough_lem meters none b = refl

  -- One target in front of others, of which `f` adds those near to a map.
  one_match :
      (id b : String) (is_source fits within : Bool) (o : Option F64)
      (f : Map String F64 → Map String F64) (near : Bool) (m : Map String F64)
      → is_some o ≡ within
      → ((n : Map String F64) → is_some (Map.get b (f n)) ≡ (near || is_some (Map.get b n)))
      → is_some (
          Map.get b (
            if not fits || is_source
            then f m
            else elim o [ none ↦ f m | some d ↦ f (Map.insert id d m) ]))
        ≡ ((id == b && (not is_source && fits && within)) || near || is_some (Map.get b m))
  one_match id b true false w o f near m e h = h m ∙ ground arith
  one_match id b true true w o f near m e h = h m ∙ ground arith
  one_match id b false false w o f near m e h = h m ∙ ground arith
  one_match id b false true w none f near m e h = h m ∙ ground (arith, e)
  one_match id b false true w (some d) f near m e h =
      h (Map.insert id d m) ∙ ground (arith, e, Map.get-insert id b d m)

  current_matches_lem :
      (r : Roam p) (source : Object) (ts : List Object) (m : Map String F64) (b : String)
      → is_some (Map.get b (current_matches p r source ts m))
        ≡ (any (λ t. t.id == b && is_near r source t) ts || is_some (Map.get b m))
  unfolding current_matches roam_distance_meters
  current_matches_lem r source [] m b = refl
  current_matches_lem r source (t ∷ ts) m b =
      one_match t.id b (t.id == source.id) (p.glob_match r.target_pattern t.id)
        (within_meters r.meters (point_coordinates source.geo) (point_coordinates t.geo))
        (roam_distance_meters p source t r.meters) (current_matches p r source ts)
        (any (λ t. t.id == b && is_near r source t) ts) m
        (near_enough_lem r.meters (point_coordinates source.geo) (point_coordinates t.geo))
        (λ n. current_matches_lem r source ts n b)

  matches_of_lem :
      (r : Roam p) (source : Object) (ts : List Object) (allowed : Bool) (b : String)
      → is_some (Map.get b (matches_of p r source ts allowed))
        ≡ (allowed && any (λ t. t.id == b && is_near r source t) ts)
  unfolding Map.get
  matches_of_lem r source ts true b = current_matches_lem r source ts [] b ∙ ground arith
  matches_of_lem r source ts false b = refl

  -- A mutation of an object that roams, of which the fence can be evaluated: of the pairs that begin with
  -- the object the fence remembers in the end exactly those with another object's id where the options
  -- take the roaming object in, and a target of that id matches the pattern and is a point at most the
  -- fence's meters away; the pairs of other objects stay as they are.
  pub reconcile_source_pairs_lem :
      (r : Roam p) (e : MutationEvent) (source : Object) (targets : List Object)
      (s s' : StoredState) (events : List GeofenceEvent) (allowed : Bool) (a b : String)
      → p.matches_candidate source r.options ≡ ok allowed
      → reconcile_source_pairs p r e source targets s ≡ ok (s', events)
      → Map.get (a, b) s'.pairs ≡ (
          if source.id == a
          then (if allowed && any (λ t. t.id == b && is_near r source t) targets
              then some true
              else none)
          else Map.get (a, b) s.pairs)
  unfolding reconcile_source_pairs
  reconcile_source_pairs_lem r e source targets s s' events allowed a b h k =
      let m = matches_of p r source targets allowed in
      let made = ok_inj (
        ap
          (λ x. x >>= λ y.
            (let m' = matches_of p r source targets y in
              ok (remember_matches p r e source m' (without_parted p source m' s))))
          (sym h)
        ∙ k) in
      ap (λ x. Map.get (a, b) x.0.pairs) (sym made)
      ∙ remember_matches_lem r e source m (without_parted p source m s) (a, b)
      ∙ ap (λ o. if is_pair source.id m (a, b) then some true else o)
          (get-retain (λ x. not (x.0 == source.id) || is_some (Map.get x.1 m)) (a, b) s.pairs)
      ∙ ap
          (λ c.
            if c
            then some true
            else if not (a == source.id) || is_some (Map.get b m)
            then Map.get (a, b) s.pairs
            else none)
          (is_pair_lem source.id a b m)
      ∙ settled source.id a (is_some (Map.get b m)) (Map.get (a, b) s.pairs)
      ∙ ap
          (λ near.
            if source.id == a then (if near then some true else none) else Map.get (a, b) s.pairs)
          (matches_of_lem r source targets allowed b)
