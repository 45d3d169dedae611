-- ===== src/Geofence/Fence/Transitions.antt =====
-- The events that a standing fence of crates/latlng-geofence/src/lib.rs sends about one object, over any mutations.
use latlng.Prelude.{
  ℕ, ◌+◌, ◌≡◌, refl, sym, ap, ◌∙◌, arith, subst, String, Bool, true, false, not, ◌&&◌, Option, none,
  some, List, [], ◌∷◌, ◌++◌, Result, ok, err, ◌>>=◌, get_or, ◌==◌, ==_iff, string_key,
  if◌then◌else◌, ok_inj, ok≢err, Result-cases, Bool-cases, Option-cases, inl, inr, if-cases,
}
use latlng.Prelude.Map
use latlng.Prelude.Map.{Map, get-insert, get-remove}
use latlng.Geofence.{DetectType, enter, exit, GeofenceEvent, MutationEvent}
use latlng.Geo.Object.{Object}
use latlng.Geofence.Fence.{
  object_matches_query, Places, GeofenceDef, StoredState, StoredStateUpdate, no_state, apply,
  state_update, evaluate_static_fence, detected, inside_now, same_detect, allows, same_command,
  static_event, sent, crossed_boundary,
}

-- Whether the fence has the object inside.
abbrev pub has_inside : String → StoredState → Bool
has_inside id s = get_or (Map.get id s.objects) false

abbrev pub bit : Bool → ℕ
bit true = 1
bit false = 0

-- How many events tell of the object that it did this.
abbrev pub count : DetectType → String → List GeofenceEvent → ℕ
count d id [] = 0
count d id (g ∷ gs) = bit ((g.id == id) && same_detect g.detect d) + count d id gs

count-append :
    (d : DetectType) (id : String) (xs ys : List GeofenceEvent)
    → count d id (xs ++ ys) ≡ count d id xs + count d id ys
count-append d id [] ys = omega arith
count-append d id (x ∷ xs) ys = omega (arith, count-append d id xs ys)

get_or-if :
    (b : Bool) (o q : Option Bool)
    → get_or (if b then o else q) false ≡ (if b then get_or o false else get_or q false)
get_or-if true o q = refl
get_or-if false o q = refl

-- What goes in is what came out and what is there.
abbrev pub IsBalanced : String → StoredState → StoredState × List GeofenceEvent → Type 0
IsBalanced id s x =
    count enter id x.1 + bit (has_inside id s) ≡ count exit id x.1 + bit (has_inside id x.0)

module _ (p : Places) where
  abbrev pub taken :
      StoredState
      → Result p.GeofenceError (StoredStateUpdate × List GeofenceEvent)
      → StoredState × List GeofenceEvent
  taken s (ok x) = (apply x.0 s, x.1)
  taken s (err e) = (s, [])

  -- A mutation at a fence, as `prepare_mutation` and `apply_prepared_mutation` take it: a fence that
  -- cannot be evaluated keeps its state and sends nothing.
  abbrev pub step :
      GeofenceDef p → Option String → StoredState → MutationEvent → StoredState × List GeofenceEvent
  step def group s e = taken s (evaluate_static_fence p def s e group none)

  abbrev pub run :
      GeofenceDef p
      → Option String
      → StoredState
      → List MutationEvent
      → StoredState × List GeofenceEvent
  run def group s [] = (s, [])
  run def group s (e ∷ es) =
      let (s', xs) = step def group s e in let (t, ys) = run def group s' es in (t, xs ++ ys)

  detected-balance :
      (before now : Bool) (crossed : Result p.GeofenceError Bool) (d : DetectType)
      → detected p before now crossed ≡ ok d
      → bit (same_detect d enter) + bit before ≡ bit (same_detect d exit) + bit now
  detected-balance false true crossed d h =
      subst (λ x. bit (same_detect x enter) + 0 ≡ bit (same_detect x exit) + 1) (ok_inj h) refl
  detected-balance true true crossed d h =
      subst (λ x. bit (same_detect x enter) + 1 ≡ bit (same_detect x exit) + 1) (ok_inj h) refl
  detected-balance true false crossed d h =
      subst (λ x. bit (same_detect x enter) + 1 ≡ bit (same_detect x exit) + 0) (ok_inj h) refl
  detected-balance false false (err e) d h = elim (ok≢err d e (sym h)) [ ]
  detected-balance false false (ok true) d h =
      subst (λ x. bit (same_detect x enter) + 0 ≡ bit (same_detect x exit) + 0) (ok_inj h) refl
  detected-balance false false (ok false) d h =
      subst (λ x. bit (same_detect x enter) + 0 ≡ bit (same_detect x exit) + 0) (ok_inj h) refl

  update-inside :
      (e : MutationEvent) (def : GeofenceDef p) (now : Bool) (s : StoredState) (id : String)
      → inside_now p e def ≡ ok now
      → has_inside id (apply (state_update p e now) s)
        ≡ (if e.id == id then now else has_inside id s)
  unfolding apply
  update-inside e def now s id h = elim (Option-cases e.after) [
    | inr (o, q) ↦
        rw (q, apply)
          (ap (λ x. get_or x false) (get-insert e.id id now s.objects)
            ∙ get_or-if (e.id == id) (some now) (Map.get id s.objects))
    | inl q ↦
        rw (q, apply)
          (ap (λ x. get_or x false) (get-remove e.id id s.objects)
            ∙ get_or-if (e.id == id) none (Map.get id s.objects)
            ∙ ap (λ b. if e.id == id then b else has_inside id s) (gone q))
  ]
    where
      inside_of : Option Object → Result p.GeofenceError Bool
      inside_of none = ok false
      inside_of (some o) = object_matches_query p o def.query

      same :
          (a : Option Object)
          → inside_of a ≡ elim a [ none ↦ ok false | some o ↦ object_matches_query p o def.query ]
      same none = refl
      same (some o) = refl

      gone : e.after ≡ none → false ≡ now
      gone q = ok_inj (ap inside_of (sym q) ∙ same e.after ∙ h)

  -- What a fence that lets all events pass sends for a mutation.
  sent-balance :
      (e : MutationEvent) (def : GeofenceDef p) (group : Option String) (s : StoredState)
      (id : String) (now : Bool) (d : DetectType)
      → inside_now p e def ≡ ok now
      → detected p (has_inside e.id s) now (crossed_boundary p e def) ≡ ok d
      → (let s' = apply (state_update p e now) s in
          let sent = static_event p e d group none ∷ [] in
          count enter id sent + bit (has_inside id s) ≡ count exit id sent + bit (has_inside id s'))
  sent-balance e def group s id now d h k =
      let after = update-inside e def now s id h in
      elim (Bool-cases (e.id == id)) [
        | inl q ↦
            let same = (==_iff e.id id).0 q in
            let was = ap (λ i. bit (has_inside i s)) same in
            let is = ap (λ x. bit (if x then now else has_inside id s)) q in
            rw (q, count)
              (omega (
                arith,
                detected-balance (has_inside e.id s) now (crossed_boundary p e def) d k,
                was,
                is,
                ap bit after,
              ))
        | inr q ↦
            let is = ap (λ x. bit (if x then now else has_inside id s)) q in
            rw (q, count) (omega (arith, is, ap bit after))
      ]

  sent-all :
      (def : GeofenceDef p) (e : MutationEvent) (d : DetectType) (group : Option String)
      → def.detect ≡ []
      → def.commands ≡ []
      → static_event p e d group none ∷ [] ≡ sent p def e d group none
  sent-all def e d group a b =
      let one = static_event p e d group none ∷ [] in
      ap (λ x. if allows same_command x e.command then one else []) (sym b)
      ∙ ap
          (λ x.
            if allows same_detect x d && allows same_command def.commands e.command
            then one
            else [])
          (sym a)

  step-balance :
      (def : GeofenceDef p) (group : Option String) (s : StoredState) (e : MutationEvent)
      (id : String)
      → def.detect ≡ []
      → def.commands ≡ []
      → IsBalanced id s (step def group s e)
  unfolding evaluate_static_fence apply
  step-balance def group s e id a b =
      let Holds = λ (r : Result p.GeofenceError (StoredStateUpdate × List GeofenceEvent)).
        IsBalanced id s (taken s r) in
      let crossed = crossed_boundary p e def in
      let before = has_inside e.id s in
      if-cases Holds (not (def.collection == e.collection)) refl
        (elim (Result-cases (inside_now p e def)) [
          | inr (x, r) ↦
              subst
                (λ y. Holds (
                  y >>= λ now. detected p before now crossed >>= λ d.
                  ok (state_update p e now, sent p def e d group none)))
                (sym r) refl
          | inl (now, r) ↦
              subst
                (λ y. Holds (
                  y >>= λ now. detected p before now crossed >>= λ d.
                  ok (state_update p e now, sent p def e d group none)))
                (sym r)
                (elim (Result-cases (detected p before now crossed)) [
                  | inr (x, w) ↦
                      subst
                        (λ y.
                          Holds (y >>= λ d. ok (state_update p e now, sent p def e d group none)))
                        (sym w) refl
                  | inl (d, w) ↦
                      subst
                        (λ y.
                          Holds (y >>= λ d. ok (state_update p e now, sent p def e d group none)))
                        (sym w)
                        (subst (λ l. IsBalanced id s (apply (state_update p e now) s, l))
                          (sent-all def e d group a b) (sent-balance e def group s id now d r w))
                ])
        ])

  run-balance :
      (def : GeofenceDef p) (group : Option String) (s : StoredState) (es : List MutationEvent)
      (id : String)
      → def.detect ≡ []
      → def.commands ≡ []
      → IsBalanced id s (run def group s es)
  run-balance def group s [] id a b = refl
  run-balance def group s (e ∷ es) id a b =
      let (s', xs) = step def group s e in
      let (t, ys) = run def group s' es in
      omega (
        arith,
        step-balance def group s e id a b,
        run-balance def group s' es id a b,
        count-append enter id xs ys,
        count-append exit id xs ys,
      )

  -- A new fence that asks for all commands and all detections, and any mutations, of any objects, some of
  -- which it may not be able to evaluate. Of each object it has sent as many `enter` events as `exit`
  -- events, and one more where it has the object inside in the end.
  pub run-enter_exit :
      (def : GeofenceDef p) (group : Option String) (es : List MutationEvent) (id : String)
      → def.detect ≡ []
      → def.commands ≡ []
      → (let (t, events) = run def group no_state es in
          count enter id events ≡ count exit id events + bit (has_inside id t))
  unfolding Map.get
  run-enter_exit def group es id a b = omega (arith, run-balance def group no_state es id a b)
