-- ===== src/Geofence/Mutations/Delivery.antt =====
-- Which subscriber of the registry of crates/latlng-geofence/src/lib.rs gets which events.
use latlng.Prelude.{
  ℕ, String, Bool, true, false, ◌≡◌, refl, ap, ◌∙◌, Option, none, some, List, [], ◌∷◌, map, retain,
  if◌then◌else◌,
}
use latlng.Platform.{MailboxState, push}
use latlng.Geofence.{GeofenceEvent}
use latlng.Geofence.Fence.{Places}
use latlng.Geofence.Registry.{Subscriber, GeofenceRegistry}
use latlng.Geofence.Mutations.{
  PreparedMutation, wants, sent_to, publish, publish_all, apply_prepared_mutation,
}

-- An event as it is sent.
abbrev pub stamped : ℕ → GeofenceEvent → GeofenceEvent
stamped generation e = record e { generation = generation }

abbrev pub push_all : List GeofenceEvent → MailboxState GeofenceEvent → MailboxState GeofenceEvent
push_all [] m = m
push_all (e ∷ es) m = push_all es (push m e)

module _ (p : Places) where
  abbrev pub is_wanted : Subscriber p → GeofenceEvent → Bool
  is_wanted s e = elim e.group [ none ↦ false | some group ↦ wants p s group ]

  -- A subscriber after events: those it asked for, in their order.
  abbrev pub served : ℕ → List GeofenceEvent → Subscriber p → Subscriber p
  served generation es s = record s {
    sender = push_all (map (stamped generation) (retain (is_wanted s) es)) s.sender;
  }

  sent_to-served :
      (generation : ℕ) (e : GeofenceEvent) (es : List GeofenceEvent) (s : Subscriber p)
      → served generation es (sent_to p (stamped generation e) s) ≡ served generation (e ∷ es) s
  sent_to-served generation e es s = go e.group
    where
      branch :
          (b : Bool) (x : GeofenceEvent)
          → served generation es
              (if b then record s { sender = push s.sender (stamped generation x) } else s)
            ≡ record s {
              sender =
                  push_all
                    (map
                      (stamped generation)
                      (if b then x ∷ retain (is_wanted s) es else retain (is_wanted s) es))
                    s.sender;
            }
      branch true x = refl
      branch false x = refl

      go :
          (group : Option String)
          → served generation es (sent_to p (record (stamped generation e) { group = group }) s)
            ≡ served generation (record e { group = group } ∷ es) s
      go none = refl
      go (some group) = branch (wants p s group) (record e { group = some group })

  publish-map :
      (e : GeofenceEvent) (ss : List (Subscriber p)) → publish p e ss ≡ map (sent_to p e) ss
  unfolding publish
  publish-map e [] = refl
  publish-map e (s ∷ ss) = ap (λ l. sent_to p e s ∷ l) (publish-map e ss)

  map-map :
      (f g : Subscriber p → Subscriber p) (ss : List (Subscriber p))
      → map f (map g ss) ≡ map (λ s. f (g s)) ss
  map-map f g [] = refl
  map-map f g (s ∷ ss) = ap (λ l. f (g s) ∷ l) (map-map f g ss)

  map-same :
      (f g : Subscriber p → Subscriber p) (ss : List (Subscriber p))
      → ((s : Subscriber p) → f s ≡ g s)
      → map f ss ≡ map g ss
  map-same f g [] h = refl
  map-same f g (s ∷ ss) h = ap (λ x. x ∷ map f ss) (h s) ∙ ap (λ l. g s ∷ l) (map-same f g ss h)

  publish_all-map :
      (generation : ℕ) (es : List GeofenceEvent) (ss : List (Subscriber p))
      → publish_all p generation es ss ≡ map (served generation es) ss
  unfolding publish_all
  publish_all-map generation [] ss = same ss
    where
      same : (l : List (Subscriber p)) → l ≡ map (served generation []) l
      same [] = refl
      same (s ∷ l) = ap (λ k. s ∷ k) (same l)
  publish_all-map generation (e ∷ es) ss =
      publish_all-map generation es (publish p (stamped generation e) ss)
      ∙ ap (map (served generation es)) (publish-map (stamped generation e) ss)
      ∙ map-map (served generation es) (sent_to p (stamped generation e)) ss
      ∙ map-same (λ s. served generation es (sent_to p (stamped generation e) s))
          (served generation (e ∷ es)) ss (sent_to-served generation e es)

  -- When a prepared mutation is applied, the mailbox of each subscriber is pushed those of its events, in
  -- their order and under the registry's generation, whose channel the subscriber named or one of its
  -- patterns matches, each once however many of these match; and nothing else.
  pub apply_prepared_mutation-subscribers :
      (m : PreparedMutation p) (r : GeofenceRegistry p)
      → (apply_prepared_mutation p m r).subscribers
        ≡ map
            (λ (s : Subscriber p). record s {
              sender =
                  push_all (map (stamped r.generation) (retain (is_wanted s) m.events)) s.sender;
            })
            r.subscribers
  unfolding apply_prepared_mutation
  apply_prepared_mutation-subscribers m r = publish_all-map r.generation m.events r.subscribers
