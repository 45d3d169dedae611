-- ===== src/Geofence/Mutations.antt =====
-- How the registry of crates/latlng-geofence/src/lib.rs prepares a mutation, and applies what it prepared.
pub mod Delivery
use latlng.Prelude.{
  ℕ, suc, ◌+◌, String, Bool, true, false, ◌||◌, Option, none, some, List, [], ◌∷◌, ◌++◌, Result, ok,
  err, any, ◌==◌, string_key, if◌then◌else◌, saturating_add,
}
use latlng.Prelude.Map
use latlng.Prelude.Map.{Map}
use latlng.Platform.{MailboxState, push}
use latlng.Geo.Object.{Object}
use latlng.Geofence.{GeofenceEvent, MutationEvent}
use latlng.Geofence.Fence.{Places, GeofenceDef, StoredState, StoredStateUpdate, apply}
use latlng.Geofence.Roaming.{evaluate_stored_fence}
use latlng.Geofence.Registry.{
  Table, StoredGeofence, StoredHook, Subscriber, GeofenceRegistry, relevant_names,
}

module _ (p : Places) where
  pub record PreparedMutation : Type 0 where
    pub channel_states : List (String × StoredStateUpdate)
    pub hook_states : List (String × StoredStateUpdate)
    pub events : List GeofenceEvent
    pub eval_errors : ℕ

  -- The variables of a loop of `prepare_mutation`.
  pub record Evaluated : Type 0 where
    pub states : List (String × StoredStateUpdate)
    pub events : List GeofenceEvent
    pub eval_errors : ℕ

  abbrev pub nothing_evaluated : Evaluated
  nothing_evaluated = record { states = []; events = []; eval_errors = 0 }

  -- The rest of the loop behind a fence: one that cannot be evaluated is skipped.
  abbrev pub with_fence :
      String
      → Result p.GeofenceError (StoredStateUpdate × List GeofenceEvent)
      → Evaluated
      → Evaluated
  with_fence name (err e) rest = record rest { eval_errors = suc rest.eval_errors }
  with_fence name (ok (u, events)) rest = record rest {
    states = (name, u) ∷ rest.states;
    events = events ++ rest.events;
  }

  abbrev pub with_found :
      {A : Type 0}
      → (A → Result p.GeofenceError (StoredStateUpdate × List GeofenceEvent))
      → String
      → Option A
      → Evaluated
      → Evaluated
  with_found eval name none rest = rest
  with_found eval name (some a) rest = with_fence name (eval a) rest

  -- A loop of `prepare_mutation` over the names of fences.
  unfoldable pub evaluate_each :
      {A : Type 0}
      → (String → A → Result p.GeofenceError (StoredStateUpdate × List GeofenceEvent))
      → Map String A
      → List String
      → Evaluated
  evaluate_each eval stored [] = nothing_evaluated
  evaluate_each eval stored (name ∷ names) =
      with_found (eval name) name (Map.get name stored) (evaluate_each eval stored names)

  unfoldable pub prepare_mutation :
      MutationEvent → (String → List Object) → GeofenceRegistry p → PreparedMutation
  unfolding evaluate_each relevant_names evaluate_stored_fence
  prepare_mutation e lookup r =
      let channels =
        evaluate_each (λ name s. evaluate_stored_fence p s.def s.state e (some name) none lookup)
          r.channels.stored (relevant_names p e.collection r.channels) in
      let hooks =
        evaluate_each
          (λ name s. evaluate_stored_fence p s.def s.state e (some name) (some name) lookup)
          r.hooks.stored (relevant_names p e.collection r.hooks) in
      record {
        channel_states = channels.states;
        hook_states = hooks.states;
        events = channels.events ++ hooks.events;
        eval_errors = channels.eval_errors + hooks.eval_errors;
      }

  abbrev pub update_found : {A : Type 0} → (A → A) → String → Option A → Map String A → Map String A
  update_found f name none stored = stored
  update_found f name (some a) stored = Map.insert name (f a) stored

  -- `state_update.apply(&mut stored.state)` for each fence that is still there.
  unfoldable pub apply_each :
      {A : Type 0}
      → (StoredStateUpdate → A → A)
      → List (String × StoredStateUpdate)
      → Map String A
      → Map String A
  apply_each update [] stored = stored
  apply_each update ((name, u) ∷ us) stored =
      apply_each update us (update_found (update u) name (Map.get name stored) stored)

  abbrev pub wants : Subscriber p → String → Bool
  wants s group =
      any (λ x. x == group) s.exact || any (λ pattern. p.glob_match pattern group) s.patterns

  abbrev pub sent_to : GeofenceEvent → Subscriber p → Subscriber p
  sent_to e s = elim e.group [
    | none ↦ s
    | some group ↦ if wants s group then record s { sender = push s.sender e } else s
  ]

  unfoldable pub publish : GeofenceEvent → List (Subscriber p) → List (Subscriber p)
  unfolding push
  publish e [] = []
  publish e (s ∷ ss) = sent_to e s ∷ publish e ss

  unfoldable pub publish_all : ℕ → List GeofenceEvent → List (Subscriber p) → List (Subscriber p)
  unfolding publish
  publish_all generation [] ss = ss
  publish_all generation (e ∷ es) ss =
      publish_all generation es (publish (record e { generation = generation }) ss)

  unfoldable pub apply_prepared_mutation :
      PreparedMutation → GeofenceRegistry p → GeofenceRegistry p
  unfolding apply_each apply publish_all
  apply_prepared_mutation m r = record r {
    eval_errors_total = saturating_add r.eval_errors_total m.eval_errors;
    channels = record (r.channels) {
      stored =
          apply_each (λ u s. record s { state = apply u s.state }) m.channel_states
            r.channels.stored;
    };
    hooks = record (r.hooks) {
      stored =
          apply_each (λ u s. record s { state = apply u s.state }) m.hook_states r.hooks.stored;
    };
    subscribers = publish_all r.generation m.events r.subscribers;
  }
