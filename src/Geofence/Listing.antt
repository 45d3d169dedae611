-- ===== src/Geofence/Listing.antt =====
-- The deletion by pattern and the listings of `GeofenceRegistry` in crates/latlng-geofence/src/lib.rs. A table lists its fences in
-- the order of their names, in which the source sorts them.
use latlng.Prelude.{ℕ, String, Option, List, [], ◌∷◌, length, map, retain, omap, string_key}
use latlng.Prelude.Map
use latlng.Prelude.Map.{Map, keys}
use latlng.Geo.Object.{Object}
use latlng.Geofence.{GeofenceEvent, MutationEvent}
use latlng.Geofence.Fence.{Places, GeofenceDef}
use latlng.Geofence.Registry.{GeofenceRegistry, StoredGeofence, StoredHook, del_channel, del_hook}
use latlng.Geofence.Mutations.{prepare_mutation, apply_prepared_mutation}

module _ (p : Places) where
  pub record ChannelDef : Type 0 where
    pub name : String
    pub def : GeofenceDef p

  pub record HookDef : Type 0 where
    pub name : String
    pub endpoint : String
    pub def : GeofenceDef p

  pub record HookInfo : Type 0 where
    pub name : String
    pub endpoint : String
    pub collection : String

  unfoldable pub del_channels : List String → GeofenceRegistry p → GeofenceRegistry p
  unfolding del_channel
  del_channels [] r = r
  del_channels (name ∷ names) r = del_channels names (del_channel p name r).0

  unfoldable pub del_hooks : List String → GeofenceRegistry p → GeofenceRegistry p
  unfolding del_hook
  del_hooks [] r = r
  del_hooks (name ∷ names) r = del_hooks names (del_hook p name r).0

  unfoldable pub channels : String → GeofenceRegistry p → List String
  channels pattern r = retain (p.glob_match pattern) (keys r.channels.stored)

  unfoldable pub pdel_channel : String → GeofenceRegistry p → GeofenceRegistry p × ℕ
  unfolding channels del_channels
  pdel_channel pattern r = let names = channels pattern r in (del_channels names r, length names)

  unfoldable pub pdel_hook : String → GeofenceRegistry p → GeofenceRegistry p × ℕ
  unfolding del_hooks
  pdel_hook pattern r =
      let names = retain (p.glob_match pattern) (keys r.hooks.stored) in
      (del_hooks names r, length names)

  abbrev pub channel_of : String × StoredGeofence p → ChannelDef
  channel_of (name, s) = record { name = name; def = s.def }

  abbrev pub hook_of : String × StoredHook p → HookDef
  hook_of (name, s) = record { name = name; endpoint = s.endpoint; def = s.def }

  abbrev pub info_of : String × StoredHook p → HookInfo
  info_of (name, s) = record { name = name; endpoint = s.endpoint; collection = s.def.collection }

  unfoldable pub channel_defs : GeofenceRegistry p → List ChannelDef
  channel_defs r = map channel_of r.channels.stored

  unfoldable pub channel_def : String → GeofenceRegistry p → Option ChannelDef
  channel_def name r = omap (λ s. channel_of (name, s)) (Map.get name r.channels.stored)

  unfoldable pub hooks : String → GeofenceRegistry p → List HookInfo
  hooks pattern r = map info_of (retain (λ x. p.glob_match pattern x.0) r.hooks.stored)

  unfoldable pub hook_defs : GeofenceRegistry p → List HookDef
  hook_defs r = map hook_of r.hooks.stored

  unfoldable pub hook_def : String → GeofenceRegistry p → Option HookDef
  hook_def name r = omap (λ s. hook_of (name, s)) (Map.get name r.hooks.stored)

  -- It never returns an error, since a fence that cannot be evaluated is skipped.
  unfoldable pub evaluate_mutation :
      MutationEvent
      → (String → List Object)
      → GeofenceRegistry p
      → List GeofenceEvent × GeofenceRegistry p
  unfolding prepare_mutation apply_prepared_mutation
  evaluate_mutation e lookup r =
      let m = prepare_mutation p e lookup r in (m.events, apply_prepared_mutation p m r)
