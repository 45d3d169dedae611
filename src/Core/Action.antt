-- ===== src/Core/Action.antt =====
-- The errors of crates/latlng-core/src/lib.rs, less their texts, and its methods: what a method has
-- written before it fails stays written.
use latlng.Prelude.{String, Result, ok, err}
use latlng.Storage.{StorageError}
use latlng.Geo.JsonPath.{GeoError}

pub data CoreError : Type 0 where
  geo : GeoError → CoreError
  index : CoreError
  storage : StorageError → CoreError
  collection_not_found : String → CoreError
  object_not_found : String → String → CoreError
  read_only missing_storage codec invalid message : CoreError

abbrev pub Action : Type 0 → Type 0 → Type 0
Action S A = S → Result CoreError A × S

module _ {S A : Type 0} where
  abbrev pub pure : A → Action S A
  pure a s = (ok a, s)

  abbrev pub fail : CoreError → Action S A
  fail e s = (err e, s)

  abbrev pub lift : Result CoreError A → Action S A
  lift r s = (r, s)

  abbrev pub gets : (S → A) → Action S A
  gets f s = (ok (f s), s)

abbrev pub modify : {S : Type 0} → (S → S) → Action S (Unit {0})
modify f s = (ok tt, f s)

module _ {S A B : Type 0} where
  abbrev pub continue : Result CoreError A → (A → Action S B) → Action S B
  continue (ok a) f s = f a s
  continue (err e) f s = (err e, s)

  infixl 5 ◌>>=◌ ◌>>◌
  abbrev pub ◌>>=◌ : Action S A → (A → Action S B) → Action S B
  ◌>>=◌ m f s = continue (m s).0 f (m s).1

  abbrev pub ◌>>◌ : Action S A → Action S B → Action S B
  ◌>>◌ m n s = continue (m s).0 (λ _. n) (m s).1
