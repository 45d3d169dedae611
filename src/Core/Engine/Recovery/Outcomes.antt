-- ===== src/Core/Engine/Recovery/Outcomes.antt =====
-- What follows from an action that ends well or badly: the rules for the steps of a command.
use latlng.Prelude.{
  Bool, true, false, List, ◌≡◌, refl, sym, ◌∙◌, inl, inr, Result, ok, err, ok≢err, if◌then◌else◌,
}
use latlng.Core.Action.{CoreError, continue, Action}
use latlng.Core.World.{World}
use latlng.Core.Engine.{Db, Record}
use latlng.Core.Engine.Recovery.{Recovers, Logged, Recovers-Same}
use latlng.Core.Engine.Recovery.Writes.{Wrote}

module _ (w : World) where
  -- The error says nothing of a geometry.
  abbrev pub Spares : CoreError → Type 0
  Spares (CoreError.geo e) = ⊥
  Spares _ = Unit

  abbrev pub NoGeo : {A : Type 0} → Result CoreError A → Type 0
  NoGeo (ok a) = Unit
  NoGeo (err e) = Spares e

  -- Where the action reports no error of a geometry, the log rebuilds the collections after it.
  pub record Good {A : Type 0} (x : Result CoreError A × Db w) : Type 0 where
    pub after : NoGeo x.0 → Recovers w x.1

  pub done-Good : {A : Type 0} (r : Result CoreError A) (s : Db w) → Recovers w s → Good (r, s)
  done-Good r s h = record { after = λ n. h }

  pub if-Good :
      {A : Type 0} (b : Bool) (m n : Action (Db w) A) (s : Db w)
      → (b ≡ true → Good (m s))
      → (b ≡ false → Good (n s))
      → Good ((if b then m else n) s)
  if-Good true m n s h k = h refl
  if-Good false m n s h k = k refl

  -- The steps of an action, one rule for each: a read that may fail,
  pub read-Good :
      {A B : Type 0} (r : Result CoreError A) (f : A → Action (Db w) B) (s : Db w)
      → Recovers w s
      → ((a : A) → r ≡ ok a → Good (f a s))
      → Good (continue r f s)
  read-Good (ok a) f s h k = k a refl
  read-Good (err e) f s h k = done-Good (err e) s h

  pub outcome-Good :
      {A B : Type 0} (r : Result CoreError A) (f : A → Action (Db w) B) (s' : Db w)
      → ((a : A) → r ≡ ok a → Good (f a s'))
      → ((e : CoreError) → r ≡ err e → Good {A = B} (err e, s'))
      → Good (continue r f s')
  outcome-Good (ok a) f s' k l = k a refl
  outcome-Good (err e) f s' k l = l e refl

  -- the writing of a batch,
  pub write-Good :
      {A B : Type 0} (rs : List (Record w)) (s : Db w) (x : Result CoreError A × Db w)
      (f : A → Action (Db w) B)
      → Recovers w s
      → Wrote w rs s x
      → ((a : A) → Logged w rs s x.1 → Good (f a x.1))
      → Good (continue x.0 f x.1)
  write-Good rs s x f h (inl (a, p, l)) k =
      outcome-Good x.0 f x.1 (λ b q. k b l) (λ e q. elim (ok≢err a e (sym p ∙ q)) [ ])
  write-Good rs s x f h (inr (e, p, l)) k =
      outcome-Good x.0 f x.1 (λ b q. elim (ok≢err b e (sym q ∙ p)) [ ])
        (λ e q. done-Good (err e) x.1 (Recovers-Same w s x.1 h l))

  failed :
      {A : Type 0} (e : CoreError) (s : Db w) → Good {A = A} (err e, s) → Spares e → Recovers w s
  failed (CoreError.geo e) s h n = elim n [ ]
  failed CoreError.index s h n = h.after tt
  failed (CoreError.storage e) s h n = h.after tt
  failed (CoreError.collection_not_found c) s h n = h.after tt
  failed (CoreError.object_not_found c i) s h n = h.after tt
  failed CoreError.read_only s h n = h.after tt
  failed CoreError.missing_storage s h n = h.after tt
  failed CoreError.codec s h n = h.after tt
  failed CoreError.invalid s h n = h.after tt
  failed CoreError.message s h n = h.after tt

  -- and an action after another.
  pub then-Good :
      {A B : Type 0} (x : Result CoreError A × Db w) (f : A → Action (Db w) B)
      → Good x
      → ((a : A) → x.0 ≡ ok a → Recovers w x.1 → Good (f a x.1))
      → Good (continue x.0 f x.1)
  then-Good (ok a, s) f h k = k a refl (h.after tt)
  then-Good (err e, s) f h k = record { after = failed e s h }
