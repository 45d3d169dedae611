-- ===== src/Storage/Aof/Samples.antt =====
-- A small stand-in for bincode, with which the runs of the file of crates/latlng-storage-aof/src/lib.rs can be computed.
use latlng.Prelude.{
  ℕ, ◌<◌, ◌^◌, ◌≡◌, refl, sym, ap, arith, Option, none, some, [], ◌∷◌, ◌++◌, length, inl, inr,
  Option-cases, ◌∙◌,
}
use latlng.Storage.{Bytes, StorageEntry}
use latlng.Storage.Aof.{AofFrame, entry, batch, group, Frames, nil, cons, Codec}
use latlng.Storage.Aof.Reading.{IsCodec}

abbrev pub of_command : StorageEntry → Bytes → Option Bytes
of_command e [] = some (e.sequence ∷ e.timestamp_ns ∷ [])
of_command e (_ ∷ _) = none

abbrev pub entry_bytes : StorageEntry → Option Bytes
entry_bytes e = of_command e e.command

-- A group is longer than the frames of its requests.
abbrev pub padding : Bytes
padding = 0 ∷ 0 ∷ 0 ∷ 0 ∷ 0 ∷ 0 ∷ 0 ∷ 0 ∷ 0 ∷ 0 ∷ []

abbrev pub both : Option Bytes → Option Bytes → Option Bytes
both (some a) (some b) = some (a ++ (b ++ padding))
both (some a) none = none
both none b = none

abbrev pub pair_bytes : Frames → Option Bytes
pair_bytes (cons (entry a) (cons (entry b) nil)) = both (entry_bytes a) (entry_bytes b)
pair_bytes _ = none

abbrev pub toy_serialize : AofFrame → Option Bytes
toy_serialize (entry e) = entry_bytes e
toy_serialize (batch es) = none
toy_serialize (group fs) = pair_bytes fs

abbrev pub at : ℕ → ℕ → StorageEntry
at s t = record { sequence = s; timestamp_ns = t; command = [] }

abbrev pub toy_deserialize : Bytes → Option AofFrame
toy_deserialize (s ∷ t ∷ []) = some (entry (at s t))
toy_deserialize (s ∷ t ∷ u ∷ v ∷ _) =
    some (group (cons (entry (at s t)) (cons (entry (at u v)) nil)))
toy_deserialize _ = none

-- Entries without a command, alone or in a group of two.
abbrev pub toy : Codec
toy = record { serialize = toy_serialize; deserialize = toy_deserialize }

pub some_inj : (p q : Bytes) → Path (Option Bytes) (some p) (some q) → q ≡ p
some_inj p q h = cc

pub none≢some : (p : Bytes) → Path (Option Bytes) none (some p) → ⊥
none≢some p h = absurd (cc)

entry_bytes-back :
    (e : StorageEntry) (p : Bytes)
    → entry_bytes e ≡ some p
    → (p ≡ e.sequence ∷ e.timestamp_ns ∷ []) × (at e.sequence e.timestamp_ns ≡ e)
entry_bytes-back e p h = go e.command refl
  where
    go :
        (c : Bytes)
        → e.command ≡ c
        → (p ≡ e.sequence ∷ e.timestamp_ns ∷ []) × (at e.sequence e.timestamp_ns ≡ e)
    go [] q = (
      some_inj (e.sequence ∷ e.timestamp_ns ∷ []) p (ap (of_command e) (sym q) ∙ h),
      ap (λ c. record e { command = c }) (sym q),
    )
    go (x ∷ c) q = elim (none≢some p (ap (of_command e) (sym q) ∙ h)) [ ]

both-back :
    (a b : StorageEntry) (p : Bytes)
    → both (entry_bytes a) (entry_bytes b) ≡ some p
    → (p ≡ a.sequence ∷ a.timestamp_ns ∷ b.sequence ∷ b.timestamp_ns ∷ padding)
      × (at a.sequence a.timestamp_ns ≡ a)
      × (at b.sequence b.timestamp_ns ≡ b)
both-back a b p h = elim (Option-cases (entry_bytes a)) [
  | inl x ↦ elim (none≢some p (ap (λ o. both o (entry_bytes b)) (sym x) ∙ h)) [ ]
  | inr (q, x) ↦ elim (Option-cases (entry_bytes b)) [
    | inl y ↦
        elim (none≢some p
          (ap (both (some q)) (sym y) ∙ ap (λ o. both o (entry_bytes b)) (sym x) ∙ h)) [ ]
    | inr (r, y) ↦
        let (i, j) = entry_bytes-back a q x in
        let (k, l) = entry_bytes-back b r y in
        (
          some_inj (q ++ (r ++ padding)) p
                (ap (both (some q)) (sym y) ∙ ap (λ o. both o (entry_bytes b)) (sym x) ∙ h)
              ∙ ap (λ z. z ++ (r ++ padding)) i
              ∙ ap (λ z. a.sequence ∷ a.timestamp_ns ∷ (z ++ padding)) k,
          j,
          l,
        )
  ]
]

pair-back :
    (fs : Frames) (p : Bytes)
    → pair_bytes fs ≡ some p
    → (toy_deserialize p ≡ some (group fs)) × (length p < 2 ^ 64)
pair-back (cons (entry a) (cons (entry b) nil)) p h =
    let (i, j, k) = both-back a b p h in
    (
      ap toy_deserialize i
          ∙ ap
              (λ x. some (group (cons (entry x) (cons (entry (at b.sequence b.timestamp_ns)) nil))))
              j
          ∙ ap (λ x. some (group (cons (entry a) (cons (entry x) nil)))) k,
      omega (arith, ap length i),
    )
pair-back nil p h = elim (none≢some p h) [ ]
pair-back (cons (batch es) fs) p h = elim (none≢some p h) [ ]
pair-back (cons (group gs) fs) p h = elim (none≢some p h) [ ]
pair-back (cons (entry a) nil) p h = elim (none≢some p h) [ ]
pair-back (cons (entry a) (cons (batch es) fs)) p h = elim (none≢some p h) [ ]
pair-back (cons (entry a) (cons (group gs) fs)) p h = elim (none≢some p h) [ ]
pair-back (cons (entry a) (cons (entry b) (cons f fs))) p h = elim (none≢some p h) [ ]

toy-back :
    (f : AofFrame) (p : Bytes)
    → toy_serialize f ≡ some p
    → (toy_deserialize p ≡ some f) × (length p < 2 ^ 64)
toy-back (entry e) p h =
    let (i, j) = entry_bytes-back e p h in
    (ap toy_deserialize i ∙ ap (λ x. some (entry x)) j, omega (arith, ap length i))
toy-back (batch es) p h = elim (none≢some p h) [ ]
toy-back (group fs) p h = pair-back fs p h

pub toy-IsCodec : IsCodec toy
toy-IsCodec = record {
  reads_back = λ f p h. (toy-back f p h).0;
  fits = λ f p h. (toy-back f p h).1;
}
