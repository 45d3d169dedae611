-- ===== src/Storage/Aof/Commits.antt =====
-- The frame that `commit_append_group` of crates/latlng-storage-aof/src/lib.rs writes holds the requests' entries.
use mathlib.Core.List.{append-nil, append_assoc}
use latlng.Prelude.{
  ◌≡◌, refl, sym, ap, ◌∙◌, List, [], ◌∷◌, ◌++◌, ok, ◌>>=◌, subst, bind_ok, last, All, ◌⊎◌, inl, inr,
}
use latlng.Storage.{StorageEntry}
use latlng.Storage.Aof.{validate_batch_against_last, apply_frame_to_entries, apply_frames}
use latlng.Storage.Aof.Writer.{
  AppendRequest, append_request, batch_request, validate_requests, frames_of, frame_of,
  entries_of_requests,
}

-- What `append` and `append_batch` submit.
abbrev pub IsRequest : AppendRequest → Type 0
IsRequest r =
    ((e : StorageEntry) × (r ≡ append_request e))
    ⊎ ((e : StorageEntry) × (es : List StorageEntry) × (r ≡ batch_request (e ∷ es)))

last-append :
    (xs : List StorageEntry) (e : StorageEntry) (es : List StorageEntry)
    → last (xs ++ e ∷ es) ≡ last (e ∷ es)
last-append [] e es = refl
last-append (x ∷ []) e es = refl
last-append (x ∷ y ∷ xs) e es = last-append (y ∷ xs) e es

pub last-append-request :
    (xs : List StorageEntry) (r : AppendRequest)
    → IsRequest r
    → last (xs ++ r.entries) ≡ last r.entries
last-append-request xs r (inl (e, p)) =
    subst (λ q. last (xs ++ q.entries) ≡ last q.entries) (sym p) (last-append xs e [])
last-append-request xs r (inr (e, es, p)) =
    subst (λ q. last (xs ++ q.entries) ≡ last q.entries) (sym p) (last-append xs e es)

apply-request :
    (xs : List StorageEntry) (r : AppendRequest)
    → IsRequest r
    → validate_batch_against_last (last xs) r.entries ≡ ok tt
    → apply_frame_to_entries xs r.frame ≡ ok (xs ++ r.entries)
unfolding apply_frame_to_entries
apply-request xs r (inl (e, p)) =
    subst
      (λ q.
        validate_batch_against_last (last xs) q.entries ≡ ok tt
        → apply_frame_to_entries xs q.frame ≡ ok (xs ++ q.entries))
      (sym p) (λ h. rw (h, apply_frame_to_entries) refl)
apply-request xs r (inr (e, es, p)) =
    subst
      (λ q.
        validate_batch_against_last (last xs) q.entries ≡ ok tt
        → apply_frame_to_entries xs q.frame ≡ ok (xs ++ q.entries))
      (sym p) (λ h. rw (h, apply_frame_to_entries) refl)

apply_frames-requests :
    (xs : List StorageEntry) (rs : List AppendRequest)
    → All IsRequest rs
    → validate_requests (last xs) rs ≡ ok tt
    → apply_frames xs (frames_of rs) ≡ ok (xs ++ entries_of_requests rs)
unfolding apply_frames validate_requests
apply_frames-requests xs [] a h = ap ok (sym (append-nil xs))
apply_frames-requests xs (r ∷ rs) a h =
    let (u, v, rest) = bind_ok (validate_batch_against_last (last xs) r.entries) _ tt h in
    ap (λ x. x >>= λ ys. apply_frames ys (frames_of rs)) (apply-request xs r a.0 v)
    ∙ apply_frames-requests (xs ++ r.entries) rs a.1
        (ap (λ l. validate_requests l rs) (last-append-request xs r a.0) ∙ rest)
    ∙ ap ok (append_assoc xs r.entries (entries_of_requests rs))

-- A group that passes the checks of a commit makes a frame that passes those of a load, and it
-- holds the entries of the requests in their order.
pub apply_frame_of :
    (xs : List StorageEntry) (r : AppendRequest) (rs : List AppendRequest)
    → All IsRequest (r ∷ rs)
    → validate_requests (last xs) (r ∷ rs) ≡ ok tt
    → apply_frame_to_entries xs (frame_of r rs) ≡ ok (xs ++ entries_of_requests (r ∷ rs))
unfolding validate_requests apply_frame_to_entries apply_frames
apply_frame_of xs r [] a h =
    let (u, v, rest) = bind_ok (validate_batch_against_last (last xs) r.entries) _ tt h in
    apply-request xs r a.0 v ∙ ap (λ l. ok (xs ++ l)) (sym (append-nil r.entries))
apply_frame_of xs r (q ∷ qs) a h = apply_frames-requests xs (r ∷ q ∷ qs) a h
