-- ===== src/Index/Search/Pages.antt =====
-- The pages of a search of crates/latlng-index/src/lib.rs, one after the other by their cursors.
use mathlib.Core.List.{append-nil}
use latlng.Prelude.{
  ℕ, zero, suc, ◌+◌, ◌-◌, ◌%◌, ◌^◌, ◌<◌, ◌≤◌, min, max, ◌≡◌, refl, sym, ap, ◌∙◌, arith, Bool, true,
  false, Option, none, some, omap, List, [], ◌∷◌, ◌++◌, Result, ok, ◌>>=◌, map_ok, length, take,
  drop, ltb, ◌==◌, nat_key, if◌then◌else◌, saturating_add, Ordering, bind_ok, ok_inj, length-drop,
  dec_lt,
}
use latlng.Geo.Object.{GeoType, Object}
use latlng.Index.Search.{
  SearchOptions, SearchItem, SearchResults, OutputFormat, Candidate, item, items, page,
  compare_candidates, is_desc, is_count,
}

drop-nil {ℓ} : {A : Type ℓ} (n : ℕ) → drop {A = A} n [] ≡ []
drop-nil zero = refl
drop-nil (suc n) = refl

drop-drop {ℓ} : {A : Type ℓ} (m n : ℕ) (xs : List A) → drop m (drop n xs) ≡ drop (n + m) xs
drop-drop m zero xs = ap (λ k. drop k xs) (omega arith)
drop-drop m (suc n) [] = drop-nil m ∙ sym (drop-nil (suc n + m))
drop-drop m (suc n) (x ∷ xs) =
    let more : suc (n + m) ≡ suc n + m = omega arith in
    drop-drop m n xs ∙ ap (λ k. drop k (x ∷ xs)) more

nil-length {ℓ} : {A : Type ℓ} (xs : List A) → length xs ≡ 0 → xs ≡ []
nil-length [] h = refl
nil-length (x ∷ xs) h = absurd (omega arith)

take-drop {ℓ} : {A : Type ℓ} (n : ℕ) (xs : List A) → take n xs ++ drop n xs ≡ xs
take-drop zero xs = refl
take-drop (suc n) [] = refl
take-drop (suc n) (x ∷ xs) = ap (λ l. x ∷ l) (take-drop n xs)

module _ {E : Type 0}
    (sort_by : (Candidate → Candidate → Ordering) → List Candidate → List Candidate)
    (matches : Object → SearchOptions → Result E Bool)
    (format_object : Object → OutputFormat → Bool → Result E (Option GeoType)) (o : SearchOptions)
    (allow_clip : Bool) (filtered : List Candidate) where
  abbrev pub at_cursor : ℕ → SearchOptions
  at_cursor cursor = record o { cursor = cursor }

  abbrev pub sorted : List Candidate
  sorted = sort_by (compare_candidates (is_desc o.sort)) filtered

  abbrev pub joined :
      (ℕ → Result E (Option (List SearchItem)))
      → SearchResults
      → Result E (Option (List SearchItem))
  joined next r =
      if r.cursor == 0
      then ok (some r.results)
      else map_ok (omap (λ xs. r.results ++ xs)) (next r.cursor)

  -- The results of a page and of those behind it. The cursor 0 ends them; where the pages that may be
  -- asked for are used up before it, there is no answer.
  unfoldable pub follow : ℕ → ℕ → Result E (Option (List SearchItem))
  unfolding page
  follow zero cursor = ok none
  follow (suc n) cursor =
      page sort_by matches format_object (at_cursor cursor) allow_clip filtered
      >>= joined (follow n)

  items-cursor :
      (cursor : ℕ) (cs : List Candidate)
      → items sort_by matches format_object (at_cursor cursor) allow_clip cs
        ≡ items sort_by matches format_object o allow_clip cs
  unfolding items
  items-cursor cursor [] = refl
  items-cursor cursor (c ∷ cs) =
      ap (λ r. item sort_by matches format_object o allow_clip c >>= λ x. r >>= λ xs. ok (x ∷ xs))
        (items-cursor cursor cs)

  -- The items, as every page formats them.
  abbrev pub formatted : List Candidate → Result E (List SearchItem)
  formatted = items sort_by matches format_object o allow_clip

  items-append :
      (xs ys : List Candidate) (rs : List SearchItem)
      → formatted (xs ++ ys) ≡ ok rs
      → (front back : List SearchItem) × (formatted xs ≡ ok front)
        × (formatted ys ≡ ok back)
        × (front ++ back ≡ rs)
  unfolding items
  items-append [] ys rs h = ([], rs, refl, h, refl)
  items-append (x ∷ xs) ys rs h =
      let (i, p, q) = bind_ok (item sort_by matches format_object o allow_clip x) _ rs h in
      let (all, r, made) = bind_ok (formatted (xs ++ ys)) _ rs q in
      let (front, back, s, t, u) = items-append xs ys all r in
      (
        i ∷ front,
        back,
        ap (λ a. a >>= λ y. formatted xs >>= λ ys. ok (y ∷ ys)) p
            ∙ ap (λ b. b >>= λ ys. ok (i ∷ ys)) s,
        t,
        ap (λ l. i ∷ l) u ∙ ok_inj made,
      )

  -- A page that can be formatted.
  page-ok :
      (cursor : ℕ) (front : List SearchItem)
      → is_count o.output ≡ false
      → formatted (take (max o.limit 1) (drop cursor sorted)) ≡ ok front
      → (r : SearchResults) × (page sort_by matches format_object
            (at_cursor cursor)
            allow_clip
            filtered
          ≡ ok r)
        × (r.results ≡ front)
        × (r.cursor ≡ (
            let end = min (saturating_add cursor (max o.limit 1)) (length filtered) in
            if ltb end (length filtered) then end % 2 ^ 32 else 0))
  unfolding page
  page-ok cursor front h k =
      let end = min (saturating_add cursor (max o.limit 1)) (length filtered) in
      let done : List SearchItem → SearchResults = λ xs. record {
        results = xs;
        cursor = if ltb end (length filtered) then end % 2 ^ 32 else 0;
        count = if o.include_count then length filtered % 2 ^ 32 else (end - cursor) % 2 ^ 32;
      } in
      (
        done front,
        rw (h, page)
            (ap (map_ok done)
              (items-cursor cursor (take (max o.limit 1) (drop cursor sorted)) ∙ k)),
        refl,
        refl,
      )

  follow-drop :
      (n cursor : ℕ) (rs : List SearchItem)
      → is_count o.output ≡ false
      → o.limit < 2 ^ 32
      → length filtered < 2 ^ 32
      → length sorted ≡ length filtered
      → cursor ≤ length filtered
      → length filtered - cursor ≤ n
      → 0 < n
      → formatted (drop cursor sorted) ≡ ok rs
      → follow n cursor ≡ ok (some rs)
  unfolding follow items
  follow-drop zero cursor rs h l m s c f z k = absurd (omega arith)
  follow-drop (suc n) cursor rs h l m s c f z k =
      let limit = max o.limit 1 in
      let rest = drop cursor sorted in
      let (front, back, p, q, made) =
        items-append (take limit rest) (drop limit rest) rs
          (ap formatted (take-drop limit rest) ∙ k) in
      let (r, x, y, w) = page-ok cursor front h p in
      ap (λ a. a >>= joined (follow n)) x ∙ (elim (dec_lt (cursor + limit) (length filtered)) [
        | yes more ↦
            let at : r.cursor ≡ cursor + limit = ground (arith, w) in
            let on : (r.cursor == 0) ≡ false = ground (arith, at) in
            ap
              (λ b.
                if b
                then ok (some r.results)
                else map_ok (omap (λ xs. r.results ++ xs)) (follow n r.cursor))
              on
            ∙ ap (map_ok (omap (λ xs. r.results ++ xs))) (
                ap (follow n) at
                ∙ follow-drop n (cursor + limit) back h l m s (omega arith) (omega arith)
                    (omega arith) (ap formatted (sym (drop-drop limit cursor sorted)) ∙ q))
            ∙ ap (λ l. ok (some l)) (ap (λ xs. xs ++ back) y ∙ made)
        | no over ↦
            let at : r.cursor ≡ 0 = ground (arith, w) in
            let off : (r.cursor == 0) ≡ true = ground (arith, at) in
            let empty =
              nil-length (drop limit rest)
                (omega (arith, length-drop limit rest, length-drop cursor sorted)) in
            ap
              (λ b.
                if b
                then ok (some r.results)
                else map_ok (omap (λ xs. r.results ++ xs)) (follow n r.cursor))
              off
            ∙ ap (λ l. ok (some l))
                (y
                  ∙ sym (append-nil front)
                  ∙ ap (λ xs. front ++ xs) (ok_inj (ap formatted (sym empty) ∙ q))
                  ∙ made)
      ])

  -- A search that is neither a count nor one that `fast_limited_ids` takes, of which every candidate that
  -- passes the filters can be formatted. A client that asks from the cursor 0 on, each time at the cursor
  -- that the page before gave, comes to a page that answers the cursor 0 within one page more than there are
  -- candidates, and the results of all these pages together are all candidates in the order of the sort,
  -- each once. The sort keeps the number of candidates; that and the limit are in the range of a u32.
  pub follow-all :
      (rs : List SearchItem)
      → is_count o.output ≡ false
      → o.limit < 2 ^ 32
      → length filtered < 2 ^ 32
      → length sorted ≡ length filtered
      → formatted sorted ≡ ok rs
      → follow (suc (length filtered)) 0 ≡ ok (some rs)
  follow-all rs h l m s k =
      follow-drop (suc (length filtered)) 0 rs h l m s (omega arith) (omega arith) (omega arith) k
