-- ===== src/Memory/Service/Bounds.antt =====
-- What `retrieve_bounded` of src/arema/memory/service.py admits and reports.
use arema.Prelude.{
  ℕ, zero, suc, not, every, ◌++◌, Option, some, ◌+◌, ◌≤◌, ◌<◌, Bool, true, false, ◌||◌, ◌≡◌, refl,
  sym, ap, ◌∙◌, ◌⊎◌, subst, inl, inr, none, List, [], ◌∷◌, arith, ltb, min, max, map, take, length,
  length-take, ltb→lt, Bool-cases,
}
use arema.Prelude.Dict.{is_some}
use arema.Memory.Models.{Instant, MemoryEnvelope, MemoryQuery, MemoryPage, Result, ok, err}
use arema.Memory.Store.{InMemoryStore}
use arema.Memory.Cursor.{TextCodec}
use arema.Memory.Query.{ordered, matches, page_of, resume, query_records}
use arema.Memory.Paging.{page_of_last, page_of_inner, take_all, page_end_at}
use arema.Memory.Codecs.{Decoded}
use arema.Prelude.Int.{ℤ, pos, negsuc, pos_part}
use arema.Memory.Service.{
  Admitted, admit, bound, bounded, BoundedRetrieval, Retrieval, retrieved, refused, undecoded,
  is_raised, first_raised, effective_limit, retrieve_bounded,
}

abbrev pub total : (MemoryEnvelope → ℕ) → List MemoryEnvelope → ℕ
total cost [] = 0
total cost (x ∷ xs) = cost x + total cost xs

module _ (cost : MemoryEnvelope → ℕ) (record_cap token_cap : ℤ) where
  pub admit-prefix :
      (count used : ℕ) (xs : List MemoryEnvelope)
      → let a = admit cost record_cap token_cap count used xs in take (length a.taken) xs ≡ a.taken
  unfolding admit
  admit-prefix count used [] = refl
  admit-prefix count used (x ∷ xs) = ground (arith, admit-prefix (count + 1) (used + cost x) xs)

  pub admit-length :
      (count used : ℕ) (xs : List MemoryEnvelope)
      → count + length (admit cost record_cap token_cap count used xs).taken
        ≤ max count (pos_part record_cap)
  unfolding admit
  admit-length count used [] = omega arith
  admit-length count used (x ∷ xs) = ground (arith, admit-length (count + 1) (used + cost x) xs)

  pub admit-used :
      (count used : ℕ) (xs : List MemoryEnvelope)
      → let a = admit cost record_cap token_cap count used xs in
        (a.used ≡ used + total cost a.taken) × (a.used ≤ max used (pos_part token_cap))
  unfolding admit
  admit-used count used [] = omega arith
  admit-used count used (x ∷ xs) = ground (arith, admit-used (count + 1) (used + cost x) xs)

  -- A loop that stopped on tokens left a row out.
  pub admit-exceeded :
      (count used : ℕ) (xs : List MemoryEnvelope)
      → let a = admit cost record_cap token_cap count used xs in
        (length a.taken ≤ length xs) × (a.exceeded ≡ true → length a.taken < length xs)
  unfolding admit
  admit-exceeded count used [] = ground arith
  admit-exceeded count used (x ∷ xs) = ground (arith, admit-exceeded (count + 1) (used + cost x) xs)

-- Rows that all decode, or the first that does not.
first_raised-cases :
    {Model : Type 0} (decode_row : MemoryEnvelope → Decoded Model) (rows : List MemoryEnvelope)
    → ((every (λ r. not (is_raised (decode_row r))) rows ≡ true)
        × (first_raised (map decode_row rows) ≡ none))
      ⊎ ((before : List MemoryEnvelope) × (r : MemoryEnvelope) × (after : List MemoryEnvelope)
          × (rows ≡ before ++ (r ∷ after))
          × (every (λ x. not (is_raised (decode_row x))) before ≡ true)
          × (is_raised (decode_row r) ≡ true)
          × (first_raised (map decode_row rows) ≡ some (decode_row r)))
unfolding first_raised
first_raised-cases decode_row [] = inl (refl, refl)
first_raised-cases decode_row (x ∷ rows) = elim (Bool-cases (is_raised (decode_row x))) [
  | inl p ↦ inr ([], x, rows, refl, refl, p, rw p refl)
  | inr p ↦ elim (first_raised-cases decode_row rows) [
    | inl (q, f) ↦ inl (rw p q, rw p f)
    | inr (before, r, after, e, q, raised, f) ↦
        inr (x ∷ before, r, after, ap (λ l. x ∷ l) e, rw p q, raised, rw p f)
  ]
]

-- A page whose rows decode, and one of which a row does not.
bound-cases :
    {Model : Type 0} (decode_row : MemoryEnvelope → Decoded Model) (cost : MemoryEnvelope → ℕ)
    (record_cap token_cap : ℤ) (page : MemoryPage)
    → let a = admit cost record_cap token_cap 0 0 page.items in
      ((every (λ r. not (is_raised (decode_row r))) a.taken ≡ true)
        × (bound decode_row cost record_cap token_cap page ≡ retrieved (bounded decode_row a page)))
      ⊎ ((before : List MemoryEnvelope) × (r : MemoryEnvelope) × (after : List MemoryEnvelope)
          × (a.taken ≡ before ++ (r ∷ after))
          × (every (λ x. not (is_raised (decode_row x))) before ≡ true)
          × (is_raised (decode_row r) ≡ true)
          × (bound decode_row cost record_cap token_cap page ≡ undecoded (decode_row r)))
unfolding bound
bound-cases {Model} decode_row cost record_cap token_cap page =
    let a = admit cost record_cap token_cap 0 0 page.items in
    elim (first_raised-cases decode_row a.taken) [
      | inl (q, f) ↦ inl (q, ap (outcome a) f)
      | inr (before, r, after, e, q, raised, f) ↦
          inr (before, r, after, e, q, raised, ap (outcome a) f)
    ]
  where
    outcome : Admitted → Option (Decoded Model) → Retrieval Model
    outcome a o = elim o [ some d ↦ undecoded d | none ↦ retrieved (bounded decode_row a page) ]

-- The page behind a retrieval that succeeded.
page_behind :
    {Model : Type 0} (decode_row : MemoryEnvelope → Decoded Model) (cost : MemoryEnvelope → ℕ)
    (record_cap token_cap : ℤ) (answer : Result MemoryPage) (b : BoundedRetrieval Model)
    → (elim answer [
      | err e ↦ refused e
      | ok page ↦ bound decode_row cost record_cap token_cap page
    ])
      ≡ retrieved b
    → (page : MemoryPage) × (every
          (λ r. not (is_raised (decode_row r)))
          (admit cost record_cap token_cap 0 0 page.items).taken
        ≡ true)
      × (bounded decode_row (admit cost record_cap token_cap 0 0 page.items) page ≡ b)
page_behind decode_row cost record_cap token_cap (err e) b h = cc
page_behind decode_row cost record_cap token_cap (ok page) b h =
    elim (bound-cases decode_row cost record_cap token_cap page) [
      | inl (q, e) ↦ (page, q, cc (sym e ∙ h))
      | inr (before, r, after, x, q, raised, e) ↦ cc (sym e ∙ h)
    ]

-- Whatever rows a store returns, a bounded retrieval that succeeds holds at most `record_cap` rows, reports
-- exactly the estimate of those rows, stays within `token_cap`, a negative cap counting as zero, and returns
-- what each of them decodes to, none of which is an exception.
pub retrieve_bounded_bounds :
    {Model : Type 0} (decode_row : MemoryEnvelope → Decoded Model) (cost : MemoryEnvelope → ℕ)
    (query : MemoryQuery → Result MemoryPage) (q : MemoryQuery) (record_cap token_cap : ℤ)
    (b : BoundedRetrieval Model)
    → retrieve_bounded decode_row cost query q record_cap token_cap ≡ retrieved b
    → (length b.envelopes ≤ pos_part record_cap)
      × (b.estimated_tokens ≡ total cost b.envelopes)
      × (b.estimated_tokens ≤ pos_part token_cap)
      × (b.records ≡ map decode_row b.envelopes)
      × (every (λ r. not (is_raised (decode_row r))) b.envelopes ≡ true)
unfolding retrieve_bounded
retrieve_bounded_bounds {Model} decode_row cost query q record_cap token_cap b h =
    let (page, ok_rows, e) =
      page_behind decode_row cost record_cap token_cap
        (query (record q { limit = effective_limit record_cap })) b h in
    let used = admit-used cost record_cap token_cap 0 0 page.items in
    subst
      (λ (r : BoundedRetrieval Model).
        (length r.envelopes ≤ pos_part record_cap)
        × (r.estimated_tokens ≡ total cost r.envelopes)
        × (r.estimated_tokens ≤ pos_part token_cap)
        × (r.records ≡ map decode_row r.envelopes)
        × (every (λ x. not (is_raised (decode_row x))) r.envelopes ≡ true))
      e
      (
        omega (arith, admit-length cost record_cap token_cap 0 0 page.items),
        omega (arith, used.0),
        omega (arith, used.1),
        refl,
        ok_rows,
      )

next_cursor-is_some :
    (c : TextCodec) (n : ℕ) (ms : List MemoryEnvelope)
    → 0 < n
    → is_some (page_of c n ms).next_cursor ≡ ltb n (length ms)
next_cursor-is_some c n ms p = elim (Bool-cases (ltb n (length ms))) [
  | inr e ↦ rw (page_of_last c n ms e) (rw e)
  | inl e ↦
      let t = page_end_at n ms p (ltb→lt _ _ e) in
      rw (page_of_inner c n ms t.last e t.is_last) (rw e)
]

length-take-le : (n : ℕ) (ms : List MemoryEnvelope) → length (take n ms) ≤ n
length-take-le n ms = omega (arith, length-take n ms)

page_of-items :
    (c : TextCodec) (n : ℕ) (ms : List MemoryEnvelope) → (page_of c n ms).items ≡ take n ms
unfolding page_of
page_of-items c n ms = refl

-- Rows taken from the front of a page, the page being all of `ms` or shorter than it.
flag-exact :
    (taken items ms : List MemoryEnvelope) (exceeded more : Bool)
    → take (length taken) items ≡ taken
    → length taken ≤ length items
    → length items ≤ length ms
    → (exceeded ≡ true → length taken < length items)
    → (more ≡ true → length items < length ms)
    → (more ≡ false → items ≡ ms)
    → let truncated = exceeded || (more || ltb (length taken) (length items)) in
      ((truncated ≡ false) × (taken ≡ ms)) ⊎ ((truncated ≡ true) × (length taken < length ms))
flag-exact taken items ms true more pre le short ex mo all = inr (refl, omega (arith, ex refl))
flag-exact taken items ms false true pre le short ex mo all = inr (refl, omega (arith, mo refl))
flag-exact taken items ms false false pre le short ex mo all =
    elim (Bool-cases (ltb (length taken) (length items))) [
      | inl e ↦ inr (e, omega (arith, ltb→lt _ _ e))
      | inr e ↦ inl (e, sym pre ∙ take_all (length taken) items (ground arith) ∙ all refl)
    ]

take-take : (k n : ℕ) (ms : List MemoryEnvelope) → k ≤ n → take k (take n ms) ≡ take k ms
take-take zero n ms h = refl
take-take (suc k) zero ms h = absurd (omega arith)
take-take (suc k) (suc n) [] h = refl
take-take (suc k) (suc n) (m ∷ ms) h = ap (λ l. m ∷ l) (take-take k n ms (omega arith))

-- The rows that are admitted of a page that starts at the first row, and its flag.
bound-exact :
    {Model : Type 0} (decode_row : MemoryEnvelope → Decoded Model) (cost : MemoryEnvelope → ℕ)
    (c : TextCodec) (record_cap token_cap : ℤ) (n : ℕ) (ms : List MemoryEnvelope)
    → 0 < n
    → let a = admit cost record_cap token_cap 0 0 (page_of c n ms).items in
      let b = bounded decode_row a (page_of c n ms) in
      (take (length b.envelopes) ms ≡ b.envelopes)
      × (((b.truncated ≡ false) × (b.envelopes ≡ ms))
          ⊎ ((b.truncated ≡ true) × (length b.envelopes < length ms)))
bound-exact decode_row cost c record_cap token_cap n ms p =
    let items = (page_of c n ms).items in
    let cursor = next_cursor-is_some c n ms p in
    let admitted = admit-exceeded cost record_cap token_cap 0 0 items in
    let taken = (admit cost record_cap token_cap 0 0 items).taken in
    let pre = admit-prefix cost record_cap token_cap 0 0 items in
    let size : length items ≡ min n (length ms) =
      ap (λ (l : List MemoryEnvelope). length l) (page_of-items c n ms) ∙ length-take n ms in
    (
      sym (take-take (length taken) n ms (omega (arith, admitted.0, size)))
          ∙ ap (λ (l : List MemoryEnvelope). take (length taken) l) (sym (page_of-items c n ms))
          ∙ pre,
      flag-exact taken items ms (admit cost record_cap token_cap 0 0 items).exceeded
          (is_some (page_of c n ms).next_cursor) pre admitted.0 (omega (arith, size)) admitted.1
          (λ e. omega (arith, size, ltb→lt _ _ (sym cursor ∙ e)))
          (λ e. page_of-items c n ms ∙ take_all n ms (not_above n (length ms) (sym cursor ∙ e))),
    )
  where
    not_above : (a b : ℕ) → ltb a b ≡ false → b ≤ a
    not_above a b h = ground arith

effective_limit-pos : (cap : ℤ) → 0 < effective_limit cap
effective_limit-pos (pos n) = omega arith
effective_limit-pos (negsuc n) = omega arith

-- A retrieval that starts at the first row of an in-memory store takes rows from the front of the matching
-- ones in the canonical order. If one of them does not decode, it ends in the exception of the first such
-- row. Otherwise it returns them, and its flag is exact: it is down if they are all the matching rows, and up
-- if they are fewer.
pub retrieve_bounded_exact :
    {Model : Type 0} (decode_row : MemoryEnvelope → Decoded Model) (cost : MemoryEnvelope → ℕ)
    (c : TextCodec) (q : MemoryQuery) (now : Instant) (s : InMemoryStore) (record_cap token_cap : ℤ)
    → q.cursor ≡ none
    → (b : BoundedRetrieval Model) × (take (length b.envelopes) (ordered q now s) ≡ b.envelopes)
      × (((b.truncated ≡ false) × (b.envelopes ≡ ordered q now s))
          ⊎ ((b.truncated ≡ true) × (length b.envelopes < length (ordered q now s))))
      × (((every (λ r. not (is_raised (decode_row r))) b.envelopes ≡ true)
            × (retrieve_bounded decode_row cost
                  (λ r. query_records c r now s)
                  q
                  record_cap
                  token_cap
                ≡ retrieved b))
          ⊎ ((before : List MemoryEnvelope) × (r : MemoryEnvelope) × (after : List MemoryEnvelope)
              × (b.envelopes ≡ before ++ (r ∷ after))
              × (every (λ x. not (is_raised (decode_row x))) before ≡ true)
              × (is_raised (decode_row r) ≡ true)
              × (retrieve_bounded decode_row cost
                    (λ x. query_records c x now s)
                    q
                    record_cap
                    token_cap
                  ≡ undecoded (decode_row r))))
unfolding retrieve_bounded query_records ordered matches resume
retrieve_bounded_exact decode_row cost c q now s record_cap token_cap h =
    let n = effective_limit record_cap in
    let ms = ordered q now s in
    let page = page_of c n ms in
    let (front, exact) =
      bound-exact decode_row cost c record_cap token_cap n ms (effective_limit-pos record_cap) in
    (
      bounded decode_row (admit cost record_cap token_cap 0 0 page.items) page,
      front,
      exact,
      rw h (bound-cases decode_row cost record_cap token_cap page),
    )
