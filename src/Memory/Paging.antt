-- ===== src/Memory/Paging.antt =====
-- Paging through `query_records` of src/arema/memory/backends/memory.py by its cursors.
use mathlib.Core.List.{Perm, append_assoc}
use arema.Prelude.{
  ℕ, zero, suc, ◌≤◌, ◌<◌, String, true, false, ◌≡◌, refl, sym, ap, ◌∙◌, inl, inr, subst, Option,
  none, some, List, [], ◌∷◌, ◌++◌, arith, All, keep, take, drop, length, Bool-cases, ltb, ltb→lt,
  eq_iff,
}
use arema.Prelude.Dict.{Dict, lookup, values}
use arema.Prelude.Sort.{Ascending, AllApart, Apart, AllApart-keep, sort_by-Ascending, sort_by-perm}
use arema.Memory.Models.{
  Instant, MemoryEnvelope, MemoryQuery, MemoryPage, Result, ok, err, store_error, ◌>>=◌,
}
use arema.Memory.Store.{InMemoryStore}
use arema.Memory.Cursor.{
  TextCodec, IsRoundTrip, sort_key, key_lt_irrefl, key_lt_trans, key_lt_asym, key_lt_apart,
  encode_cursor, decode_cursor-encode_cursor,
}
use arema.Memory.Query.{matches, before, ordered, last?, page_of, resume, query_records}
use arema.Memory.Integrity.{IsIndexed, IsConsistent}

absent-id :
    (r : MemoryEnvelope) (d : Dict MemoryEnvelope)
    → IsIndexed d
    → lookup r.id d ≡ none
    → All (Apart before r) (values d)
unfolding lookup
absent-id r [] h e = tt
absent-id r ((k, x) ∷ d) h e = (
  key_lt_apart (sort_key r) (sort_key x) (unfold sort_key in ground (arith, eq_iff k r.id)),
  absent-id r d h.2 (ground (arith, eq_iff k r.id)),
)

-- The rows of an indexed dict have different keys.
values-AllApart : (d : Dict MemoryEnvelope) → IsIndexed d → AllApart before (values d)
values-AllApart [] h = tt
values-AllApart ((k, r) ∷ d) h = (absent-id r d h.2 (rw h.0 h.1), values-AllApart d h.2)

module _ (q : MemoryQuery) (now : Instant) (s : InMemoryStore) (consistent : IsConsistent s) where
  -- The canonical order is strict: no two rows tie.
  pub ordered-Ascending : Ascending before (ordered q now s)
  unfolding ordered
  ordered-Ascending =
      sort_by-Ascending before (λ a b c. key_lt_trans (sort_key a) (sort_key b) (sort_key c))
        (keep (matches q now) (values s.records))
        (AllApart-keep before (matches q now) (values s.records)
          (values-AllApart s.records consistent.indexed))

pub ordered-perm :
    (q : MemoryQuery) (now : Instant) (s : InMemoryStore)
    → Perm (ordered q now s) (keep (matches q now) (values s.records))
unfolding ordered
ordered-perm q now s = sort_by-perm before (keep (matches q now) (values s.records))

keep-above :
    (x : MemoryEnvelope) (rs : List MemoryEnvelope)
    → All (λ r. before x r ≡ true) rs
    → keep (before x) rs ≡ rs
keep-above x [] h = refl
keep-above x (r ∷ rs) h = rw (h.0, keep-above x rs h.1)

-- Of an ascending list, what lies above one of its rows is what follows it.
keep_after :
    (x : MemoryEnvelope) (ys rs : List MemoryEnvelope)
    → Ascending before (ys ++ x ∷ rs)
    → keep (before x) (ys ++ x ∷ rs) ≡ rs
keep_after x [] rs h = rw (key_lt_irrefl (sort_key x), keep-above x rs h.0)
keep_after x (a ∷ ys) rs h =
    rw (key_lt_asym (sort_key a) (sort_key x) (at_middle ys h.0)) (keep_after x ys rs h.1)
  where
    at_middle :
        (bs : List MemoryEnvelope) → All (λ r. before a r ≡ true) (bs ++ x ∷ rs) → before a x ≡ true
    at_middle [] k = k.0
    at_middle (b ∷ bs) k = at_middle bs k.1

-- A page that is not the last one ends in a row `x`, and the rows after it are what is left.
pub record Cut (n : ℕ) (ms : List MemoryEnvelope) : Type 0 where
  pub front : List MemoryEnvelope
  pub last : MemoryEnvelope
  pub whole : ms ≡ front ++ last ∷ drop n ms
  pub page : take n ms ++ drop n ms ≡ ms
  pub is_last : last? (take n ms) ≡ some last

page_end_cons :
    (x : MemoryEnvelope) (n : ℕ) (ms : List MemoryEnvelope)
    → suc n < length ms
    → Cut (suc n) ms
    → Cut (suc (suc n)) (x ∷ ms)
page_end_cons x n [] h c = elim h [ ]
page_end_cons x n (m ∷ ms) h c = record {
  front = x ∷ c.front;
  last = c.last;
  whole = ap (λ l. x ∷ l) c.whole;
  page = ap (λ l. x ∷ l) c.page;
  is_last = c.is_last;
}

page_end : (n : ℕ) (ms : List MemoryEnvelope) → suc n < length ms → Cut (suc n) ms
page_end n [] h = elim h [ ]
page_end zero (m ∷ ms) h = record {
  front = [];
  last = m;
  whole = refl;
  page = refl;
  is_last = refl;
}
page_end (suc n) (m ∷ ms) h = page_end_cons m n ms (omega arith) (page_end n ms (omega arith))

pub page_end_at : (n : ℕ) (ms : List MemoryEnvelope) → 0 < n → n < length ms → Cut n ms
page_end_at zero ms p h = elim p [ ]
page_end_at (suc n) ms p h = page_end n ms h

pub take_all : (n : ℕ) (ms : List MemoryEnvelope) → length ms ≤ n → take n ms ≡ ms
take_all zero [] h = refl
take_all (suc n) [] h = refl
take_all zero (m ∷ ms) h = absurd (omega arith)
take_all (suc n) (m ∷ ms) h = ap (λ l. m ∷ l) (take_all n ms (omega arith))

length-drop-lt :
    (n : ℕ) (ms : List MemoryEnvelope) → 0 < n → n < length ms → length (drop n ms) < length ms
length-drop-lt zero ms p h = elim p [ ]
length-drop-lt (suc n) [] p h = elim h [ ]
length-drop-lt (suc zero) (m ∷ ms) p h = omega arith
length-drop-lt (suc (suc n)) (m ∷ ms) p h =
    omega (arith, length-drop-lt (suc n) ms (omega arith) (omega arith))

pub page_of_last :
    (c : TextCodec) (n : ℕ) (ms : List MemoryEnvelope)
    → ltb n (length ms) ≡ false
    → page_of c n ms ≡ record { items = ms; next_cursor = none }
unfolding page_of
page_of_last c n ms h = rw (h, take_all n ms (ground arith))

pub page_of_inner :
    (c : TextCodec) (n : ℕ) (ms : List MemoryEnvelope) (x : MemoryEnvelope)
    → ltb n (length ms) ≡ true
    → last? (take n ms) ≡ some x
    → page_of c n ms ≡ record { items = take n ms; next_cursor = some (encode_cursor c x) }
unfolding page_of
page_of_inner c n ms x h e = rw (h, e)

module _ (c : TextCodec) (q : MemoryQuery) (now : Instant) (s : InMemoryStore) where
  abbrev pub ask : Option String → Result MemoryPage
  ask cursor = query_records c (record q { cursor = cursor }) now s

  -- What a client does with a page: it stops at the last one, and goes on from the cursor of any other.
  abbrev pub follow :
      Option String
      → List MemoryEnvelope
      → (String → Result (List MemoryEnvelope))
      → Result (List MemoryEnvelope)
  follow none items more = ok items
  follow (some cursor) items more = do rest ← more cursor; ok (items ++ rest)

  -- A client that follows the cursors for at most `fuel` pages.
  unfoldable pub collect : ℕ → Option String → Result (List MemoryEnvelope)
  collect zero cursor = err store_error
  collect (suc fuel) cursor = do
    page ← ask cursor
    follow page.next_cursor page.items (λ k. collect fuel (some k))

  same_rows : (k : Option String) → ordered (record q { cursor = k }) now s ≡ ordered q now s
  unfolding ordered matches
  same_rows k = refl

  ask-eq :
      (k : Option String) (rs : List MemoryEnvelope)
      → resume c k (ordered q now s) ≡ ok rs
      → ask k ≡ ok (page_of c q.limit rs)
  unfolding query_records
  ask-eq k rs h = rw (same_rows k) (rw h)

module _ (c : TextCodec) (law : IsRoundTrip c) (q : MemoryQuery) (now : Instant) (s : InMemoryStore)
    (consistent : IsConsistent s) where
  -- A cursor of row `x` resumes behind `x`.
  resume-after :
      (x : MemoryEnvelope) (ys rs : List MemoryEnvelope)
      → ordered q now s ≡ ys ++ x ∷ rs
      → resume c (some (encode_cursor c x)) (ordered q now s) ≡ ok rs
  unfolding resume
  resume-after x ys rs e = rw (decode_cursor-encode_cursor c law x) (
      rw e (
        ap ok
          (keep_after x ys rs (subst (Ascending before) e (ordered-Ascending q now s consistent)))))

  collect-suffix :
      (fuel : ℕ) (k : Option String) (ys rs : List MemoryEnvelope)
      → 0 < q.limit
      → length rs < fuel
      → ordered q now s ≡ ys ++ rs
      → resume c k (ordered q now s) ≡ ok rs
      → collect c q now s fuel k ≡ ok rs
  unfolding collect
  collect-suffix zero k ys rs pos h e r = elim h [ ]
  collect-suffix (suc fuel) k ys rs pos h e r =
      rw (ask-eq c q now s k rs r) (elim (Bool-cases (ltb q.limit (length rs))) [
        | inr p ↦ rw (page_of_last c q.limit rs p)
        | inl p ↦
            let t = page_end_at q.limit rs pos (ltb→lt _ _ p) in
            let shape : ordered q now s ≡ (ys ++ t.front) ++ t.last ∷ drop q.limit rs =
              e ∙ ap (λ l. ys ++ l) t.whole ∙ sym (append_assoc ys t.front _) in
            let below : length (drop q.limit rs) < fuel =
              omega (arith, length-drop-lt q.limit rs pos (ltb→lt _ _ p)) in
            rw (page_of_inner c q.limit rs t.last p t.is_last) (
              rw
                (collect-suffix fuel (some (encode_cursor c t.last))
                  ((ys ++ t.front) ++ t.last ∷ []) (drop q.limit rs) pos below
                  (shape ∙ sym (append_assoc (ys ++ t.front) (t.last ∷ []) _))
                  (resume-after t.last (ys ++ t.front) (drop q.limit rs) shape))
                (ap ok t.page))
      ])

  pub collect-eq-ordered :
      (fuel : ℕ)
      → 0 < q.limit
      → length (ordered q now s) < fuel
      → collect c q now s fuel none ≡ ok (ordered q now s)
  collect-eq-ordered fuel pos h =
      collect-suffix fuel none [] (ordered q now s) pos h refl (unfold resume in refl)

  -- Following the cursors page by page, with fuel above the number of matching rows and any positive
  -- page size, ends without an error and returns every matching row exactly once (the result is a
  -- permutation of the matching rows) in strictly ascending (created_at, id) order.
  pub collect_complete :
      (fuel : ℕ)
      → 0 < q.limit
      → length (ordered q now s) < fuel
      → (rows : List MemoryEnvelope) × (collect c q now s fuel none ≡ ok rows)
        × Perm rows (keep (matches q now) (values s.records))
        × Ascending before rows
  collect_complete fuel pos h = (
    ordered q now s,
    collect-eq-ordered fuel pos h,
    ordered-perm q now s,
    ordered-Ascending q now s consistent,
  )
