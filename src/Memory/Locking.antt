-- ===== src/Memory/Locking.antt =====
-- The optimistic concurrency of `update_record`, and the rollback of `transaction`
-- (src/arema/memory/backends/memory.py).
use arema.Prelude.{
  ℕ, ◌+◌, ◌==◌, if◌then◌else◌, String, false, ◌≡◌, ◌≢◌, refl, ap, ◌∙◌, inl, inr, none, some, eq_iff,
  eq_refl, arith, eqb, Option-cases, Bool-cases, ◌⊎◌,
}
use arema.Prelude.Dict.{lookup, insert, lookup-insert}
use arema.Memory.Models.{
  Instant, MemoryEnvelope, MemoryError, record_not_found, revision_conflict, Result, ok, err,
}
use arema.Memory.Store.{InMemoryStore, bumped, get_record, update_record, transaction, after_body}
use arema.Memory.Program.{Calls, atomic, run, run_call}

-- The branches of an update.
update_record-cases :
    (now : Instant) (r : MemoryEnvelope) (n : ℕ) (s : InMemoryStore)
    → ((get_record r.id s ≡ none) × (update_record now r n s ≡ (err record_not_found, s)))
      ⊎ ((old : MemoryEnvelope) × (get_record r.id s ≡ some old)
          × (old.revision ≢ n)
          × (update_record now r n s ≡ (err revision_conflict, s)))
      ⊎ ((old : MemoryEnvelope) × (get_record r.id s ≡ some old)
          × (old.revision ≡ n)
          × (update_record now r n s ≡ (
            ok (bumped now old r),
            record s { records = insert r.id (bumped now old r) s.records },
          )))
unfolding update_record get_record
update_record-cases now r n s = elim (Option-cases (lookup r.id s.records)) [
  | inl e ↦ inl (e, rw e)
  | inr (old, e) ↦ inr (elim (Bool-cases (eqb old.revision n)) [
    | inr p ↦ inl (old, e, stale old p, rw e (rw p))
    | inl p ↦ inr (old, e, ground arith, rw e (rw p))
  ])
]
  where
    stale : (old : MemoryEnvelope) → eqb old.revision n ≡ false → old.revision ≢ n
    stale old p e = ground arith

-- The row as it is after an update: the written one, at the next revision, with the creation time that the
-- row had before and the time of the update.
abbrev pub updated_row : Instant → ℕ → MemoryEnvelope → MemoryEnvelope → MemoryEnvelope
updated_row now n old r = record {
  id = r.id;
  scope_id = r.scope_id;
  namespace = r.namespace;
  kind = r.kind;
  schema_version = r.schema_version;
  revision = n + 1;
  source = r.source;
  payload = r.payload;
  metadata = r.metadata;
  content_hash = r.content_hash;
  created_at = old.created_at;
  updated_at = now;
  expires_at = r.expires_at;
}

-- Every outcome of an update that expects revision `n`: the row is missing, or its revision is another, and
-- the store is as it was; or its revision is `n`, and then exactly that row is replaced, by the written one
-- with revision `n + 1`, the creation time of the old one and the time of the update, while the scopes and
-- the relations stay.
pub update_record_outcomes :
    (now : Instant) (r : MemoryEnvelope) (n : ℕ) (s : InMemoryStore) (k : String)
    → ((get_record r.id s ≡ none) × (update_record now r n s ≡ (err record_not_found, s)))
      ⊎ ((old : MemoryEnvelope) × (get_record r.id s ≡ some old)
          × (old.revision ≢ n)
          × (update_record now r n s ≡ (err revision_conflict, s)))
      ⊎ ((old : MemoryEnvelope) × (get_record r.id s ≡ some old)
          × (old.revision ≡ n)
          × ((update_record now r n s).0 ≡ ok (updated_row now n old r))
          × (get_record k (update_record now r n s).1
              ≡ (if r.id == k then some (updated_row now n old r) else get_record k s))
          × ((update_record now r n s).1.scopes ≡ s.scopes)
          × ((update_record now r n s).1.relations ≡ s.relations))
unfolding get_record
update_record_outcomes now r n s k = elim (update_record-cases now r n s) [
  | inl h ↦ inl h
  | inr (inl h) ↦ inr (inl h)
  | inr (inr (old, e, p, f)) ↦
      let row : bumped now old r ≡ updated_row now n old r =
        ap (λ m. record r { revision = m + 1; created_at = old.created_at; updated_at = now }) p in
      inr (
        inr (
          old,
          e,
          p,
          ap (λ (o : Result MemoryEnvelope × InMemoryStore). o.0) f ∙ ap ok row,
          ap (λ (o : Result MemoryEnvelope × InMemoryStore). lookup k o.1.records) f
              ∙ lookup-insert r.id k (bumped now old r) s.records
              ∙ ap (λ w. if r.id == k then some w else lookup k s.records) row,
          ap (λ (o : Result MemoryEnvelope × InMemoryStore). o.1.scopes) f,
          ap (λ (o : Result MemoryEnvelope × InMemoryStore). o.1.relations) f,
        ))
]

-- An update of one row leaves every other row as it was.
pub update_record_other :
    (now : Instant) (r : MemoryEnvelope) (n : ℕ) (s : InMemoryStore) (k : String)
    → k ≢ r.id
    → get_record k (update_record now r n s).1 ≡ get_record k s
unfolding update_record get_record
update_record_other now r n s k h = elim (Option-cases (lookup r.id s.records)) [
  | inl e ↦ rw e
  | inr (x, e) ↦
      rw e (ground (arith, lookup-insert r.id k (bumped now x r) s.records, eq_iff r.id k))
]

-- A successful update read the revision that it expected, and left its row one revision up.
update_record-eq-ok :
    (t : Instant) (a : MemoryEnvelope) (n : ℕ) (s : InMemoryStore) {w : MemoryEnvelope}
    → (update_record t a n s).0 ≡ ok w
    → (old : MemoryEnvelope) × (get_record a.id s ≡ some old)
      × (old.revision ≡ n)
      × (get_record a.id (update_record t a n s).1 ≡ some (bumped t old a))
unfolding get_record
update_record-eq-ok t a n s won = elim (update_record-cases t a n s) [
  | inl (e, f) ↦ cc (ap (λ (o : Result MemoryEnvelope × InMemoryStore). o.0) f)
  | inr (inl (old, e, p, f)) ↦ cc (ap (λ (o : Result MemoryEnvelope × InMemoryStore). o.0) f)
  | inr (inr (old, e, p, f)) ↦ (
    old,
    e,
    p,
    ap (λ (o : Result MemoryEnvelope × InMemoryStore). lookup a.id o.1.records) f
        ∙ lookup-insert a.id a.id (bumped t old a) s.records
        ∙ ap (λ b. if b then some (bumped t old a) else lookup a.id s.records) (eq_refl a.id),
  )
]

update_record_stale :
    (u : Instant) (b : MemoryEnvelope) (n : ℕ) (s : InMemoryStore) (old : MemoryEnvelope)
    → get_record b.id s ≡ some old
    → old.revision ≢ n
    → update_record u b n s ≡ (err revision_conflict, s)
unfolding update_record get_record
update_record_stale u b n s old e p = rw e (ground arith)

-- Two writers that read one revision of one row: if the first succeeds, the second is refused, and
-- leaves the store as the first wrote it.
pub no_lost_update :
    (t u : Instant) (a b : MemoryEnvelope) (n : ℕ) (s : InMemoryStore) (w : MemoryEnvelope)
    → b.id ≡ a.id
    → (update_record t a n s).0 ≡ ok w
    → update_record u b n (update_record t a n s).1
      ≡ (err revision_conflict, (update_record t a n s).1)
no_lost_update t u a b n s w same won =
    let (old, found, rev, stored) = update_record-eq-ok t a n s won in
    let s' = (update_record t a n s).1 in
    update_record_stale u b n s' (bumped t old a) (ap (λ k. get_record k s') same ∙ stored)
      (omega arith)

-- A transaction whose body raises ends in that error with the three dicts as it found them, whatever
-- the body wrote, in nested transactions too; one whose body does not raise is its body.
pub transaction_atomic :
    (body : Calls) (s : InMemoryStore)
    → ((e : MemoryError) × ((run body s).0 ≡ err e)
        × ((run_call (atomic body) s).0 ≡ err e)
        × ((run_call (atomic body) s).1.scopes ≡ s.scopes)
        × ((run_call (atomic body) s).1.records ≡ s.records)
        × ((run_call (atomic body) s).1.relations ≡ s.relations))
      ⊎ (((run body s).0 ≡ ok tt) × (run_call (atomic body) s ≡ run body s))
unfolding run transaction
transaction_atomic body s = after (run body s)
  where
    after :
        (o : Result (Unit {0}) × InMemoryStore)
        → ((e : MemoryError) × (o.0 ≡ err e)
            × ((after_body s o).0 ≡ err e)
            × ((after_body s o).1.scopes ≡ s.scopes)
            × ((after_body s o).1.records ≡ s.records)
            × ((after_body s o).1.relations ≡ s.relations))
          ⊎ ((o.0 ≡ ok tt) × (after_body s o ≡ o))
    after (ok a, t) = inr (refl, refl)
    after (err x, t) = inl (x, refl, refl, refl, refl, refl)
