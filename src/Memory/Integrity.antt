-- ===== src/Memory/Integrity.antt =====
-- What holds of the store between two calls: rows stand under their ids, and no relation dangles.
use arema.Prelude.{
  ℕ, String, true, inl, inr, Option-cases, Bool-cases, eqb, ◌≡◌, refl, none, some, [], ◌∷◌, eq_iff,
  arith,
}
use arema.Prelude.Dict.{Dict, lookup, insert, has, lookup-insert}
use arema.Memory.Models.{MemoryEnvelope, MemoryRelation, Instant, Result, ok, err}
use arema.Memory.Store.{
  InMemoryStore, Method, empty, initialize, transaction, create_scope, close_scope, insert_record,
  update_record, create_relation, bumped, after_body,
}
use arema.Memory.Program.{
  Call, Calls, init, new_scope, end_scope, insert as insert_call, update, relate, atomic, done,
  next, attempt, ignore, proceed, run, run_call,
}

abbrev pub IsIndexed : Dict MemoryEnvelope → Type 0
IsIndexed [] = Unit
IsIndexed ((k, r) ∷ d) = (r.id ≡ k) × (lookup k d ≡ none) × IsIndexed d

pub record IsConsistent (s : InMemoryStore) : Type 0 where
  pub indexed : IsIndexed s.records
  pub ends :
      (k : String) (rel : MemoryRelation)
      → lookup k s.relations ≡ some rel
      → (has rel.source_id s.records ≡ true) × (has rel.target_id s.records ≡ true)

pub IsIndexed-insert :
    (r : MemoryEnvelope) (d : Dict MemoryEnvelope) → IsIndexed d → IsIndexed (insert r.id r d)
unfolding insert
IsIndexed-insert r [] h = (refl, unfold lookup in refl, tt)
IsIndexed-insert r ((k, x) ∷ d) h =
    ground (arith, eq_iff k r.id, lookup-insert r.id k r d, eq_iff r.id k, IsIndexed-insert r d h.2)

pub has-insert :
    (r : MemoryEnvelope) (k : String) (d : Dict MemoryEnvelope)
    → has k d ≡ true
    → has k (insert r.id r d) ≡ true
has-insert r k d h = ground (arith, lookup-insert r.id k r d)

IsConsistent-put :
    (s : InMemoryStore) (r : MemoryEnvelope)
    → IsConsistent s
    → IsConsistent (record s { records = insert r.id r s.records })
IsConsistent-put s r h = record {
  indexed = IsIndexed-insert r s.records h.indexed;
  ends = λ k rel e. (
    has-insert r rel.source_id s.records (h.ends k rel e).0,
    has-insert r rel.target_id s.records (h.ends k rel e).1,
  );
}

update_record-IsConsistent :
    (s : InMemoryStore) (now : Instant) (r : MemoryEnvelope) (n : ℕ)
    → IsConsistent s
    → IsConsistent (update_record now r n s).1
unfolding update_record
update_record-IsConsistent s now r n h = elim (Option-cases (lookup r.id s.records)) [
  | inl e ↦ rw e h
  | inr (x, e) ↦ rw e (elim (Bool-cases (eqb x.revision n)) [
    | inl p ↦ rw p (IsConsistent-put s (bumped now x r) h)
    | inr p ↦ rw p h
  ])
]

create_relation-IsConsistent :
    (s : InMemoryStore) (rel : MemoryRelation)
    → IsConsistent s
    → IsConsistent (create_relation rel s).1
unfolding create_relation
create_relation-IsConsistent s rel h = elim (Bool-cases (has rel.source_id s.records)) [
  | inr e ↦ rw e h
  | inl e ↦ rw e (elim (Bool-cases (has rel.target_id s.records)) [
    | inr f ↦ rw f h
    | inl f ↦ rw f (record {
      indexed = h.indexed;
      ends = λ k x. rw lookup-insert (ground (arith, h.ends k x));
    })
  ])
]

close_scope-IsConsistent :
    (s : InMemoryStore) (k : String) (t : Instant)
    → IsConsistent s
    → IsConsistent (close_scope k t s).1
unfolding close_scope
close_scope-IsConsistent s k t h = elim (Option-cases (lookup k s.scopes)) [
  | inl e ↦ rw e h
  | inr (x, e) ↦ rw e (record { indexed = h.indexed; ends = h.ends })
]

ignore-IsConsistent :
    {A : Type 0} (o : Result A × InMemoryStore) → IsConsistent o.1 → IsConsistent (ignore o).1
ignore-IsConsistent (ok a, s) h = h
ignore-IsConsistent (err e, s) h = h

proceed-IsConsistent :
    (o : Result (Unit {0}) × InMemoryStore) (rest : Method (Unit {0}))
    → IsConsistent o.1
    → ((s : InMemoryStore) → IsConsistent s → IsConsistent (rest s).1)
    → IsConsistent (proceed o rest).1
proceed-IsConsistent (ok a, s) rest h k = k s h
proceed-IsConsistent (err e, s) rest h k = h

after_body-IsConsistent :
    (s : InMemoryStore) (o : Result (Unit {0}) × InMemoryStore)
    → IsConsistent s
    → IsConsistent o.1
    → IsConsistent (after_body s o).1
unfolding after_body
after_body-IsConsistent s (ok a, t) h k = k
after_body-IsConsistent s (err e, t) h k = record { indexed = h.indexed; ends = h.ends }

mutual
  unfolding run initialize create_scope insert_record transaction

  call-IsConsistent :
      (c : Call) (s : InMemoryStore) → IsConsistent s → IsConsistent (run_call c s).1
  call-IsConsistent init s h = record { indexed = h.indexed; ends = h.ends }
  call-IsConsistent (new_scope scope) s h = record { indexed = h.indexed; ends = h.ends }
  call-IsConsistent (end_scope k t) s h =
      ignore-IsConsistent (close_scope k t s) (close_scope-IsConsistent s k t h)
  call-IsConsistent (insert_call r) s h = IsConsistent-put s r h
  call-IsConsistent (update now r n) s h =
      ignore-IsConsistent (update_record now r n s) (update_record-IsConsistent s now r n h)
  call-IsConsistent (relate rel) s h =
      ignore-IsConsistent (create_relation rel s) (create_relation-IsConsistent s rel h)
  call-IsConsistent (atomic body) s h =
      after_body-IsConsistent s (run body s) h (calls-IsConsistent body s h)

  calls-IsConsistent : (p : Calls) (s : InMemoryStore) → IsConsistent s → IsConsistent (run p s).1
  calls-IsConsistent done s h = h
  calls-IsConsistent (next c p) s h =
      proceed-IsConsistent (run_call c s) (λ t. run p t) (call-IsConsistent c s h)
        (calls-IsConsistent p)
  calls-IsConsistent (attempt c p) s h =
      calls-IsConsistent p (run_call c s).1 (call-IsConsistent c s h)

-- Whatever a client calls, in transactions that fail or not, rows stay under their ids, and both
-- ends of every stored relation exist.
pub run-IsConsistent : (p : Calls) (s : InMemoryStore) → IsConsistent s → IsConsistent (run p s).1
run-IsConsistent = calls-IsConsistent

pub empty-IsConsistent : IsConsistent empty
unfolding empty lookup
empty-IsConsistent = record { indexed = tt; ends = λ k rel e. cc }
