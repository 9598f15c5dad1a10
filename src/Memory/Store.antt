-- ===== src/Memory/Store.antt =====
-- src/arema/memory/backends/memory.py: `InMemoryStore`. A method takes the store and returns its
-- result beside the new store; the lock makes each of them one step. A frozen model is its own copy.
use arema.Prelude.{
  ℕ, ◌+◌, String, Bool, true, false, not, Option, none, some, [], eqb, if◌then◌else◌,
}
use arema.Prelude.Dict.{Dict, lookup, insert, has}
use arema.Memory.Models.{
  Instant, MemoryScope, MemoryEnvelope, MemoryRelation, record_not_found, revision_conflict,
  relation_integrity, Result, ok, err,
}

pub record InMemoryStore : Type 0 where
  pub initialized : Bool
  pub scopes : Dict MemoryScope
  pub records : Dict MemoryEnvelope
  pub relations : Dict MemoryRelation

-- A method that may raise: what it wrote before stays written.
abbrev pub Method : Type 0 → Type 0
Method A = InMemoryStore → Result A × InMemoryStore

unfoldable pub empty : InMemoryStore
empty = record { initialized = false; scopes = []; records = []; relations = [] }

unfoldable pub initialize : Method (Unit {0})
initialize s = (ok tt, record s { initialized = true })

-- The rollback restores the three dicts, and leaves the readiness flag as it is.
unfoldable pub rollback : InMemoryStore → InMemoryStore → InMemoryStore
rollback before s = record s {
  scopes = before.scopes;
  records = before.records;
  relations = before.relations;
}

unfoldable pub after_body :
    {A : Type 0} → InMemoryStore → Result A × InMemoryStore → Result A × InMemoryStore
unfolding rollback
after_body before (ok a, s) = (ok a, s)
after_body before (err e, s) = (err e, rollback before s)

-- `with store.transaction(): body`
unfoldable pub transaction : {A : Type 0} → Method A → Method A
unfolding after_body
transaction body s = after_body s (body s)

unfoldable pub create_scope : MemoryScope → Method MemoryScope
create_scope scope s = (ok scope, record s { scopes = insert scope.id scope s.scopes })

unfoldable pub get_scope : String → InMemoryStore → Option MemoryScope
get_scope scope_id s = lookup scope_id s.scopes

close_found : Option MemoryScope → String → Instant → Method MemoryScope
close_found none scope_id closed_at s = (err record_not_found, s)
close_found (some stored) scope_id closed_at s =
    let closed = record stored { closed_at = some closed_at } in
    (ok closed, record s { scopes = insert scope_id closed s.scopes })

unfoldable pub close_scope : String → Instant → Method MemoryScope
unfolding close_found
close_scope scope_id closed_at s = close_found (lookup scope_id s.scopes) scope_id closed_at s

unfoldable pub insert_record : MemoryEnvelope → Method MemoryEnvelope
insert_record r s = (ok r, record s { records = insert r.id r s.records })

unfoldable pub get_record : String → InMemoryStore → Option MemoryEnvelope
get_record record_id s = lookup record_id s.records

-- The row that a successful update stores; `now` is `utc_now()`.
abbrev pub bumped : Instant → MemoryEnvelope → MemoryEnvelope → MemoryEnvelope
bumped now existing r = record r {
  revision = existing.revision + 1;
  created_at = existing.created_at;
  updated_at = now;
}

update_found : Option MemoryEnvelope → Instant → MemoryEnvelope → ℕ → Method MemoryEnvelope
update_found none now r expected_revision s = (err record_not_found, s)
update_found (some existing) now r expected_revision s =
    if eqb existing.revision expected_revision
    then (
      ok (bumped now existing r),
      record s { records = insert r.id (bumped now existing r) s.records },
    )
    else (err revision_conflict, s)

unfoldable pub update_record : Instant → MemoryEnvelope → ℕ → Method MemoryEnvelope
unfolding update_found
update_record now r expected_revision s =
    update_found (lookup r.id s.records) now r expected_revision s

unfoldable pub create_relation : MemoryRelation → Method MemoryRelation
create_relation rel s =
    if not (has rel.source_id s.records)
    then (err relation_integrity, s)
    else if not (has rel.target_id s.records)
    then (err relation_integrity, s)
    else (ok rel, record s { relations = insert rel.id rel s.relations })
