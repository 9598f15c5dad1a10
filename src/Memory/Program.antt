-- ===== src/Memory/Program.antt =====
-- Clients of the store: sequences of calls, with transactions inside one another, as code that uses
-- src/arema/memory/backends/memory.py can write them.
use arema.Prelude.{ℕ, String}
use arema.Memory.Models.{Instant, MemoryScope, MemoryEnvelope, MemoryRelation, Result, ok, err}
use arema.Memory.Store.{
  InMemoryStore, Method, initialize, transaction, create_scope, close_scope, insert_record,
  update_record, create_relation,
}

mutual
  pub data Call : Type 0 where
    init : Call
    new_scope : MemoryScope → Call
    end_scope : String → Instant → Call
    insert : MemoryEnvelope → Call
    update : Instant → MemoryEnvelope → ℕ → Call
    relate : MemoryRelation → Call
    atomic : Calls → Call

  -- After `next` an error ends the sequence; `attempt` is a `try` whose handler goes on.
  pub data Calls : Type 0 where
    done : Calls
    next : Call → Calls → Calls
    attempt : Call → Calls → Calls

abbrev pub ignore : {A : Type 0} → Result A × InMemoryStore → Result (Unit {0}) × InMemoryStore
ignore (ok a, s) = (ok tt, s)
ignore (err e, s) = (err e, s)

abbrev pub proceed :
    Result (Unit {0}) × InMemoryStore → Method (Unit {0}) → Result (Unit {0}) × InMemoryStore
proceed (ok a, s) rest = rest s
proceed (err e, s) rest = (err e, s)

unfoldable mutual
  pub run_call : Call → Method (Unit {0})
  run_call init s = initialize s
  run_call (new_scope scope) s = ignore (create_scope scope s)
  run_call (end_scope scope_id t) s = ignore (close_scope scope_id t s)
  run_call (insert r) s = ignore (insert_record r s)
  run_call (update now r n) s = ignore (update_record now r n s)
  run_call (relate rel) s = ignore (create_relation rel s)
  run_call (atomic body) s = transaction (λ t. run body t) s

  pub run : Calls → Method (Unit {0})
  run done s = (ok tt, s)
  run (next call rest) s = proceed (run_call call s) (λ t. run rest t)
  run (attempt call rest) s = run rest (run_call call s).1
