-- ===== src/Memory/Models.antt =====
-- src/arema/memory/models.py and errors.py: the records of the memory subsystem, and its errors.
-- A timestamp is a count of microseconds; every datetime of the source is UTC-aware.
use arema.Prelude.{ℕ, String, Bool, Option, List}
use arema.Prelude.Json.{Fields}

abbrev pub Instant : Type 0
Instant = ℕ

pub record MemoryScope : Type 0 where
  pub id : String
  pub parent_id : Option String
  pub scope_type : String
  pub created_at : Instant
  pub closed_at : Option Instant
  pub metadata : Fields

pub record MemoryEnvelope : Type 0 where
  pub id : String
  pub scope_id : String
  pub namespace : String
  pub kind : String
  pub schema_version : ℕ
  pub revision : ℕ
  pub source : String
  pub payload : Fields
  pub metadata : Fields
  pub content_hash : String
  pub created_at : Instant
  pub updated_at : Instant
  pub expires_at : Option Instant

pub record MemoryRelation : Type 0 where
  pub id : String
  pub scope_id : Option String
  pub source_id : String
  pub target_id : String
  pub relation_type : String
  pub metadata : Fields
  pub created_at : Instant

-- `limit` is at least 1 and at most 1000, which pydantic checks.
pub record MemoryQuery : Type 0 where
  pub scope_id : Option String
  pub namespace : Option String
  pub kind : Option String
  pub source : Option String
  pub tags : List String
  pub limit : ℕ
  pub cursor : Option String
  pub include_expired : Bool

pub record MemoryPage : Type 0 where
  pub items : List MemoryEnvelope
  pub next_cursor : Option String

pub data MemoryError : Type 0 where
  store_error backend_unavailable record_not_found revision_conflict : MemoryError
  invalid_cursor codec_registration relation_integrity : MemoryError

pub data Result {ℓ} (A : Type ℓ) : Type ℓ where
  ok : A → Result A
  err : MemoryError → Result A

infixl 10 ◌>>=◌
abbrev pub ◌>>=◌ {ℓ κ} : {A : Type ℓ} {B : Type κ} → Result A → (A → Result B) → Result B
ok a >>= f = f a
err e >>= f = err e
