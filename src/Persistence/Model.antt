-- ===== src/Persistence/Model.antt =====
-- The values of movie/persistence/model.py: identities, write results and changes.
use movie.Common.{
  ℕ, ◌≡◌, ◌↔◌, not, ◌&&◌, Bool, true, List, Option, none, some, leb, length, is_empty, contains,
  ◌==◌, nat_eq, list_eq, list_beq_iff, arith,
}
use movie.Remoting.Text.Utf8.{Text, Bytes, encode}
use movie.Persistence.Errors.{PersistenceError, Attempt, returned, raised, ◌>>=◌, check}

pub record PersistenceId : Type 0 where
  pub entity_type : Text
  pub entity_id : Text

-- Both columns of the key are equal.
unfoldable pub same_id : PersistenceId → PersistenceId → Bool
same_id a b = a.entity_type == b.entity_type && a.entity_id == b.entity_id

pub same_id_iff : (a b : PersistenceId) → (same_id a b ≡ true) ↔ (a ≡ b)
unfolding same_id
same_id_iff a b =
    ground (arith, list_beq_iff a.entity_type b.entity_type, list_beq_iff a.entity_id b.entity_id)

-- The number of bytes of a text that has an encoding; the code raises on any other text.
abbrev encoded_length : Option Bytes → Attempt ℕ
encoded_length none = raised PersistenceError.invalid_value
encoded_length (some bytes) = returned (length bytes)

-- `_require_name`
unfoldable pub require_name : Text → Attempt Text
require_name value = do
  _ ← check (not (is_empty value) && not (contains value 0)) PersistenceError.invalid_value
  n ← encoded_length (encode value)
  _ ← check (leb n 512) PersistenceError.invalid_value
  returned value

-- `PersistenceId(...)`
unfoldable pub persistence_id : Text → Text → Attempt PersistenceId
unfolding require_name
persistence_id entity_type entity_id = do
  t ← require_name entity_type
  i ← require_name entity_id
  returned (record { entity_type = t; entity_id = i })

-- A state as it is stored, or none for a tombstone.
abbrev pub Content : Type 0
Content = Option (Text × Bytes)

pub record DurableStateRecord : Type 0 where
  pub persistence_id : PersistenceId
  pub revision : ℕ
  pub operation_id : ℕ
  pub content : Content

pub record WriteResult : Type 0 where
  pub revision : ℕ
  pub duplicate : Bool

pub record DurableStateChange : Type 0 where
  pub offset : ℕ
  pub persistence_id : PersistenceId
  pub revision : ℕ
  pub operation_id : ℕ
  pub slice : ℕ
  pub content : Content
  pub committed_at_ns : ℕ

pub record DurableStateChangeBatch : Type 0 where
  pub changes : List DurableStateChange
  pub offset : ℕ

abbrev pub slice_count : ℕ
slice_count = 1024
