-- ===== src/Cluster/Serializer.antt =====
-- `_ClusterSerializer` of movie/cluster/_protocol.py.
use movie.Common.{
  ℕ, ◌^◌, Bool, true, false, ◌&&◌, Option, none, some, eqb, leb, length, ◌==◌, nat_eq, list_eq,
  if◌then◌else◌,
}
use movie.Remoting.Text.Utf8.{Text, Bytes}
use movie.Cluster.Json.{Json, is_plain, ◌>>=◌}
use movie.Cluster.Values.{Library}
use movie.Cluster.Messages.{Message}
use movie.Cluster.Manifests.{message_type, manifest_of, type_by_manifest}
use movie.Cluster.Objects.{message_to_json}
use movie.Cluster.Reading.{message_from_json}

-- `_MAX_PAYLOAD_BYTES`
abbrev pub max_payload_bytes : ℕ
max_payload_bytes = 2 ^ 20

abbrev require : Bool → Option (Unit {0})
require false = none
require true = some tt

module _ (lib : Library) where
  -- `serialize`: the type of the value is the one of the manifest, which is then known
  unfoldable pub serialize : Message → Text → ℕ → Option Bytes
  serialize value manifest protocol_minor =
      if eqb protocol_minor 0 && manifest_of (message_type value) == manifest
      then some (lib.dumps (message_to_json lib value))
      else none

  -- `json.loads` with its two hooks
  abbrev pub load_plain : Bytes → Option Json
  load_plain payload =
      lib.loads payload >>= λ (value : Json). if is_plain value then some value else none

  -- `deserialize`
  unfoldable pub deserialize : Bytes → Text → ℕ → Option Message
  deserialize payload manifest protocol_minor = do
    _ ← require (eqb protocol_minor 0)
    expected_type ← type_by_manifest manifest
    _ ← require (leb (length payload) max_payload_bytes)
    value ← load_plain payload
    message_from_json lib expected_type value
