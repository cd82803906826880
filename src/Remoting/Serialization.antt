-- ===== src/Remoting/Serialization.antt =====
-- movie/remoting/serialization.py: the descriptors and routes of payload serializers, with the
-- checks of their constructors. A frozenset is the list of its elements, each once.
use movie.Common.{
  is_empty, ℕ, ◌-◌, ◌^◌, not, ◌&&◌, true, List, [], ◌∷◌, leb, length, ◌==◌, nat_eq, list_eq, unique,
  dedupe,
}
use movie.Remoting.Errors.{Result, ok, ◌>>=◌, ◌>>◌, require, serializer_registry}
use movie.Remoting.Text.Utf8.{Text, Bytes}
use movie.Remoting.Text.Sort.{sort, compare_text}
use movie.Remoting.Text.{Unicode, text_bytes}

abbrev pub max_u16 : ℕ
max_u16 = 2 ^ 16 - 1

abbrev pub max_u32 : ℕ
max_u32 = 2 ^ 32 - 1

abbrev pub max_manifest_bytes : ℕ
max_manifest_bytes = 1024

pub record SerializerDescriptor : Type 0 where
  pub serializer_id : ℕ
  pub name : Text
  pub protocol_major : ℕ
  pub protocol_minor : ℕ
  pub readable_manifests : List Text
  pub writable_manifests : List Text

pub record SerializerRoute : Type 0 where
  pub origin_incarnation_uid : ℕ
  pub serializer_id : ℕ
  pub manifests : List Text

abbrev uint : ℕ → ℕ → ℕ → Result (Unit {0})
uint minimum value maximum = require (leb minimum value && leb value maximum) serializer_registry

module _ ⦃u : Unicode⦄ where
  abbrev pub encoded_text : Text → ℕ → Result Bytes
  encoded_text value maximum = text_bytes value maximum serializer_registry true

  -- `for manifest in manifests: _encoded_text(manifest, ..., MAX_MANIFEST_BYTES)`
  unfoldable pub check_manifests : List Text → Result (Unit {0})
  check_manifests [] = ok tt
  check_manifests (m ∷ ms) = do _ ← encoded_text m max_manifest_bytes; check_manifests ms

  -- `SerializerDescriptor.__post_init__`. The loop over `readable | writable` goes over the one
  -- set and then over the other.
  unfoldable pub serializer_descriptor :
      ℕ → Text → ℕ → ℕ → List Text → List Text → Result SerializerDescriptor
  serializer_descriptor serializer_id name major minor readable_manifests writable_manifests = do
    uint 1 serializer_id max_u32
    _ ← encoded_text name max_u16
    uint 0 major max_u16
    uint 0 minor max_u16
    let readable = dedupe readable_manifests
    let writable = dedupe writable_manifests
    require (leb (length readable) max_u16 && leb (length writable) max_u16) serializer_registry
    check_manifests readable
    check_manifests writable
    ok (record {
      serializer_id = serializer_id;
      name = name;
      protocol_major = major;
      protocol_minor = minor;
      readable_manifests = readable;
      writable_manifests = writable;
    })

  -- `SerializerRoute.__post_init__`
  unfoldable pub serializer_route : ℕ → ℕ → List Text → Result SerializerRoute
  serializer_route origin_incarnation_uid serializer_id manifests = do
    require (not (origin_incarnation_uid == 0)) serializer_registry
    uint 1 serializer_id max_u32
    require (leb (length manifests) max_u16) serializer_registry
    check_manifests manifests
    require (unique manifests) serializer_registry
    let canonical = sort compare_text manifests
    require (not (is_empty canonical)) serializer_registry
    ok (record {
      origin_incarnation_uid = origin_incarnation_uid;
      serializer_id = serializer_id;
      manifests = canonical;
    })
