-- ===== src/Remoting/Wire/Parts/RoundTrip.antt =====
-- The groups of fields are read back as they were written.
use movie.Common.{
  is_empty, ◌≤◌, ◌<◌, ◌≡◌, refl, ap, ◌∙◌, true, false, List, length, arith, All, unique, dedupe,
  dedupe-unique, nat_eq, list_eq, ◌==◌, ==_refl, ==_symm, not, ◌&&◌,
}
use movie.Remoting.Errors.{ok, malformed_frame, raise_as}
use movie.Remoting.Text.Utf8.{Text, Bytes}
use movie.Remoting.Text.Sort.{sort, compare_text, unique-sort}
use movie.Remoting.Text.{Unicode}
use movie.Remoting.Serialization.{
  SerializerDescriptor, SerializerRoute, serializer_descriptor, serializer_route, check_manifests,
  encoded_text, max_manifest_bytes,
}
use movie.Remoting.Wire.Types.{max_u16, max_u32, uuid_mod, ReasonCode, reason_code, reason_of_code}
use movie.Remoting.Wire.Frames.{Limits, Advisory}
use movie.Remoting.Wire.Writer
use movie.Remoting.Wire.Writer.{each}
use movie.Remoting.Wire.Reader.{times}
use movie.Remoting.Wire.RoundTrip.{
  RoundTrip, RoundTrip-then, RoundTrip-last, RoundTrip-write-require, RoundTrip-read-require,
  RoundTrip-lift, RoundTrip-keep, RoundTrip-keep-last, lift-ok, RoundTrip-silent, IsSilent,
  IsSilent-each, require-eq-pure,
}
use movie.Remoting.Wire.RoundTrip.Fields.{
  RoundTrip-u16, RoundTrip-u32, RoundTrip-u64, RoundTrip-uuid, RoundTrip-string16, RoundTrip-items,
  RoundTrip-texts,
}
use movie.Remoting.Wire.RoundTrip.Known.{Writes-u16, Writes-u32, Writes-string16, Writes-manifests}
use movie.Remoting.Wire.Parts.Write.{
  write_limits, write_manifest, write_descriptor, write_capabilities, write_route, write_routes,
  write_reason, write_advisory, check_capability, compare_route, route_eq,
}
use movie.Remoting.Wire.Parts.Read.{
  read_limits, read_manifest, read_descriptor, read_capabilities, read_route, read_routes,
  read_reason, read_advisory, or_malformed,
}

pub RoundTrip-limits : (l : Limits) → RoundTrip (write_limits l) read_limits l
unfolding write_limits read_limits
RoundTrip-limits l = RoundTrip-then _ _ _ _ l.maximum_frame_bytes _ (RoundTrip-u32 _) (
    RoundTrip-write-require _ _ _ _ _ λ fits. RoundTrip-read-require _ _ _ _ _ fits (
      RoundTrip-then _ _ _ _ l.lane_count _ (RoundTrip-u16 _) (
        RoundTrip-then _ _ _ _ l.outbound_message_limit _ (RoundTrip-u32 _) (
          RoundTrip-then _ _ _ _ l.outbound_byte_limit _ (RoundTrip-u64 _) (
            RoundTrip-then _ _ _ _ l.inbound_message_limit _ (RoundTrip-u32 _)
              (RoundTrip-last _ _ _ l.inbound_byte_limit _ (RoundTrip-u64 _) refl))))))

-- A descriptor as its constructor leaves it: a nonzero ID, and two sets of manifests.
pub record IsDescriptor (d : SerializerDescriptor) : Type 0 where
  pub nonzero : 1 ≤ d.serializer_id
  pub readable_set : unique d.readable_manifests ≡ true
  pub writable_set : unique d.writable_manifests ≡ true

-- The same descriptor, its sets listed in the order in which they are sent.
unfoldable pub canonical : SerializerDescriptor → SerializerDescriptor
canonical d = record d {
  readable_manifests = sort compare_text d.readable_manifests;
  writable_manifests = sort compare_text d.writable_manifests;
}

module _ ⦃u : Unicode⦄ where
  descriptor-eq-ok :
      (d : SerializerDescriptor) (name_bytes : Bytes)
      → 1 ≤ d.serializer_id
      → d.serializer_id ≤ max_u32
      → encoded_text d.name max_u16 ≡ ok name_bytes
      → d.protocol_major ≤ max_u16
      → d.protocol_minor ≤ max_u16
      → unique d.readable_manifests ≡ true
      → unique d.writable_manifests ≡ true
      → length d.readable_manifests ≤ max_u16
      → length d.writable_manifests ≤ max_u16
      → check_manifests d.readable_manifests ≡ ok tt
      → check_manifests d.writable_manifests ≡ ok tt
      → serializer_descriptor d.serializer_id d.name d.protocol_major d.protocol_minor
          d.readable_manifests d.writable_manifests
        ≡ ok d
  unfolding serializer_descriptor
  descriptor-eq-ok d name_bytes one fits name major minor r w lr lw cr cw =
      rw (dedupe-unique _ r, dedupe-unique _ w) (ground arith)

  pub RoundTrip-descriptor :
      (d : SerializerDescriptor)
      → IsDescriptor d
      → RoundTrip (write_descriptor d) read_descriptor (canonical d)
  unfolding write_descriptor read_descriptor write_manifest read_manifest canonical
  RoundTrip-descriptor d v =
      -- field by field, and the constructor's checks from what the writer has checked
      RoundTrip-keep _ _ _ _ d.serializer_id _ (Writes-u32 _) (RoundTrip-u32 _) λ fits.
        RoundTrip-keep _ _ _ _ d.name _ (Writes-string16 max_u16 d.name (omega arith))
          (RoundTrip-string16 _ _ _)
          λ (name_bytes, name).
            RoundTrip-keep _ _ _ _ d.protocol_major _ (Writes-u16 _) (RoundTrip-u16 _) λ major.
              RoundTrip-keep _ _ _ _ d.protocol_minor _ (Writes-u16 _) (RoundTrip-u16 _) λ minor.
                RoundTrip-keep _ _ _ _ (length readable) _ (Writes-u16 _) (RoundTrip-u16 _) λ lr.
                  RoundTrip-keep _ _ _ _ readable _ (Writes-manifests readable)
                    (RoundTrip-texts _ _)
                    λ cr.
                      RoundTrip-keep _ _ _ _ (length writable) _ (Writes-u16 _) (RoundTrip-u16 _)
                        λ lw.
                          RoundTrip-keep-last _ _ _ writable _ (Writes-manifests writable)
                            (RoundTrip-texts _ _)
                            λ cw.
                              require-eq-pure _ _ _ _
                                (ground (
                                  arith,
                                  unique-sort compare_text d.readable_manifests,
                                  unique-sort compare_text d.writable_manifests,
                                  v.readable_set,
                                  v.writable_set,
                                ))
                                (lift-ok _ _ (
                                  ap (raise_as malformed_frame) (
                                    descriptor-eq-ok (canonical d) name_bytes v.nonzero fits name
                                      major minor (unique-sort compare_text _ ∙ v.readable_set)
                                      (unique-sort compare_text _ ∙ v.writable_set) lr lw cr cw)))
    where
      readable : List Text
      readable = sort compare_text d.readable_manifests

      writable : List Text
      writable = sort compare_text d.writable_manifests

  RoundTrip-manifests :
      (ms : List Text) → RoundTrip (each write_manifest ms) (times (length ms) read_manifest) ms
  unfolding write_manifest read_manifest
  RoundTrip-manifests ms = RoundTrip-texts max_manifest_bytes ms

  -- A route as its constructor leaves it.
  pub record IsRoute (r : SerializerRoute) : Type 0 where
    pub uid : r.origin_incarnation_uid < uuid_mod
    pub constructed : serializer_route r.origin_incarnation_uid r.serializer_id r.manifests ≡ ok r

  route-facts :
      (r : SerializerRoute)
      → serializer_route r.origin_incarnation_uid r.serializer_id r.manifests ≡ ok r
      → (is_empty r.manifests ≡ false)
        × (unique r.manifests ≡ true)
        × (sort compare_text r.manifests ≡ r.manifests)
  unfolding serializer_route
  route-facts r h = ground arith

  canonical-manifests :
      (ms : List Text)
      → is_empty ms ≡ false
      → unique ms ≡ true
      → sort compare_text ms ≡ ms
      → (not (is_empty ms) && (ms == sort compare_text (dedupe ms))) ≡ true
  canonical-manifests ms e uq s = rw (dedupe-unique ms uq, s, e) (==_refl ms)

  pub RoundTrip-route : (r : SerializerRoute) → IsRoute r → RoundTrip (write_route r) read_route r
  unfolding write_route read_route
  RoundTrip-route r v =
      let (nonempty, distinct, sorted) = route-facts r v.constructed in
      RoundTrip-then _ _ _ _ r.origin_incarnation_uid _ (RoundTrip-uuid _ v.uid) (
        RoundTrip-then _ _ _ _ r.serializer_id _ (RoundTrip-u32 _) (
          RoundTrip-then _ _ _ _ (length r.manifests) _ (RoundTrip-u16 _) (
            RoundTrip-last _ _ _ r.manifests _ (RoundTrip-manifests _) (
              require-eq-pure _ _ _ _ (canonical-manifests _ nonempty distinct sorted)
                (lift-ok _ _ (ap (raise_as malformed_frame) v.constructed))))))

  pub RoundTrip-routes :
      (routes : List SerializerRoute)
      → All IsRoute routes
      → RoundTrip (write_routes routes) read_routes routes
  unfolding write_routes read_routes
  RoundTrip-routes routes v = RoundTrip-write-require _ _ _ _ _ λ few.
      RoundTrip-write-require _ _ _ _ _ λ ordered. RoundTrip-write-require _ _ _ _ _ λ distinct.
        RoundTrip-then _ _ _ _ (length routes) _ (RoundTrip-u16 _) (
          RoundTrip-last _ _ _ routes _
            (RoundTrip-items IsRoute write_route read_route RoundTrip-route routes v)
            (require-eq-pure (routes == sort compare_route routes) malformed_frame _ _
              (==_symm (sort compare_route routes) routes ordered)
              (require-eq-pure _ _ _ _ distinct refl)))

  check_capability-IsSilent : (t : Text) → IsSilent (check_capability t)
  unfolding check_capability Writer.given Writer.done
  check_capability-IsSilent t written result q = ground arith

  pub RoundTrip-capabilities :
      (capabilities : List Text)
      → RoundTrip (write_capabilities capabilities) read_capabilities capabilities
  unfolding write_capabilities read_capabilities
  RoundTrip-capabilities capabilities = RoundTrip-write-require _ _ _ _ _ λ few.
      RoundTrip-silent _ _ _ _ (IsSilent-each _ capabilities check_capability-IsSilent) (
        RoundTrip-write-require _ _ _ _ _ λ distinct.
          RoundTrip-then _ _ _ _ (length capabilities) _ (RoundTrip-u16 _) (
            RoundTrip-last _ _ _ capabilities _ (RoundTrip-texts _ _)
              (require-eq-pure _ _ _ _ distinct refl)))

  pub RoundTrip-reason :
      (reason : ReasonCode) (detail : Text)
      → RoundTrip (write_reason reason detail) read_reason (reason, detail)
  unfolding write_reason read_reason
  RoundTrip-reason reason detail = RoundTrip-then _ _ _ _ (reason_code reason) _ (RoundTrip-u16 _) (
      RoundTrip-lift _ _ _ _ reason (ap or_malformed (reason_of_code reason))
        (RoundTrip-last _ _ _ detail _ (RoundTrip-string16 _ _ _) refl))

  pub RoundTrip-advisory :
      (a : Advisory)
      → a.association_uid < uuid_mod
      → a.recipient_actor_uid < uuid_mod
      → RoundTrip (write_advisory a) (read_advisory a.correlation_id) a
  unfolding write_advisory read_advisory
  RoundTrip-advisory a h h' = RoundTrip-then _ _ _ _ a.association_uid _ (RoundTrip-uuid _ h) (
      RoundTrip-then _ _ _ _ a.lane_id _ (RoundTrip-u16 _) (
        RoundTrip-write-require _ _ _ _ _ λ lane. RoundTrip-read-require _ _ _ _ _ lane (
          RoundTrip-then _ _ _ _ a.lane_sequence _ (RoundTrip-u64 _) (
            RoundTrip-then _ _ _ _ a.recipient_actor_uid _ (RoundTrip-uuid _ h')
              (RoundTrip-last _ _ _ (a.reason, a.detail) _ (RoundTrip-reason _ _) refl)))))
