-- ===== src/Remoting/Wire/Body/RoundTrip.antt =====
-- Each frame's body is read back as it was written.
use movie.Common.{
  ◌<◌, ◌≡◌, refl, ap, true, List, [], ◌∷◌, map, length, arith, All, unique, ◌&&◌, nat_eq, list_eq,
  some,
}
use movie.Remoting.Errors.{Error, ok, protocol_validation, malformed_frame}
use movie.Remoting.Text.Utf8.{Text, Bytes}
use movie.Remoting.Text.{Unicode, text_bytes}
use movie.Remoting.Serialization.{SerializerDescriptor}
use movie.Remoting.Wire.Types.{FrameType, AssociationRole, role_code, role_of, uuid_mod, max_u16}
use movie.Remoting.Wire.Frames
use movie.Remoting.Wire.Frames.{
  Frame, Hello, HelloAccept, Notice, ResolveRequest, ResolveResponse, ResolveRejected, Advisory,
}
use movie.Remoting.Wire.RoundTrip.{
  RoundTrip, RoundTrip-then, RoundTrip-last, RoundTrip-given, RoundTrip-write-require,
  RoundTrip-read-require, RoundTrip-lift, bind-lift, require-eq-pure,
}
use movie.Remoting.Wire.RoundTrip.Fields.{
  RoundTrip-u8, RoundTrip-u16, RoundTrip-uuid, RoundTrip-string16, RoundTrip-encoded,
  RoundTrip-each,
}
use movie.Remoting.Wire.Parts.Names.{system_name, actor_path}
use movie.Remoting.Wire.Parts.Read.{
  read_system_name, read_actor_path, or_malformed, read_descriptor,
}
use movie.Remoting.Wire.Parts.Write.{write_descriptor, write_reason}
use movie.Remoting.Wire.Parts.RoundTrip.{
  RoundTrip-limits, RoundTrip-descriptor, RoundTrip-routes, RoundTrip-capabilities,
  RoundTrip-reason, RoundTrip-advisory, IsDescriptor, IsRoute, canonical,
}
use movie.Remoting.Wire.Body.Encode.{
  write_system_name, write_actor_path, write_hello, write_hello_accept, write_resolve_request,
  write_resolve_response, write_resolve_rejected, write_checked_advisory, write_body,
}
use movie.Remoting.Wire.Body.Decode.{
  read_hello, read_hello_accept, read_notice, read_resolve_request, read_resolve_response,
  read_resolve_rejected, read_checked_advisory, read_body,
}

-- What the classes of the fields give: a UUID has 128 bits, and descriptors and routes have
-- passed their constructors.
pub record IsHello (f : Hello) : Type 0 where
  pub system_uid : f.system_incarnation_uid < uuid_mod
  pub association : f.association_uid < uuid_mod
  pub descriptors : All IsDescriptor f.serializers

unfoldable pub canonical_hello : Hello → Hello
canonical_hello f = record f { serializers = map canonical f.serializers }

pub record IsResolveResponse (f : ResolveResponse) : Type 0 where
  pub system_uid : f.system_incarnation_uid < uuid_mod
  pub actor : f.actor_uid < uuid_mod

pub record IsAdvisory (f : Advisory) : Type 0 where
  pub association : f.association_uid < uuid_mod
  pub recipient : f.recipient_actor_uid < uuid_mod

-- The frame, with each set of manifests listed in the order in which it is sent.
abbrev pub canonical_frame : Frame → Frame
canonical_frame (Frame.hello f) = Frame.hello (canonical_hello f)
canonical_frame f = f

role_of_code : (r : AssociationRole) → role_of (role_code r) ≡ some r
role_of_code AssociationRole.initiator = refl
role_of_code AssociationRole.responder = refl

map-map-field :
    {B : Type 0} (field : SerializerDescriptor → B)
    (f : SerializerDescriptor → SerializerDescriptor) (ds : List SerializerDescriptor)
    → ((d : SerializerDescriptor) → field (f d) ≡ field d)
    → map field (map f ds) ≡ map field ds
map-map-field field f [] h = refl
map-map-field field f (d ∷ ds) h = cc (h d, map-map-field field f ds h)

distinct_again :
    (ds : List SerializerDescriptor)
    → (unique (map (λ (d : SerializerDescriptor). d.serializer_id) ds)
        && unique (map (λ (d : SerializerDescriptor). d.name) ds))
      ≡ true
    → (unique (map (λ (d : SerializerDescriptor). d.serializer_id) (map canonical ds))
        && unique (map (λ (d : SerializerDescriptor). d.name) (map canonical ds)))
      ≡ true
unfolding canonical
distinct_again ds h =
    rw
      (
        map-map-field (λ (d : SerializerDescriptor). d.serializer_id) canonical ds (λ d. refl),
        map-map-field (λ (d : SerializerDescriptor). d.name) canonical ds (λ d. refl),
      )
      h

module _ ⦃u : Unicode⦄ where
  system_name-eq-ok :
      (value : Text) (e e' : Error) (name : Bytes)
      → system_name value e ≡ ok name
      → (text_bytes value 255 e true ≡ ok name) × (system_name value e' ≡ ok name)
  unfolding system_name text_bytes
  system_name-eq-ok value e e' name h = ground arith

  actor_path-eq-ok :
      (value : Text) (e e' : Error) (path : Bytes)
      → actor_path value e ≡ ok path
      → (text_bytes value max_u16 e true ≡ ok path) × (actor_path value e' ≡ ok path)
  unfolding actor_path text_bytes
  actor_path-eq-ok value e e' path h = ground arith

  RoundTrip-system_name :
      (value : Text) → RoundTrip (write_system_name value) read_system_name value
  unfolding write_system_name read_system_name
  RoundTrip-system_name value = RoundTrip-given _ _ _ _ λ name p.
      let (valid, again) = system_name-eq-ok value protocol_validation malformed_frame name p in
      RoundTrip-last _ _ _ value value
        (RoundTrip-encoded 255 255 true value name (omega arith) valid) (bind-lift _ _ name again)

  RoundTrip-actor_path : (value : Text) → RoundTrip (write_actor_path value) read_actor_path value
  unfolding write_actor_path read_actor_path
  RoundTrip-actor_path value = RoundTrip-given _ _ _ _ λ path p.
      let (valid, again) = actor_path-eq-ok value protocol_validation malformed_frame path p in
      RoundTrip-last _ _ _ value value
        (RoundTrip-encoded max_u16 max_u16 true value path (omega arith) valid)
        (bind-lift _ _ path again)

  RoundTrip-hello :
      (f : Hello)
      → IsHello f
      → RoundTrip (write_hello f) (read_hello f.correlation_id) (canonical_hello f)
  unfolding write_hello read_hello canonical_hello
  RoundTrip-hello f v = RoundTrip-then _ _ _ _ f.protocol_major _ (RoundTrip-u16 _) (
      RoundTrip-then _ _ _ _ f.protocol_minor _ (RoundTrip-u16 _) (
        RoundTrip-then _ _ _ _ (role_code f.role) _ (RoundTrip-u8 _) (
          RoundTrip-lift _ _ _ _ f.role (ap or_malformed (role_of_code f.role)) (
            RoundTrip-then _ _ _ _ f.system_name _ (RoundTrip-system_name _) (
              RoundTrip-then _ _ _ _ f.system_incarnation_uid _ (RoundTrip-uuid _ v.system_uid) (
                RoundTrip-then _ _ _ _ f.association_uid _ (RoundTrip-uuid _ v.association) (
                  RoundTrip-then _ _ _ _ f.endpoint_host _ (RoundTrip-string16 _ _ _) (
                    RoundTrip-then _ _ _ _ f.endpoint_port _ (RoundTrip-u16 _) (
                      RoundTrip-then _ _ _ _ f.limits _ (RoundTrip-limits _) (
                        RoundTrip-write-require _ _ _ _ _ λ few.
                          RoundTrip-write-require _ _ _ _ _ λ distinct.
                            RoundTrip-then _ _ _ _ (length f.serializers) _ (RoundTrip-u16 _) (
                              RoundTrip-then _ _ _ _ (map canonical f.serializers) _
                                (RoundTrip-each IsDescriptor write_descriptor read_descriptor
                                  canonical RoundTrip-descriptor f.serializers v.descriptors)
                                (RoundTrip-read-require _ _ _ _ _
                                  (distinct_again f.serializers distinct)
                                  (RoundTrip-last _ _ _ f.capabilities _ (RoundTrip-capabilities _)
                                    refl)))))))))))))

  pub record IsHelloAccept (f : HelloAccept) : Type 0 where
    pub association : f.association_uid < uuid_mod
    pub routes : All IsRoute f.serializer_routes

  RoundTrip-hello_accept :
      (f : HelloAccept)
      → IsHelloAccept f
      → RoundTrip (write_hello_accept f) (read_hello_accept f.correlation_id) f
  unfolding write_hello_accept read_hello_accept
  RoundTrip-hello_accept f v =
      RoundTrip-then _ _ _ _ f.association_uid _ (RoundTrip-uuid _ v.association) (
        RoundTrip-then _ _ _ _ f.protocol_minor _ (RoundTrip-u16 _) (
          RoundTrip-then _ _ _ _ f.limits _ (RoundTrip-limits _) (
            RoundTrip-then _ _ _ _ f.serializer_routes _ (RoundTrip-routes _ v.routes)
              (RoundTrip-last _ _ _ f.capabilities _ (RoundTrip-capabilities _) refl))))

  RoundTrip-notice :
      (f : Notice) → RoundTrip (write_reason f.reason f.detail) (read_notice f.correlation_id) f
  unfolding read_notice
  RoundTrip-notice f = RoundTrip-last _ _ _ (f.reason, f.detail) _ (RoundTrip-reason _ _) refl

  RoundTrip-resolve_request :
      (f : ResolveRequest)
      → RoundTrip (write_resolve_request f) (read_resolve_request f.correlation_id) f
  unfolding write_resolve_request read_resolve_request
  RoundTrip-resolve_request f =
      RoundTrip-then _ _ _ _ f.system_name _ (RoundTrip-system_name _)
        (RoundTrip-last _ _ _ f.actor_path _ (RoundTrip-actor_path _) refl)

  RoundTrip-resolve_response :
      (f : ResolveResponse)
      → IsResolveResponse f
      → RoundTrip (write_resolve_response f) (read_resolve_response f.correlation_id) f
  unfolding write_resolve_response read_resolve_response
  RoundTrip-resolve_response f v =
      RoundTrip-then _ _ _ _ f.system_incarnation_uid _ (RoundTrip-uuid _ v.system_uid) (
        RoundTrip-then _ _ _ _ f.actor_uid _ (RoundTrip-uuid _ v.actor)
          (RoundTrip-last _ _ _ f.actor_path _ (RoundTrip-actor_path _) refl))

  RoundTrip-resolve_rejected :
      (f : ResolveRejected)
      → RoundTrip (write_resolve_rejected f) (read_resolve_rejected f.correlation_id) f
  unfolding write_resolve_rejected read_resolve_rejected
  RoundTrip-resolve_rejected f = RoundTrip-write-require _ _ _ _ _ λ allowed.
      RoundTrip-last _ _ _ (f.reason, f.detail) _ (RoundTrip-reason _ _)
        (require-eq-pure _ _ _ _ allowed refl)

  RoundTrip-checked_advisory :
      (t : FrameType) (f : Advisory)
      → IsAdvisory f
      → RoundTrip (write_checked_advisory t f) (read_checked_advisory t f.correlation_id) f
  unfolding write_checked_advisory read_checked_advisory
  RoundTrip-checked_advisory t f v = RoundTrip-write-require _ _ _ _ _ λ allowed.
      RoundTrip-last _ _ _ f _ (RoundTrip-advisory f v.association v.recipient)
        (require-eq-pure _ _ _ _ allowed refl)

  -- A frame other than `USER_MESSAGE`, whose fields are values of their classes.
  abbrev pub IsControlFrame : Frame → Type 0
  IsControlFrame (Frame.hello f) = IsHello f
  IsControlFrame (Frame.hello_accept f) = IsHelloAccept f
  IsControlFrame (Frame.resolve_response f) = IsResolveResponse f
  IsControlFrame (Frame.user_message f) = ⊥
  IsControlFrame (Frame.recipient_unavailable f) = IsAdvisory f
  IsControlFrame (Frame.deserialization_rejected f) = IsAdvisory f
  IsControlFrame _ = Unit {0}

  pub RoundTrip-body :
      (f : Frame)
      → IsControlFrame f
      → RoundTrip
          (write_body f)
          (read_body (Frames.frame_type f) (Frames.correlation_id f))
          (canonical_frame f)
  unfolding write_body read_body
  RoundTrip-body (Frame.hello f) v = RoundTrip-last _ _ _ _ _ (RoundTrip-hello f v) refl
  RoundTrip-body (Frame.hello_accept f) v =
      RoundTrip-last _ _ _ f _ (RoundTrip-hello_accept f v) refl
  RoundTrip-body (Frame.goaway f) v = RoundTrip-last _ _ _ f _ (RoundTrip-notice f) refl
  RoundTrip-body (Frame.hello_reject f) v = RoundTrip-last _ _ _ f _ (RoundTrip-notice f) refl
  RoundTrip-body (Frame.resolve_request f) v =
      RoundTrip-last _ _ _ f _ (RoundTrip-resolve_request f) refl
  RoundTrip-body (Frame.resolve_response f) v =
      RoundTrip-last _ _ _ f _ (RoundTrip-resolve_response f v) refl
  RoundTrip-body (Frame.resolve_rejected f) v =
      RoundTrip-last _ _ _ f _ (RoundTrip-resolve_rejected f) refl
  RoundTrip-body (Frame.user_message f) v = absurd v
  RoundTrip-body (Frame.recipient_unavailable f) v =
      RoundTrip-last _ _ _ f _ (RoundTrip-checked_advisory _ f v) refl
  RoundTrip-body (Frame.deserialization_rejected f) v =
      RoundTrip-last _ _ _ f _ (RoundTrip-checked_advisory _ f v) refl
