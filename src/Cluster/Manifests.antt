-- ===== src/Cluster/Manifests.antt =====
-- The types of the messages of movie/cluster/_protocol.py and their manifests.
use movie.Common.{List, [], ◌∷◌, Option, none, some, ◌==◌, nat_eq, list_eq, if◌then◌else◌}
use movie.Remoting.Text.Utf8.{Text}
use movie.Cluster.Messages.{
  Message, join_request, join_accepted, join_confirm, heartbeat, heartbeat_ack, membership_update,
  leave, leave_ack,
}

-- The types of messages.
pub data MessageType : Type 0 where
  join_request_type : MessageType
  join_accepted_type : MessageType
  join_confirm_type : MessageType
  heartbeat_type : MessageType
  heartbeat_ack_type : MessageType
  membership_update_type : MessageType
  leave_type : MessageType
  leave_ack_type : MessageType

abbrev pub message_type : Message → MessageType
message_type (join_request m) = join_request_type
message_type (join_accepted m) = join_accepted_type
message_type (join_confirm m) = join_confirm_type
message_type (heartbeat m) = heartbeat_type
message_type (heartbeat_ack m) = heartbeat_ack_type
message_type (membership_update m) = membership_update_type
message_type (leave m) = leave_type
message_type (leave_ack m) = leave_ack_type

-- `_MANIFESTS`, whose texts all start and end alike.
abbrev pub manifest_of : MessageType → Text
manifest_of join_request_type =
    b'm' ∷ b'o' ∷ b'v' ∷ b'i' ∷ b'e' ∷ b'-' ∷ b'c' ∷ b'l' ∷ b'u' ∷ b's' ∷ b't' ∷ b'e' ∷ b'r' ∷ 47
    ∷ b'j' ∷ b'o' ∷ b'i' ∷ b'n' ∷ b'-' ∷ b'r' ∷ b'e' ∷ b'q' ∷ b'u' ∷ b'e' ∷ b's' ∷ b't' ∷ 47 ∷ b'v'
    ∷ b'1' ∷ []
manifest_of join_accepted_type =
    b'm' ∷ b'o' ∷ b'v' ∷ b'i' ∷ b'e' ∷ b'-' ∷ b'c' ∷ b'l' ∷ b'u' ∷ b's' ∷ b't' ∷ b'e' ∷ b'r' ∷ 47
    ∷ b'j' ∷ b'o' ∷ b'i' ∷ b'n' ∷ b'-' ∷ b'a' ∷ b'c' ∷ b'c' ∷ b'e' ∷ b'p' ∷ b't' ∷ b'e' ∷ b'd' ∷ 47
    ∷ b'v' ∷ b'1' ∷ []
manifest_of join_confirm_type =
    b'm' ∷ b'o' ∷ b'v' ∷ b'i' ∷ b'e' ∷ b'-' ∷ b'c' ∷ b'l' ∷ b'u' ∷ b's' ∷ b't' ∷ b'e' ∷ b'r' ∷ 47
    ∷ b'j' ∷ b'o' ∷ b'i' ∷ b'n' ∷ b'-' ∷ b'c' ∷ b'o' ∷ b'n' ∷ b'f' ∷ b'i' ∷ b'r' ∷ b'm' ∷ 47 ∷ b'v'
    ∷ b'1' ∷ []
manifest_of heartbeat_type =
    b'm' ∷ b'o' ∷ b'v' ∷ b'i' ∷ b'e' ∷ b'-' ∷ b'c' ∷ b'l' ∷ b'u' ∷ b's' ∷ b't' ∷ b'e' ∷ b'r' ∷ 47
    ∷ b'h' ∷ b'e' ∷ b'a' ∷ b'r' ∷ b't' ∷ b'b' ∷ b'e' ∷ b'a' ∷ b't' ∷ 47 ∷ b'v' ∷ b'1' ∷ []
manifest_of heartbeat_ack_type =
    b'm' ∷ b'o' ∷ b'v' ∷ b'i' ∷ b'e' ∷ b'-' ∷ b'c' ∷ b'l' ∷ b'u' ∷ b's' ∷ b't' ∷ b'e' ∷ b'r' ∷ 47
    ∷ b'h' ∷ b'e' ∷ b'a' ∷ b'r' ∷ b't' ∷ b'b' ∷ b'e' ∷ b'a' ∷ b't' ∷ b'-' ∷ b'a' ∷ b'c' ∷ b'k' ∷ 47
    ∷ b'v' ∷ b'1' ∷ []
manifest_of membership_update_type =
    b'm' ∷ b'o' ∷ b'v' ∷ b'i' ∷ b'e' ∷ b'-' ∷ b'c' ∷ b'l' ∷ b'u' ∷ b's' ∷ b't' ∷ b'e' ∷ b'r' ∷ 47
    ∷ b'm' ∷ b'e' ∷ b'm' ∷ b'b' ∷ b'e' ∷ b'r' ∷ b's' ∷ b'h' ∷ b'i' ∷ b'p' ∷ b'-' ∷ b'u' ∷ b'p'
    ∷ b'd' ∷ b'a' ∷ b't' ∷ b'e' ∷ 47 ∷ b'v' ∷ b'1' ∷ []
manifest_of leave_type =
    b'm' ∷ b'o' ∷ b'v' ∷ b'i' ∷ b'e' ∷ b'-' ∷ b'c' ∷ b'l' ∷ b'u' ∷ b's' ∷ b't' ∷ b'e' ∷ b'r' ∷ 47
    ∷ b'l' ∷ b'e' ∷ b'a' ∷ b'v' ∷ b'e' ∷ 47 ∷ b'v' ∷ b'1' ∷ []
manifest_of leave_ack_type =
    b'm' ∷ b'o' ∷ b'v' ∷ b'i' ∷ b'e' ∷ b'-' ∷ b'c' ∷ b'l' ∷ b'u' ∷ b's' ∷ b't' ∷ b'e' ∷ b'r' ∷ 47
    ∷ b'l' ∷ b'e' ∷ b'a' ∷ b'v' ∷ b'e' ∷ b'-' ∷ b'a' ∷ b'c' ∷ b'k' ∷ 47 ∷ b'v' ∷ b'1' ∷ []

abbrev pub message_types : List MessageType
message_types =
    join_request_type ∷ join_accepted_type ∷ join_confirm_type ∷ heartbeat_type ∷ heartbeat_ack_type
    ∷ membership_update_type ∷ leave_type ∷ leave_ack_type ∷ []

unfoldable pub find_type : Text → List MessageType → Option MessageType
find_type manifest [] = none
find_type manifest (t ∷ rest) =
    let on = find_type manifest rest in if manifest_of t == manifest then some t else on

-- `_TYPES_BY_MANIFEST`
abbrev pub type_by_manifest : Text → Option MessageType
type_by_manifest manifest = find_type manifest message_types
