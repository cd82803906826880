-- ===== src/Cluster/Keys.antt =====
-- The keys of the JSON objects of movie/cluster/_protocol.py.
use movie.Common.{List, [], ◌∷◌}
use movie.Remoting.Text.Utf8.{Text}

abbrev pub cluster_name_key : Text
cluster_name_key =
    b'c' ∷ b'l' ∷ b'u' ∷ b's' ∷ b't' ∷ b'e' ∷ b'r' ∷ b'_' ∷ b'n' ∷ b'a' ∷ b'm' ∷ b'e' ∷ []

abbrev pub config_fingerprint_key : Text
config_fingerprint_key =
    b'c' ∷ b'o' ∷ b'n' ∷ b'f' ∷ b'i' ∷ b'g' ∷ b'_' ∷ b'f' ∷ b'i' ∷ b'n' ∷ b'g' ∷ b'e' ∷ b'r' ∷ b'p'
    ∷ b'r' ∷ b'i' ∷ b'n' ∷ b't' ∷ []

abbrev pub host_key : Text
host_key = b'h' ∷ b'o' ∷ b's' ∷ b't' ∷ []

abbrev pub incarnation_uid_key : Text
incarnation_uid_key =
    b'i' ∷ b'n' ∷ b'c' ∷ b'a' ∷ b'r' ∷ b'n' ∷ b'a' ∷ b't' ∷ b'i' ∷ b'o' ∷ b'n' ∷ b'_' ∷ b'u' ∷ b'i'
    ∷ b'd' ∷ []

abbrev pub members_key : Text
members_key = b'm' ∷ b'e' ∷ b'm' ∷ b'b' ∷ b'e' ∷ b'r' ∷ b's' ∷ []

abbrev pub membership_token_key : Text
membership_token_key =
    b'm' ∷ b'e' ∷ b'm' ∷ b'b' ∷ b'e' ∷ b'r' ∷ b's' ∷ b'h' ∷ b'i' ∷ b'p' ∷ b'_' ∷ b't' ∷ b'o' ∷ b'k'
    ∷ b'e' ∷ b'n' ∷ []

abbrev pub port_key : Text
port_key = b'p' ∷ b'o' ∷ b'r' ∷ b't' ∷ []

abbrev pub reachability_key : Text
reachability_key =
    b'r' ∷ b'e' ∷ b'a' ∷ b'c' ∷ b'h' ∷ b'a' ∷ b'b' ∷ b'i' ∷ b'l' ∷ b'i' ∷ b't' ∷ b'y' ∷ []

abbrev pub request_id_key : Text
request_id_key = b'r' ∷ b'e' ∷ b'q' ∷ b'u' ∷ b'e' ∷ b's' ∷ b't' ∷ b'_' ∷ b'i' ∷ b'd' ∷ []

abbrev pub revision_key : Text
revision_key = b'r' ∷ b'e' ∷ b'v' ∷ b'i' ∷ b's' ∷ b'i' ∷ b'o' ∷ b'n' ∷ []

abbrev pub sequence_key : Text
sequence_key = b's' ∷ b'e' ∷ b'q' ∷ b'u' ∷ b'e' ∷ b'n' ∷ b'c' ∷ b'e' ∷ []

abbrev pub source_control_actor_uid_key : Text
source_control_actor_uid_key =
    b's' ∷ b'o' ∷ b'u' ∷ b'r' ∷ b'c' ∷ b'e' ∷ b'_' ∷ b'c' ∷ b'o' ∷ b'n' ∷ b't' ∷ b'r' ∷ b'o' ∷ b'l'
    ∷ b'_' ∷ b'a' ∷ b'c' ∷ b't' ∷ b'o' ∷ b'r' ∷ b'_' ∷ b'u' ∷ b'i' ∷ b'd' ∷ []

abbrev pub source_host_key : Text
source_host_key = b's' ∷ b'o' ∷ b'u' ∷ b'r' ∷ b'c' ∷ b'e' ∷ b'_' ∷ b'h' ∷ b'o' ∷ b's' ∷ b't' ∷ []

abbrev pub source_incarnation_uid_key : Text
source_incarnation_uid_key =
    b's' ∷ b'o' ∷ b'u' ∷ b'r' ∷ b'c' ∷ b'e' ∷ b'_' ∷ b'i' ∷ b'n' ∷ b'c' ∷ b'a' ∷ b'r' ∷ b'n' ∷ b'a'
    ∷ b't' ∷ b'i' ∷ b'o' ∷ b'n' ∷ b'_' ∷ b'u' ∷ b'i' ∷ b'd' ∷ []

abbrev pub source_port_key : Text
source_port_key = b's' ∷ b'o' ∷ b'u' ∷ b'r' ∷ b'c' ∷ b'e' ∷ b'_' ∷ b'p' ∷ b'o' ∷ b'r' ∷ b't' ∷ []

abbrev pub source_system_name_key : Text
source_system_name_key =
    b's' ∷ b'o' ∷ b'u' ∷ b'r' ∷ b'c' ∷ b'e' ∷ b'_' ∷ b's' ∷ b'y' ∷ b's' ∷ b't' ∷ b'e' ∷ b'm' ∷ b'_'
    ∷ b'n' ∷ b'a' ∷ b'm' ∷ b'e' ∷ []

abbrev pub status_key : Text
status_key = b's' ∷ b't' ∷ b'a' ∷ b't' ∷ b'u' ∷ b's' ∷ []

abbrev pub system_name_key : Text
system_name_key = b's' ∷ b'y' ∷ b's' ∷ b't' ∷ b'e' ∷ b'm' ∷ b'_' ∷ b'n' ∷ b'a' ∷ b'm' ∷ b'e' ∷ []

abbrev pub target_incarnation_uid_key : Text
target_incarnation_uid_key =
    b't' ∷ b'a' ∷ b'r' ∷ b'g' ∷ b'e' ∷ b't' ∷ b'_' ∷ b'i' ∷ b'n' ∷ b'c' ∷ b'a' ∷ b'r' ∷ b'n' ∷ b'a'
    ∷ b't' ∷ b'i' ∷ b'o' ∷ b'n' ∷ b'_' ∷ b'u' ∷ b'i' ∷ b'd' ∷ []

-- `_MEMBER_KEYS`
abbrev pub member_keys : List Text
member_keys =
    system_name_key ∷ incarnation_uid_key ∷ host_key ∷ port_key ∷ status_key ∷ reachability_key ∷ []

-- `_MESSAGE_KEYS`
abbrev pub join_request_keys : List Text
join_request_keys =
    cluster_name_key ∷ config_fingerprint_key ∷ source_system_name_key ∷ source_incarnation_uid_key
    ∷ source_host_key ∷ source_port_key ∷ source_control_actor_uid_key ∷ target_incarnation_uid_key
    ∷ request_id_key ∷ []

abbrev pub join_accepted_keys : List Text
join_accepted_keys =
    cluster_name_key ∷ source_system_name_key ∷ source_incarnation_uid_key
    ∷ target_incarnation_uid_key ∷ request_id_key ∷ membership_token_key ∷ revision_key
    ∷ members_key ∷ []

abbrev pub join_confirm_keys : List Text
join_confirm_keys =
    cluster_name_key ∷ source_system_name_key ∷ source_incarnation_uid_key
    ∷ target_incarnation_uid_key ∷ request_id_key ∷ membership_token_key ∷ []

abbrev pub heartbeat_keys : List Text
heartbeat_keys =
    cluster_name_key ∷ source_system_name_key ∷ source_incarnation_uid_key
    ∷ target_incarnation_uid_key ∷ membership_token_key ∷ sequence_key ∷ []

abbrev pub heartbeat_ack_keys : List Text
heartbeat_ack_keys =
    cluster_name_key ∷ source_system_name_key ∷ source_incarnation_uid_key
    ∷ target_incarnation_uid_key ∷ membership_token_key ∷ sequence_key ∷ revision_key ∷ members_key
    ∷ []

abbrev pub membership_update_keys : List Text
membership_update_keys =
    cluster_name_key ∷ source_system_name_key ∷ source_incarnation_uid_key
    ∷ target_incarnation_uid_key ∷ membership_token_key ∷ revision_key ∷ members_key ∷ []

abbrev pub leave_keys : List Text
leave_keys =
    cluster_name_key ∷ source_system_name_key ∷ source_incarnation_uid_key
    ∷ target_incarnation_uid_key ∷ membership_token_key ∷ request_id_key ∷ []

abbrev pub leave_ack_keys : List Text
leave_ack_keys =
    cluster_name_key ∷ source_system_name_key ∷ source_incarnation_uid_key
    ∷ target_incarnation_uid_key ∷ request_id_key ∷ revision_key ∷ members_key ∷ []
