-- ===== src/Cluster/Objects.antt =====
-- The JSON objects of the messages of movie/cluster/_protocol.py. The entries stand in the order of their
-- keys, in which `sort_keys` writes them.
use movie.Common.{List, [], ◌∷◌, nat_eq, list_eq}
use movie.Cluster.Keys.{
  cluster_name_key, config_fingerprint_key, host_key, incarnation_uid_key, members_key,
  membership_token_key, port_key, reachability_key, request_id_key, revision_key, sequence_key,
  source_control_actor_uid_key, source_host_key, source_incarnation_uid_key, source_port_key,
  source_system_name_key, status_key, system_name_key, target_incarnation_uid_key,
}
use movie.Cluster.Json.{
  Json, string, natural, array, object, JsonArray, end_array, item, end_object, entry,
}
use movie.Cluster.Values.{Library, WireMember}
use movie.Cluster.Messages.{
  Message, join_request, join_accepted, join_confirm, heartbeat, heartbeat_ack, membership_update,
  leave, leave_ack,
}

module _ (lib : Library) where
  -- `_member_to_json`
  unfoldable pub member_to_json : WireMember → Json
  member_to_json m = object (
      entry host_key (string m.host) (
        entry incarnation_uid_key (string (lib.uuid_text m.incarnation_uid)) (
          entry port_key (natural m.port) (
            entry reachability_key (string m.reachability) (
              entry status_key (string m.status)
                (entry system_name_key (string m.system_name) end_object))))))

  unfoldable pub members_to_json : List WireMember → JsonArray
  members_to_json [] = end_array
  members_to_json (m ∷ rest) = item (member_to_json m) (members_to_json rest)

  -- `_message_to_json`
  unfoldable pub message_to_json : Message → Json
  message_to_json (join_request m) = object (
      entry cluster_name_key (string m.cluster_name) (
        entry config_fingerprint_key (string m.config_fingerprint) (
          entry request_id_key (string (lib.uuid_text m.request_id)) (
            entry source_control_actor_uid_key (string (lib.uuid_text m.source_control_actor_uid)) (
              entry source_host_key (string m.source_host) (
                entry source_incarnation_uid_key (string (lib.uuid_text m.source_incarnation_uid)) (
                  entry source_port_key (natural m.source_port) (
                    entry source_system_name_key (string m.source_system_name) (
                      entry target_incarnation_uid_key
                        (string (lib.uuid_text m.target_incarnation_uid)) end_object)))))))))
  message_to_json (join_accepted m) = object (
      entry cluster_name_key (string m.cluster_name) (
        entry members_key (array (members_to_json m.members)) (
          entry membership_token_key (string (lib.uuid_text m.membership_token)) (
            entry request_id_key (string (lib.uuid_text m.request_id)) (
              entry revision_key (natural m.revision) (
                entry source_incarnation_uid_key (string (lib.uuid_text m.source_incarnation_uid)) (
                  entry source_system_name_key (string m.source_system_name) (
                    entry target_incarnation_uid_key
                      (string (lib.uuid_text m.target_incarnation_uid)) end_object))))))))
  message_to_json (join_confirm m) = object (
      entry cluster_name_key (string m.cluster_name) (
        entry membership_token_key (string (lib.uuid_text m.membership_token)) (
          entry request_id_key (string (lib.uuid_text m.request_id)) (
            entry source_incarnation_uid_key (string (lib.uuid_text m.source_incarnation_uid)) (
              entry source_system_name_key (string m.source_system_name) (
                entry target_incarnation_uid_key (string (lib.uuid_text m.target_incarnation_uid))
                  end_object))))))
  message_to_json (heartbeat m) = object (
      entry cluster_name_key (string m.cluster_name) (
        entry membership_token_key (string (lib.uuid_text m.membership_token)) (
          entry sequence_key (natural m.sequence) (
            entry source_incarnation_uid_key (string (lib.uuid_text m.source_incarnation_uid)) (
              entry source_system_name_key (string m.source_system_name) (
                entry target_incarnation_uid_key (string (lib.uuid_text m.target_incarnation_uid))
                  end_object))))))
  message_to_json (heartbeat_ack m) = object (
      entry cluster_name_key (string m.cluster_name) (
        entry members_key (array (members_to_json m.members)) (
          entry membership_token_key (string (lib.uuid_text m.membership_token)) (
            entry revision_key (natural m.revision) (
              entry sequence_key (natural m.sequence) (
                entry source_incarnation_uid_key (string (lib.uuid_text m.source_incarnation_uid)) (
                  entry source_system_name_key (string m.source_system_name) (
                    entry target_incarnation_uid_key
                      (string (lib.uuid_text m.target_incarnation_uid)) end_object))))))))
  message_to_json (membership_update m) = object (
      entry cluster_name_key (string m.cluster_name) (
        entry members_key (array (members_to_json m.members)) (
          entry membership_token_key (string (lib.uuid_text m.membership_token)) (
            entry revision_key (natural m.revision) (
              entry source_incarnation_uid_key (string (lib.uuid_text m.source_incarnation_uid)) (
                entry source_system_name_key (string m.source_system_name) (
                  entry target_incarnation_uid_key (string (lib.uuid_text m.target_incarnation_uid))
                    end_object)))))))
  message_to_json (leave m) = object (
      entry cluster_name_key (string m.cluster_name) (
        entry membership_token_key (string (lib.uuid_text m.membership_token)) (
          entry request_id_key (string (lib.uuid_text m.request_id)) (
            entry source_incarnation_uid_key (string (lib.uuid_text m.source_incarnation_uid)) (
              entry source_system_name_key (string m.source_system_name) (
                entry target_incarnation_uid_key (string (lib.uuid_text m.target_incarnation_uid))
                  end_object))))))
  message_to_json (leave_ack m) = object (
      entry cluster_name_key (string m.cluster_name) (
        entry members_key (array (members_to_json m.members)) (
          entry request_id_key (string (lib.uuid_text m.request_id)) (
            entry revision_key (natural m.revision) (
              entry source_incarnation_uid_key (string (lib.uuid_text m.source_incarnation_uid)) (
                entry source_system_name_key (string m.source_system_name) (
                  entry target_incarnation_uid_key (string (lib.uuid_text m.target_incarnation_uid))
                    end_object)))))))
