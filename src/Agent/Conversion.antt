-- ===== src/Agent/Conversion.antt =====
-- xdr/agent/common/src/agent_core.cpp: endpoint events and what becomes of them.
use aiguard_siem.Common.{ℕ, List, [], ◌∷◌, ◌++◌, Text, codes, decimal, is_empty, if◌then◌else◌}
use aiguard_siem.Common.Int.{pos}
use aiguard_siem.Events.{Event, text, int, texts, empty_event, set_field, Timestamp}

pub data EndpointEventType : Type 0 where
  process_start process_stop file_create file_modify file_delete network_connect network_listen
        registry_modify dns_query script_execute module_load driver_load image_load remote_thread
        pipe_event wmi_event :
      EndpointEventType

pub record EndpointEvent : Type 0 where
  pub type : EndpointEventType
  pub timestamp : Timestamp
  pub host_name : Text
  pub host_id : Text
  pub process_name : Text
  pub process_pid : ℕ
  pub process_ppid : ℕ
  pub process_cmd_line : Text
  pub process_path : Text
  pub user_name : Text
  pub user_sid : Text
  pub source_ip : Text
  pub source_port : ℕ
  pub destination_ip : Text
  pub destination_port : ℕ
  pub file_path : Text
  pub file_hash : Text
  pub registry_key : Text
  pub registry_value : Text
  pub dns_query : Text
  pub dns_results : List Text
  pub additional_fields : List (Text × Text)

module _ {D : Type 0} where
  -- The switch; image loads have no case in it.
  unfoldable pub classify : EndpointEventType → Event D → Event D
  classify process_start e = record e {
    category = codes "process";
    type = codes "start";
    action = codes "process_started";
  }
  classify process_stop e = record e {
    category = codes "process";
    type = codes "end";
    action = codes "process_terminated";
  }
  classify file_create e = record e {
    category = codes "file";
    type = codes "creation";
    action = codes "file_created";
  }
  classify file_modify e = record e {
    category = codes "file";
    type = codes "change";
    action = codes "file_modified";
  }
  classify file_delete e = record e {
    category = codes "file";
    type = codes "deletion";
    action = codes "file_deleted";
  }
  classify network_connect e = record e {
    category = codes "network";
    type = codes "connection";
    action = codes "network_connection";
  }
  classify network_listen e = record e {
    category = codes "network";
    type = codes "connection";
    action = codes "network_listen";
  }
  classify registry_modify e = record e {
    category = codes "configuration";
    type = codes "change";
    action = codes "registry_modified";
  }
  classify dns_query e = record e {
    category = codes "network";
    type = codes "info";
    action = codes "dns_query";
  }
  classify script_execute e = record e {
    category = codes "process";
    type = codes "start";
    action = codes "script_executed";
  }
  classify module_load e = record e {
    category = codes "driver";
    type = codes "load";
    action = codes "module_loaded";
  }
  classify driver_load e = record e {
    category = codes "driver";
    type = codes "load";
    action = codes "driver_loaded";
  }
  classify image_load e = e
  classify remote_thread e = record e {
    category = codes "process";
    type = codes "start";
    action = codes "remote_thread_created";
    severity = codes "high";
  }
  classify pipe_event e = record e {
    category = codes "process";
    type = codes "info";
    action = codes "pipe_event";
  }
  classify wmi_event e = record e {
    category = codes "process";
    type = codes "info";
    action = codes "wmi_event";
    severity = codes "medium";
  }

  unfoldable pub set_fields : List (Text × Text) → Event D → Event D
  set_fields [] e = e
  set_fields ((key, value) ∷ fields) e = set_fields fields (set_field e key (text value))

  unfoldable pub convert_endpoint_event : ℕ → EndpointEvent → Event D
  convert_endpoint_event id p =
      let blank = empty_event {D = D} in
      let begun : Event D = record blank {
        id = id;
        timestamp = p.timestamp;
        source_type = codes "endpoint";
        host_name = p.host_name;
        host_id = p.host_id;
        process_name = p.process_name;
        process_pid = decimal p.process_pid;
        user_name = p.user_name;
        source_ip = p.source_ip;
        source_port = p.source_port;
        destination_ip = p.destination_ip;
        destination_port = p.destination_port;
      } in
      let classified = classify p.type begun in
      let e : Event D = record classified {
        dataset = codes "endpoint." ++ classified.category;
        module_name = codes "xdr-agent";
      } in
      let e = set_field e (codes "process.pid") (int (pos p.process_pid)) in
      let e = set_field e (codes "process.ppid") (int (pos p.process_ppid)) in
      let e = set_field e (codes "process.command_line") (text p.process_cmd_line) in
      let e = set_field e (codes "process.path") (text p.process_path) in
      let e = set_field e (codes "file.path") (text p.file_path) in
      let e = set_field e (codes "file.hash") (text p.file_hash) in
      let e = set_field e (codes "registry.key") (text p.registry_key) in
      let e = set_field e (codes "registry.value") (text p.registry_value) in
      let e = set_field e (codes "dns.question.name") (text p.dns_query) in
      let resolved =
        if is_empty p.dns_results
        then e
        else set_field e (codes "dns.resolved_ip") (texts p.dns_results) in
      set_fields p.additional_fields resolved
