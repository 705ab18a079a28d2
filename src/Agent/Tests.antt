-- ===== src/Agent/Tests.antt =====
-- A few turns of an agent whose batches hold two events.
use aiguard_siem.Common.{ℕ, ◌≡◌, refl, List, [], ◌∷◌, codes, arith}
use aiguard_siem.Events.{seconds, set_field, empty_event}
use aiguard_siem.Agent.Conversion.{
  EndpointEvent, EndpointEventType, process_start, image_load, convert_endpoint_event, classify,
  set_fields,
}
use aiguard_siem.Agent.Core.{AgentConfig, new_agent}
use aiguard_siem.Agent.Delivery.{
  Turn, submit, work, beat, act, run, taken_in, IsDelivering, run-IsDelivering,
}

abbrev endpoint_event : EndpointEventType → EndpointEvent
endpoint_event type = record {
  type = type;
  timestamp = 5;
  host_name = codes "pc";
  host_id = [];
  process_name = codes "sh";
  process_pid = 1;
  process_ppid = 0;
  process_cmd_line = [];
  process_path = [];
  user_name = [];
  user_sid = [];
  source_ip = [];
  source_port = 0;
  destination_ip = [];
  destination_port = 0;
  file_path = [];
  file_hash = [];
  registry_key = [];
  registry_value = [];
  dns_query = [];
  dns_results = [];
  additional_fields = [];
}

abbrev config : AgentConfig
config = record { agent_id = codes "a"; event_batch_size = 2; event_batch_timeout_ms = 100 }

abbrev turns : List Turn
turns =
    submit (endpoint_event process_start)
    ∷ submit (endpoint_event image_load)
    ∷ work 0 1
    ∷ beat 2
    ∷ work 2 3
    ∷ act
    ∷ work 0 (seconds 1)
    ∷ []

-- The switch has no case for image loads: they have no category.
image_load_category : (convert_endpoint_event {D = ℕ} 1 (endpoint_event image_load)).category ≡ []
unfolding convert_endpoint_event classify set_fields set_field empty_event
image_load_category = refl

run-IsDelivering_example :
    let c = new_agent {D = ℕ} (endpoint_event process_start) config 0 in
    IsDelivering (taken_in turns c) (run turns c)
run-IsDelivering_example =
    run-IsDelivering turns (endpoint_event process_start) config 0 (omega arith)
