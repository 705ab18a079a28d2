-- ===== src/Ecs/Normalizer.antt =====
-- collectors/common/src/ecs_schema.cpp: `ECSNormalizer`. A transformation that throws is `none`, and so
-- is what `normalize` then answers with the event as it is by then.
use aiguard_siem.Common.{
  ℕ, ◌-◌, ◌%◌, ◌^◌, Bool, true, false, Option, none, some, List, [], ◌∷◌, ◌++◌, map, Text, codes,
  text_key, text_eq, if◌then◌else◌, ltb, ◌==◌, find, insert, has, get_or_else,
}
use mathlib.Core.Option
use aiguard_siem.Common.Int.{ℤ, pos, negsuc}
use aiguard_siem.Events.{
  Platform, Event, FieldValue, text, int, double, bool, set_field, int_to_string,
}

pub record EcsFieldMapping (D : Type 0) : Type 0 where
  pub ecs_field : Text
  pub source_field : Text
  pub transform : Option (Text → Option (FieldValue D))

pub record EcsNormalizer (D : Type 0) : Type 0 where
  pub mappings : List (Text × List (EcsFieldMapping D))
  pub ecs_fields : List (Text × Bool)

-- `static_cast<int64_t>` of an unsigned number, and `static_cast<uint16_t>` of a signed one.
abbrev pub to_int64 : ℕ → ℤ
to_int64 n = if ltb n (2 ^ 63) then pos n else negsuc (2 ^ 64 - n - 1)

abbrev pub to_uint16 : ℤ → ℕ
to_uint16 (pos n) = n % 2 ^ 16
to_uint16 (negsuc n) = 2 ^ 16 - 1 - n % 2 ^ 16

module _ {D : Type 0} where
  -- The members that take texts, and those that take numbers; other values leave them.
  unfoldable pub text_or : FieldValue D → Text → Text
  text_or (text s) old = s
  text_or v old = old

  unfoldable pub int_or : FieldValue D → ℤ → ℤ
  int_or (int n) old = n
  int_or v old = old

  unfoldable pub port_or : FieldValue D → ℕ → ℕ
  port_or (int n) old = to_uint16 n
  port_or v old = old

  -- `Set ECS field on event`.
  unfoldable pub put_ecs : Text → FieldValue D → Event D → Event D
  put_ecs f v e =
      if text_eq f (codes "source.ip")
      then record e { source_ip = text_or v e.source_ip }
      else (if text_eq f (codes "destination.ip")
          then record e { destination_ip = text_or v e.destination_ip }
          else (if text_eq f (codes "source.port")
              then record e { source_port = port_or v e.source_port }
              else (if text_eq f (codes "destination.port")
                  then record e { destination_port = port_or v e.destination_port }
                  else (if text_eq f (codes "host.name")
                      then record e { host_name = text_or v e.host_name }
                      else (if text_eq f (codes "process.name")
                          then record e { process_name = text_or v e.process_name }
                          else (if text_eq f (codes "event.severity")
                              then record e { severity = text_or v e.severity }
                              else (if text_eq f (codes "event.category")
                                  then record e { category = text_or v e.category }
                                  else (if text_eq f (codes "network.transport")
                                      then record e {
                                        network_transport = text_or v e.network_transport;
                                      }
                                      else (if text_eq f (codes "network.bytes")
                                          then record e {
                                            network_bytes_in = int_or v e.network_bytes_in;
                                          }
                                          else (if text_eq f (codes "network.packets")
                                              then record e {
                                                network_packets_in = int_or v e.network_packets_in;
                                              }
                                              else set_field e f v))))))))))

  unfoldable pub register_mapping :
      Text → Text → Text → Option (Text → Option (FieldValue D)) → EcsNormalizer D → EcsNormalizer D
  register_mapping source_type source_field ecs_field transform c =
      let m : EcsFieldMapping D = record {
        ecs_field = ecs_field;
        source_field = source_field;
        transform = transform;
      } in
      record {
        mappings =
            insert source_type (get_or_else (find source_type c.mappings) [] ++ (m ∷ []))
              c.mappings;
        ecs_fields = insert ecs_field true c.ecs_fields;
      }

  unfoldable pub get_mappings : Text → EcsNormalizer D → List (EcsFieldMapping D)
  get_mappings source_type c = get_or_else (find source_type c.mappings) []

  unfoldable pub is_ecs_field : Text → EcsNormalizer D → Bool
  is_ecs_field field c = has (find field c.ecs_fields)

  unfoldable pub get_source_types : EcsNormalizer D → List Text
  get_source_types c = map (λ r. r.0) c.mappings

module _ (pf : Platform) where
  open pf use {Double, to_text}

  -- The text that a transformation is given.
  unfoldable pub string_of : FieldValue Double → Text
  string_of (text s) = s
  string_of (int n) = int_to_string n
  string_of (double d) = to_text d
  string_of (bool b) = if b then codes "true" else codes "false"
  string_of v = []

  unfoldable pub transformed :
      Option (Text → Option (FieldValue Double)) → FieldValue Double → Option (FieldValue Double)
  transformed none v = some v
  transformed (some f) v = f (string_of v)

  -- An exception ends the loop: the event as it is, and `false`.
  unfoldable pub store_value :
      Text
      → Option (FieldValue Double)
      → Event Double
      → (Event Double → Event Double × Bool)
      → Event Double × Bool
  store_value f none e next = (e, false)
  store_value f (some v) e next = next (put_ecs f v e)

  unfoldable pub map_value :
      EcsFieldMapping Double
      → Option (FieldValue Double)
      → Event Double
      → (Event Double → Event Double × Bool)
      → Event Double × Bool
  map_value m none e next = next e
  map_value m (some v) e next = store_value m.ecs_field (transformed m.transform v) e next

  unfoldable pub normalize_from : List (EcsFieldMapping Double) → Event Double → Event Double × Bool
  normalize_from [] e = (e, true)
  normalize_from (m ∷ ms) e =
      map_value m (find m.source_field e.custom_fields) e (normalize_from ms)

  unfoldable pub normalize : Text → EcsNormalizer Double → Event Double → Event Double × Bool
  normalize source_type c e = elim (find source_type c.mappings) [
    | none ↦ (e, true)
    | some ms ↦ normalize_from ms e
  ]

  -- `std::stoul` and `std::stoi`.
  module _ (stoul : Text → Option ℕ) (stoi : Text → Option ℤ) where
    abbrev pub as_unsigned : Option (Text → Option (FieldValue Double))
    as_unsigned = some (λ v. Option.map (λ n. int (to_int64 n)) (stoul v))

    abbrev pub as_signed : Option (Text → Option (FieldValue Double))
    as_signed = some (λ v. Option.map int (stoi v))

    abbrev pub protocol_name : ℤ → Text
    protocol_name (pos n) =
        if n == 6
        then codes "tcp"
        else (if n == 17 then codes "udp" else (if n == 1 then codes "icmp" else codes "unknown"))
    protocol_name (negsuc n) = codes "unknown"

    abbrev pub as_protocol : Option (Text → Option (FieldValue Double))
    as_protocol = some (λ v. Option.map (λ n. text (protocol_name n)) (stoi v))

    abbrev empty_normalizer : EcsNormalizer Double
    empty_normalizer = record { mappings = []; ecs_fields = [] }

    pub record Registration : Type 0 where
      pub source_type : Text
      pub source_field : Text
      pub ecs_field : Text
      pub transform : Option (Text → Option (FieldValue Double))

    abbrev pub registration :
        Text → Text → Text → Option (Text → Option (FieldValue Double)) → Registration
    registration a b c f = record {
      source_type = a;
      source_field = b;
      ecs_field = c;
      transform = f;
    }

    abbrev pub register_all : List Registration → EcsNormalizer Double → EcsNormalizer Double
    register_all [] c = c
    register_all (r ∷ rs) c =
        register_all rs (register_mapping r.source_type r.source_field r.ecs_field r.transform c)

    abbrev pub allow_fields : List Text → EcsNormalizer Double → EcsNormalizer Double
    allow_fields [] c = c
    allow_fields (f ∷ fs) c = allow_fields fs (record c { ecs_fields = insert f true c.ecs_fields })

    abbrev pub default_registrations : List Registration
    default_registrations =
        registration (codes "syslog") (codes "host") (codes "host.name") none
        ∷ registration (codes "syslog") (codes "program") (codes "process.name") none
        ∷ registration (codes "syslog") (codes "facility") (codes "log.syslog.facility.code") none
        ∷ registration (codes "syslog") (codes "severity") (codes "event.severity") none
        ∷ registration (codes "syslog") (codes "message") (codes "message") none
        ∷ registration (codes "winlog") (codes "ComputerName") (codes "host.name") none
        ∷ registration (codes "winlog") (codes "EventID") (codes "winlog.event_id") none
        ∷ registration (codes "winlog") (codes "Channel") (codes "winlog.channel") none
        ∷ registration (codes "winlog") (codes "ProviderName") (codes "winlog.provider_name") none
        ∷ registration (codes "winlog") (codes "TaskName") (codes "event.category") none
        ∷ registration (codes "netflow") (codes "srcaddr") (codes "source.ip") none
        ∷ registration (codes "netflow") (codes "dstaddr") (codes "destination.ip") none
        ∷ registration (codes "netflow") (codes "srcport") (codes "source.port") as_unsigned
        ∷ registration (codes "netflow") (codes "dstport") (codes "destination.port") as_unsigned
        ∷ registration (codes "netflow") (codes "prot") (codes "network.transport") as_protocol
        ∷ registration (codes "netflow") (codes "dOctets") (codes "network.bytes") as_unsigned
        ∷ registration (codes "netflow") (codes "dPkts") (codes "network.packets") as_unsigned
        ∷ registration (codes "zeek_dns") (codes "query") (codes "dns.question.name") none
        ∷ registration (codes "zeek_dns") (codes "rcode_name") (codes "dns.response.code") none
        ∷ registration (codes "zeek_dns") (codes "qtype_name") (codes "dns.question.type") none
        ∷ registration (codes "zeek_http") (codes "uri") (codes "url.path") none
        ∷ registration (codes "zeek_http") (codes "method") (codes "event.action") none
        ∷ registration (codes "zeek_http") (codes "status_code") (codes "http.response.status_code")
            as_signed
        ∷ registration (codes "zeek_http") (codes "user_agent") (codes "user_agent.original") none
        ∷ []

    abbrev pub valid_fields : List Text
    valid_fields =
        codes "event.id"
        ∷ codes "event.kind"
        ∷ codes "event.category"
        ∷ codes "event.type"
        ∷ codes "event.action"
        ∷ codes "event.outcome"
        ∷ codes "event.severity"
        ∷ codes "event.created"
        ∷ codes "event.module"
        ∷ codes "event.dataset"
        ∷ codes "source.ip"
        ∷ codes "source.port"
        ∷ codes "source.host.name"
        ∷ codes "destination.ip"
        ∷ codes "destination.port"
        ∷ codes "destination.host.name"
        ∷ codes "network.transport"
        ∷ codes "network.protocol"
        ∷ codes "network.bytes"
        ∷ codes "network.packets"
        ∷ codes "user.id"
        ∷ codes "user.name"
        ∷ codes "process.pid"
        ∷ codes "process.name"
        ∷ codes "process.command_line"
        ∷ codes "host.id"
        ∷ codes "host.name"
        ∷ codes "host.os.name"
        ∷ codes "@timestamp"
        ∷ codes "message"
        ∷ codes "log.syslog.facility.code"
        ∷ codes "log.syslog.priority"
        ∷ codes "winlog.event_id"
        ∷ codes "winlog.channel"
        ∷ codes "winlog.provider_name"
        ∷ codes "dns.question.name"
        ∷ codes "dns.response.code"
        ∷ codes "dns.question.type"
        ∷ codes "url.path"
        ∷ codes "http.response.status_code"
        ∷ codes "user_agent.original"
        ∷ codes "url.full"
        ∷ codes "url.domain"
        ∷ codes "http.request.method"
        ∷ []

    unfoldable pub initialize_default_mappings : EcsNormalizer Double
    initialize_default_mappings =
        allow_fields valid_fields (register_all default_registrations empty_normalizer)
