-- ===== src/Events.antt =====
-- collectors/common/include/aiguard/common/event.h: events, their fields and severities.
-- `Platform` stands for what the program takes from the C++ runtime and has no model here:
-- `double`, the conversions to and from it, and `std::regex`.
use aiguard_siem.Common.{
  ℕ, ◌+◌, ◌*◌, ◌^◌, ◌%◌, Bool, ◌||◌, ◌∷◌, [], Option, List, Text, codes, text_eq, find, insert,
  if◌then◌else◌, text_key, decimal,
}
use aiguard_siem.Common.Int.{ℤ, pos, negsuc}

-- A conversion that throws, and a pattern that does not compile, are `none`.
pub record Platform : Type 1 where
  pub Double : Type 0
  pub of_int : ℤ → Double
  pub add : Double → Double → Double
  pub sub : Double → Double → Double
  pub mul : Double → Double → Double
  pub div : Double → Double → Double
  pub sqrt : Double → Double
  pub lt : Double → Double → Bool
  pub le : Double → Double → Bool
  pub stod : Text → Option Double
  pub to_text : Double → Text
  pub Regex : Type 0
  pub regex : Text → Option Regex
  pub regex_search : Regex → Text → Option Bool

-- `std::to_string(int64_t)`.
unfoldable pub int_to_string : ℤ → Text
int_to_string (pos n) = decimal n
int_to_string (negsuc n) = b'-' ∷ decimal (n + 1)

pub data FieldValue (D : Type 0) : Type 0 where
  text : Text → FieldValue D
  int : ℤ → FieldValue D
  double : D → FieldValue D
  bool : Bool → FieldValue D
  texts : List Text → FieldValue D
  ints : List ℤ → FieldValue D
  doubles : List D → FieldValue D

-- Time points are nanoseconds since the epoch.
abbrev pub Timestamp : Type 0
Timestamp = ℕ

abbrev pub milliseconds : ℕ → ℕ
milliseconds n = n * 1_000_000

abbrev pub seconds : ℕ → ℕ
seconds n = n * 1_000_000_000

abbrev pub wrap32 : ℕ → ℕ
wrap32 n = n % 2 ^ 32

-- The counters are `uint64_t`.
abbrev pub wrap64 : ℕ → ℕ
wrap64 n = n % 2 ^ 64

pub record Event (D : Type 0) : Type 0 where
  pub id : ℕ
  pub timestamp : Timestamp
  pub source_type : Text
  pub source_host : Text
  pub source_ip : Text
  pub source_port : ℕ
  pub destination_ip : Text
  pub destination_port : ℕ
  pub protocol : Text
  pub action : Text
  pub outcome : Text
  pub severity : Text
  pub severity_score : ℕ
  pub category : Text
  pub type : Text
  pub dataset : Text
  pub module_name : Text
  pub user_name : Text
  pub user_id : Text
  pub process_name : Text
  pub process_pid : Text
  pub host_name : Text
  pub host_id : Text
  pub network_transport : Text
  pub network_protocol : Text
  pub network_bytes_in : ℤ
  pub network_bytes_out : ℤ
  pub network_packets_in : ℤ
  pub network_packets_out : ℤ
  pub raw_data : Text
  pub custom_fields : List (Text × FieldValue D)

-- `Event()`.
unfoldable pub empty_event : {D : Type 0} → Event D
empty_event = record {
  id = 0;
  timestamp = 0;
  source_type = [];
  source_host = [];
  source_ip = [];
  source_port = 0;
  destination_ip = [];
  destination_port = 0;
  protocol = [];
  action = [];
  outcome = [];
  severity = [];
  severity_score = 0;
  category = [];
  type = [];
  dataset = [];
  module_name = [];
  user_name = [];
  user_id = [];
  process_name = [];
  process_pid = [];
  host_name = [];
  host_id = [];
  network_transport = [];
  network_protocol = [];
  network_bytes_in = pos 0;
  network_bytes_out = pos 0;
  network_packets_in = pos 0;
  network_packets_out = pos 0;
  raw_data = [];
  custom_fields = [];
}

unfoldable pub set_field : {D : Type 0} → Event D → Text → FieldValue D → Event D
set_field e key value = record e { custom_fields = insert key value e.custom_fields }

unfoldable pub get_field : {D : Type 0} → Event D → Text → Option (FieldValue D)
get_field e key = find key e.custom_fields

pub data Severity : Type 0 where
  info low medium high critical : Severity

unfoldable pub severity_to_string : Severity → Text
severity_to_string info = codes "info"
severity_to_string low = codes "low"
severity_to_string medium = codes "medium"
severity_to_string high = codes "high"
severity_to_string critical = codes "critical"

unfoldable pub string_to_severity : Text → Severity
unfolding text_eq
string_to_severity s =
    if text_eq s (codes "info") || text_eq s (codes "informational")
    then info
    else (if text_eq s (codes "low")
        then low
        else (if text_eq s (codes "medium")
            then medium
            else (if text_eq s (codes "high")
                then high
                else (if text_eq s (codes "critical") then critical else info))))
