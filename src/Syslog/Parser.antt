-- ===== src/Syslog/Parser.antt =====
-- collectors/syslog/src/syslog_parser.cpp: the two formats, and the choice between them.
use aiguard_siem.Common.{
  ℕ, ◌+◌, ◌-◌, ◌/◌, ◌%◌, ◌^◌, Bool, true, false, ◌||◌, Option, none, some, [], ◌∷◌, if◌then◌else◌,
  ltb, leb, ◌==◌, take, drop, Text, codes, find_char, scan_digits, is_digit, is_empty, text_key,
}
use aiguard_siem.Common.Int.{ℤ, pos, negsuc}
use aiguard_siem.Events.{Severity, info, medium, high, critical}
use aiguard_siem.Syslog.Lexer.{
  is_space, skip_whitespace, span_until, parse_token, parse_timestamp, find_text, parse_priority,
}

-- Facilities and severities are their codes: the casts of the code check no range.
pub record SyslogMessage : Type 0 where
  pub priority : ℕ
  pub facility : ℕ
  pub severity : ℕ
  pub timestamp : Text
  pub hostname : Text
  pub app_name : Text
  pub proc_id : Text
  pub msg_id : Text
  pub message : Text
  pub structured_data : Text
  pub raw_message : Text
  pub version : ℕ

-- A message before anything but its text is known: `User`, `Informational`.
unfoldable pub blank_message : Text → ℕ → SyslogMessage
blank_message raw version = record {
  priority = 0;
  facility = 1;
  severity = 6;
  timestamp = [];
  hostname = [];
  app_name = [];
  proc_id = [];
  msg_id = [];
  message = [];
  structured_data = [];
  raw_message = raw;
  version = version;
}

unfoldable pub facility_from_priority : ℕ → ℕ
facility_from_priority p = p / 8

unfoldable pub severity_from_priority : ℕ → ℕ
severity_from_priority p = p % 8

-- `-`, or a bracketed text that ends before a space; anything else is left to the message.
unfoldable pub take_structured : Text → Text × Text
unfolding find_text
take_structured [] = ([], [])
take_structured (c ∷ s) =
    if c == b'-'
    then ([], s)
    else (if c == b'['
        then elim (find_text (codes "] ") (c ∷ s)) [
          | some stop ↦ (take (stop + 1) (c ∷ s), drop (stop + 1) (c ∷ s))
          | none ↦ ([], c ∷ s)
        ]
        else ([], c ∷ s))

-- The fields behind the version.
unfoldable pub rfc5424_fields : SyslogMessage → Text → SyslogMessage
unfolding skip_whitespace parse_timestamp parse_token take_structured
rfc5424_fields msg s =
    let (timestamp, s1) = parse_timestamp true (skip_whitespace s) in
    let (hostname, s2) = parse_token b' ' (skip_whitespace s1) in
    let (app_name, s3) = parse_token b' ' (skip_whitespace s2) in
    let (proc_id, s4) = parse_token b' ' (skip_whitespace s3) in
    let (msg_id, s5) = parse_token b' ' (skip_whitespace s4) in
    let (structured, s6) = take_structured (skip_whitespace s5) in
    record msg {
      timestamp = timestamp;
      hostname = hostname;
      app_name = app_name;
      proc_id = proc_id;
      msg_id = msg_id;
      structured_data = structured;
      message = skip_whitespace s6;
    }

-- The version is a run of digits that fits an `int`.
unfoldable pub rfc5424_version : Text → Text → Option SyslogMessage
rfc5424_version raw [] = none
rfc5424_version raw (c ∷ s) =
    let (version, rest) = scan_digits 0 (c ∷ s) in
    if is_digit c
    then (if ltb version (2 ^ 31)
        then some (rfc5424_fields (blank_message raw version) rest)
        else none)
    else none

abbrev pub after_priority : (Text → Option SyslogMessage) → ℤ × Text → Option SyslogMessage
after_priority k (pos p, s) = k s
after_priority k (negsuc p, s) = none

unfoldable pub parse_rfc5424 : Text → Option SyslogMessage
parse_rfc5424 raw =
    after_priority (λ s. rfc5424_version raw (skip_whitespace s)) (parse_priority raw)

abbrev pub ends_tag : ℕ → Bool
ends_tag c = is_space c || c == b':'

unfoldable pub skip_colon : Text → Text
skip_colon [] = []
skip_colon (c ∷ s) = if c == b':' then s else c ∷ s

-- A process id in brackets.
unfoldable pub take_pid : Text → Text × Text
unfolding find_char
take_pid [] = ([], [])
take_pid (c ∷ s) =
    if c == b'['
    then elim (find_char b']' (c ∷ s)) [
      | some stop ↦ (take (stop - 1) s, drop (stop + 1) (c ∷ s))
      | none ↦ ([], c ∷ s)
    ]
    else ([], c ∷ s)

-- The tag, if a delimiter ends it. (`take_tag` answers the tag, the process id and the rest.)
unfoldable pub take_tag : Text → Text × Text × Text
unfolding span_until skip_colon take_pid
take_tag s =
    let (tag, rest) = span_until ends_tag s in
    let (pid, rest') = take_pid (skip_colon rest) in
    if is_empty rest then ([], [], s) else (tag, pid, rest')

unfoldable pub rfc3164_fields : SyslogMessage → Text → SyslogMessage
unfolding skip_whitespace parse_timestamp parse_token take_tag
rfc3164_fields msg s =
    let (timestamp, s1) = parse_timestamp false (skip_whitespace s) in
    let (hostname, s2) = parse_token b' ' (skip_whitespace s1) in
    let (app_name, proc_id, s3) = take_tag (skip_whitespace s2) in
    record msg {
      timestamp = timestamp;
      hostname = hostname;
      app_name = app_name;
      proc_id = proc_id;
      message = skip_whitespace s3;
    }

unfoldable pub parse_rfc3164 : Text → Option SyslogMessage
parse_rfc3164 raw =
    after_priority (λ s. some (rfc3164_fields (blank_message raw 0) s)) (parse_priority raw)

unfoldable pub with_priority : ℕ → SyslogMessage → SyslogMessage
unfolding facility_from_priority severity_from_priority
with_priority p msg = record msg {
  priority = p;
  facility = facility_from_priority p;
  severity = severity_from_priority p;
}

abbrev pub starts_with_digit : Text → Bool
starts_with_digit [] = false
starts_with_digit (c ∷ s) = is_digit c

abbrev pub or_else : Option SyslogMessage → Option SyslogMessage → Option SyslogMessage
or_else (some m) d = some m
or_else none d = d

abbrev pub map_message :
    (SyslogMessage → SyslogMessage) → Option SyslogMessage → Option SyslogMessage
map_message f none = none
map_message f (some m) = some (f m)

abbrev pub choose_format : Text → ℤ × Text → Option SyslogMessage
choose_format raw (negsuc p, s) = none
choose_format raw (pos p, s) =
    map_message (with_priority p)
      (or_else (if starts_with_digit s then parse_rfc5424 raw else none) (parse_rfc3164 raw))

-- RFC 5424 first, if a digit follows the priority; RFC 3164 otherwise, or if that fails.
unfoldable pub parse : Text → Option SyslogMessage
parse [] = none
parse (c ∷ s) = choose_format (c ∷ s) (parse_priority (c ∷ s))

unfoldable pub facility_to_string : ℕ → Text
facility_to_string f =
    if f == 0
    then codes "kernel"
    else (if f == 1
        then codes "user"
        else (if f == 2
            then codes "mail"
            else (if f == 3
                then codes "daemon"
                else (if f == 4
                    then codes "auth"
                    else (if f == 5
                        then codes "syslog"
                        else (if f == 6
                            then codes "line-printer"
                            else (if f == 7
                                then codes "news"
                                else (if f == 8
                                    then codes "uucp"
                                    else (if f == 9
                                        then codes "cron"
                                        else (if f == 10
                                            then codes "auth-priv"
                                            else (if f == 11
                                                then codes "ftp"
                                                else (if f == 12
                                                    then codes "ntp"
                                                    else (if f == 13
                                                        then codes "audit"
                                                        else (if f == 14
                                                            then codes "alert"
                                                            else (if f == 15
                                                            then codes "clock"
                                                            else (if f == 16
                                                            then codes "local0"
                                                            else (if f == 17
                                                            then codes "local1"
                                                            else (if f == 18
                                                            then codes "local2"
                                                            else (if f == 19
                                                            then codes "local3"
                                                            else (if f == 20
                                                            then codes "local4"
                                                            else (if f == 21
                                                            then codes "local5"
                                                            else (if f == 22
                                                            then codes "local6"
                                                            else (if f == 23
                                                            then codes "local7"
                                                            else codes
                                                            "unknown")))))))))))))))))))))))

unfoldable pub severity_to_string : ℕ → Text
severity_to_string s =
    if s == 0
    then codes "emergency"
    else (if s == 1
        then codes "alert"
        else (if s == 2
            then codes "critical"
            else (if s == 3
                then codes "error"
                else (if s == 4
                    then codes "warning"
                    else (if s == 5
                        then codes "notice"
                        else (if s == 6
                            then codes "informational"
                            else (if s == 7 then codes "debug" else codes "unknown")))))))

unfoldable pub map_severity : ℕ → Severity
map_severity s =
    if leb s 2 then critical else (if s == 3 then high else (if s == 4 then medium else info))
