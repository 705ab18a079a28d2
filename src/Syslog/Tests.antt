-- ===== src/Syslog/Tests.antt =====
-- The parser on the messages of the repository's own tests.
use aiguard_siem.Common.{
  find_char, ℕ, ◌≡◌, ◌≢◌, refl, ◌↔◌, [], ◌∷◌, some, none, Text, codes, arith, scan_digits,
}
use mathlib.Core.Option
use aiguard_siem.Syslog.Elements.{
  Element, render_elements, put_elements, Without, IsElement, parse_structured_data-render,
}
use aiguard_siem.Syslog.Structured.{parse_structured_data}
use aiguard_siem.Syslog.Lexer.{parse_priority, from_chars, from_digits}
use aiguard_siem.Syslog.Parser.{
  SyslogMessage, parse, parse_rfc5424, rfc5424_version, rfc5424_fields, blank_message,
  with_priority,
}
use aiguard_siem.Syslog.Refusal.{HasPriority, parse-eq-none-HasPriority}
use aiguard_siem.Syslog.RoundTrip.{Parts, IsWellFormed, render, parts_of, parse-render}
use aiguard_siem.Syslog.Bsd.{BsdParts, IsBsd, render_bsd, parse-render_bsd}

-- What follows the number in the bracket is not looked at.
lenient : HasPriority (codes "<1x>hello")
lenient = record {
  inside = codes "1x";
  rest = codes "hello";
  shape = refl;
  first_close = omega arith;
  short = omega arith;
  number = refl;
}

parse-eq-none-HasPriority_example :
    (parse (codes "<1x>hello") ≡ none) ↔ (¬ HasPriority (codes "<1x>hello"))
parse-eq-none-HasPriority_example = parse-eq-none-HasPriority (codes "<1x>hello")

-- A number below zero is refused.
negative : parse (codes "<-1>hello") ≡ none
unfolding parse parse_priority from_chars from_digits scan_digits find_char
negative = refl

abbrev parts : Parts
parts = record {
  timestamp = codes "2024-01-15T10:30:00Z";
  hostname = codes "host";
  app_name = codes "app";
  proc_id = codes "7";
  msg_id = codes "-";
  message = codes "test";
}

parts-IsWellFormed : IsWellFormed parts
parts-IsWellFormed = omega arith

parse-render_example :
    (m : SyslogMessage) × (parse (render 34 1 parts) ≡ some m)
    × (parts_of m ≡ parts)
    × (m.structured_data ≡ [])
    × (m.version ≡ 1)
    × (m.priority ≡ 34)
    × (m.facility ≡ 4)
    × (m.severity ≡ 2)
parse-render_example = parse-render 34 1 parts (omega arith) (omega arith) parts-IsWellFormed

-- The message of the test `ParseRFC3164WithPID`, which expects the tag "myapp" and the id "1234".
abbrev with_pid : BsdParts
with_pid = record {
  timestamp = codes "Jan 15 10:30:00";
  hostname = codes "myhost";
  tag = codes "myapp[1234]";
  message = codes "Test message";
}

with_pid-IsBsd : IsBsd with_pid
with_pid-IsBsd = record {
  timestamp = (refl, omega arith);
  hostname = omega arith;
  tag = omega arith;
  no_colon = omega arith;
  message = omega arith;
}

parse-render_bsd_example :
    (m : SyslogMessage) × (parse (render_bsd 133 with_pid) ≡ some m)
    × (m.timestamp ≡ codes "Jan 15 10:30:00")
    × (m.hostname ≡ codes "myhost")
    × (m.app_name ≡ codes "myapp[1234]")
    × (m.proc_id ≡ [])
    × (m.message ≡ codes "Test message")
    × (m.version ≡ 0)
    × (m.priority ≡ 133)
parse-render_bsd_example = parse-render_bsd 133 with_pid (omega arith) with_pid-IsBsd

-- RFC 5424 with structured data, as in the test `ParseRFC5424Basic`.
abbrev basic : Text
basic = codes "<34>1 2024-01-15T10:30:00.123Z myhost myapp 1234 ID47 [a@1 b=2] BAnAnA"

basic_parses :
    Option.map {B = Text × Text} (λ m. (m.structured_data, m.message)) (parse basic)
    ≡ some (codes "[a@1 b=2]", codes "BAnAnA")
unfolding parse parse_rfc5424 parse_priority rfc5424_version rfc5424_fields with_priority
    blank_message scan_digits
basic_parses = refl

-- `[a b="c"]`.
abbrev an_element : Element
an_element = record { id = codes "a"; first = (codes "b", codes "c"); more = [] }

one-Without : (c d : ℕ) → c ≢ d → Without d (c ∷ [])
one-Without c d h = (h, tt)

an_element-IsElement : IsElement an_element
an_element-IsElement = (
  one-Without 97 32 (omega arith),
  (
    one-Without 97 93 (omega arith),
    (
      (
        one-Without 98 61 (omega arith),
        (
          one-Without 99 34 (omega arith),
          (one-Without 98 93 (omega arith), one-Without 99 93 (omega arith)),
        ),
      ),
      tt,
    ),
  ),
)

parse_structured_data-render_example :
    parse_structured_data (render_elements (an_element ∷ [])) ≡ put_elements (an_element ∷ []) []
parse_structured_data-render_example =
    parse_structured_data-render (an_element ∷ []) (an_element-IsElement, tt)
