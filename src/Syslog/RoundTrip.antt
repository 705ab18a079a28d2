-- ===== src/Syslog/RoundTrip.antt =====
-- What the parser finds in messages that follow the two formats.
use aiguard_siem.Common.{
  ℕ, ◌/◌, ◌%◌, ◌<◌, ◌^◌, ◌≡◌, refl, ap, ◌∙◌, true, some, [], ◌∷◌, ◌++◌, ltb, length, Text, arith,
  Every, IsDigit, is_digit, lt→ltb, scan_digits, scan_digits-decimal, decimal, decimal-digits,
  length-decimal-pos,
}
use aiguard_siem.Common.Int.{pos}
use aiguard_siem.Syslog.Lexer.{skip_whitespace, parse_token, parse_timestamp, parse_priority}
use aiguard_siem.Syslog.Parser.{
  SyslogMessage, parse, parse_rfc5424, rfc5424_version, rfc5424_fields, blank_message,
  with_priority, starts_with_digit, facility_from_priority, severity_from_priority, take_structured,
}
use aiguard_siem.Syslog.Priority.{parse_priority-decimal}
use aiguard_siem.Syslog.Tokens.{IsToken, NoLeadingSpace, skip_whitespace-none, token_lem}

version_lem :
    (raw ds rest : Text)
    → Every IsDigit ds
    → 0 < length ds
    → (scan_digits 0 (ds ++ rest)).0 < 2 ^ 31
    → rfc5424_version raw (ds ++ rest)
      ≡ some (
          rfc5424_fields
            (blank_message raw (scan_digits 0 (ds ++ rest)).0)
            (scan_digits 0 (ds ++ rest)).1)
unfolding rfc5424_version
version_lem raw [] rest a p h = absurd (omega arith)
version_lem raw (d ∷ ds) rest a p h =
    let digit : is_digit d ≡ true = ground arith in
    let fits : ltb (scan_digits 0 (d ∷ (ds ++ rest))).0 (2 ^ 31) ≡ true = lt→ltb _ _ h in
    rw (digit, fits)

skip_whitespace-digits :
    (ds rest : Text) → Every IsDigit ds → 0 < length ds → skip_whitespace (ds ++ rest) ≡ ds ++ rest
skip_whitespace-digits [] rest a p = absurd (omega arith)
skip_whitespace-digits (d ∷ ds) rest a p =
    skip_whitespace-none (d ∷ (ds ++ rest)) (omega (arith, a.0), omega (arith, a.0))

-- The parts of an RFC 5424 message without structured data.
pub record Parts : Type 0 where
  pub timestamp : Text
  pub hostname : Text
  pub app_name : Text
  pub proc_id : Text
  pub msg_id : Text
  pub message : Text

pub record IsWellFormed (m : Parts) : Type 0 where
  pub timestamp : IsToken m.timestamp
  pub hostname : IsToken m.hostname
  pub app_name : IsToken m.app_name
  pub proc_id : IsToken m.proc_id
  pub msg_id : IsToken m.msg_id
  pub message : NoLeadingSpace m.message

abbrev pub render_parts : Parts → Text
render_parts m =
    b' '
    ∷ (m.timestamp
        ++ (b' '
            ∷ (m.hostname
                ++ (b' '
                    ∷ (m.app_name
                        ++ (b' '
                            ∷ (m.proc_id
                                ++ (b' '
                                    ∷ (m.msg_id ++ (b' ' ∷ (b'-' ∷ (b' ' ∷ m.message))))))))))))

-- `<PRI>VERSION TIMESTAMP HOSTNAME APP-NAME PROCID MSGID - MSG`.
abbrev pub render : ℕ → ℕ → Parts → Text
render p v m = b'<' ∷ (decimal p ++ (b'>' ∷ (decimal v ++ render_parts m)))

abbrev pub parts_of : SyslogMessage → Parts
parts_of m = record {
  timestamp = m.timestamp;
  hostname = m.hostname;
  app_name = m.app_name;
  proc_id = m.proc_id;
  msg_id = m.msg_id;
  message = m.message;
}

fields_lem :
    (raw : Text) (v : ℕ) (m : Parts)
    → IsWellFormed m
    → let r = rfc5424_fields (blank_message raw v) (render_parts m) in
      (parts_of r ≡ m) × (r.structured_data ≡ []) × (r.version ≡ v)
unfolding rfc5424_fields parse_timestamp parse_token take_structured blank_message
fields_lem raw v m h =
    rw
      (
        token_lem m.timestamp _ h.timestamp,
        token_lem m.hostname _ h.hostname,
        token_lem m.app_name _ h.app_name,
        token_lem m.proc_id _ h.proc_id,
        token_lem m.msg_id _ h.msg_id,
        skip_whitespace-none m.message h.message,
      )
      (refl, refl, refl)

scan_space : (v : ℕ) (rest : Text) → scan_digits v (b' ' ∷ rest) ≡ (v, b' ' ∷ rest)
unfolding scan_digits
scan_space v rest = refl

rfc5424_lem :
    (raw : Text) (p v : ℕ) (m : Parts)
    → v < 2 ^ 31
    → parse_priority raw ≡ (pos p, decimal v ++ render_parts m)
    → parse_rfc5424 raw ≡ some (rfc5424_fields (blank_message raw v) (render_parts m))
unfolding parse_rfc5424
rfc5424_lem raw p v m h e =
    let scanned : scan_digits 0 (decimal v ++ render_parts m) ≡ (v, render_parts m) =
      scan_digits-decimal v (render_parts m) ∙ scan_space v _ in
    let ds = decimal-digits v in
    let some_digit = length-decimal-pos v in
    rw (e, skip_whitespace-digits (decimal v) (render_parts m) ds some_digit)
      (version_lem raw (decimal v) (render_parts m) ds some_digit (rw scanned h)
        ∙ ap (λ r. some (rfc5424_fields (blank_message raw r.0) r.1)) scanned)

digit_lem :
    (ds rest : Text) → Every IsDigit ds → 0 < length ds → starts_with_digit (ds ++ rest) ≡ true
digit_lem [] rest a p = absurd (omega arith)
digit_lem (d ∷ ds) rest a p = ground arith

-- An RFC 5424 message without structured data, of well-formed parts, with a priority below 1000 and
-- a version that fits an `int`, parses into just these parts, with no structured data and under its
-- version. The facility and the severity are the priority's quotient and remainder by 8.
pub parse-render :
    (p v : ℕ) (parts : Parts)
    → p < 1000
    → v < 2 ^ 31
    → IsWellFormed parts
    → (m : SyslogMessage) × (parse (render p v parts) ≡ some m)
      × (parts_of m ≡ parts)
      × (m.structured_data ≡ [])
      × (m.version ≡ v)
      × (m.priority ≡ p)
      × (m.facility ≡ p / 8)
      × (m.severity ≡ p % 8)
unfolding parse with_priority facility_from_priority severity_from_priority
parse-render p v parts hp hv w =
    let raw : Text = render p v parts in
    let read : parse_priority raw ≡ (pos p, decimal v ++ render_parts parts) =
      parse_priority-decimal p (decimal v ++ render_parts parts) hp in
    let digit =
      digit_lem (decimal v) (render_parts parts) (decimal-digits v) (length-decimal-pos v) in
    let fields = fields_lem raw v parts w in
    (
      with_priority p (rfc5424_fields (blank_message raw v) (render_parts parts)),
      rw (read, digit, rfc5424_lem raw p v parts hv read),
      fields.0,
      fields.1,
      fields.2,
      refl,
      refl,
      refl,
    )
