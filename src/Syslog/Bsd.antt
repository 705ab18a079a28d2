-- ===== src/Syslog/Bsd.antt =====
-- What the parser finds in RFC 3164 messages whose tag ends in a colon.
use aiguard_siem.Common.{
  ℕ, suc, ◌<◌, ◌≡◌, ◌≢◌, refl, sym, ap, ◌∙◌, false, some, [], ◌∷◌, ◌++◌, ltb, length, length-append,
  take, drop, Text, arith, Every, decimal, take-length-append, drop-length-append,
}
use aiguard_siem.Common.Int.{pos}
use aiguard_siem.Syslog.Lexer.{skip_whitespace, parse_token, parse_timestamp, parse_priority}
use aiguard_siem.Syslog.Parser.{
  SyslogMessage, parse, parse_rfc3164, rfc3164_fields, blank_message, with_priority,
  starts_with_digit, take_tag, ends_tag, skip_colon, take_pid,
}
use aiguard_siem.Syslog.Priority.{parse_priority-decimal}
use aiguard_siem.Syslog.Tokens.{
  IsToken, NoLeadingSpace, span_until-append, skip_whitespace-none, skip_whitespace-space,
  leading-append, token_lem,
}

-- `TAG: MESSAGE`, behind a host name.
pub record BsdParts : Type 0 where
  pub timestamp : Text
  pub hostname : Text
  pub tag : Text
  pub message : Text

-- A time stamp has 15 characters, and the first is a letter.
abbrev pub IsBsdStamp : Text → Type 0
IsBsdStamp [] = ⊥
IsBsdStamp (c ∷ s) = (length s ≡ 14) × (b'9' < c)

pub record IsBsd (m : BsdParts) : Type 0 where
  pub timestamp : IsBsdStamp m.timestamp
  pub hostname : IsToken m.hostname
  pub tag : IsToken m.tag
  pub no_colon : Every (λ c. c ≢ b':') m.tag
  pub message : NoLeadingSpace m.message

abbrev pub render_bsd_tail : BsdParts → Text
render_bsd_tail m = b' ' ∷ (m.hostname ++ (b' ' ∷ (m.tag ++ (b':' ∷ (b' ' ∷ m.message)))))

abbrev pub render_bsd : ℕ → BsdParts → Text
render_bsd p m = b'<' ∷ (decimal p ++ (b'>' ∷ (m.timestamp ++ render_bsd_tail m)))

no_end :
    (t : Text)
    → Every (λ c. (c ≢ b' ') × (c ≢ 9)) t
    → Every (λ c. c ≢ b':') t
    → Every (λ c. ends_tag c ≡ false) t
no_end [] a b = tt
no_end (c ∷ t) a b = (ground arith, no_end t a.1 b.1)

tag_lem :
    (tag message : Text)
    → IsToken tag
    → Every (λ c. c ≢ b':') tag
    → take_tag (skip_whitespace (b' ' ∷ (tag ++ (b':' ∷ (b' ' ∷ message)))))
      ≡ (tag, [], b' ' ∷ message)
unfolding take_tag skip_colon take_pid
tag_lem tag message h n = rw (
  skip_whitespace-space (tag ++ (b':' ∷ (b' ' ∷ message))) (leading-append tag _ h),
  span_until-append ends_tag tag b':' (b' ' ∷ message) (no_end tag h.1 n) refl,
)

stamp_lem :
    (stamp rest : Text)
    → IsBsdStamp stamp
    → (parse_timestamp false (skip_whitespace (stamp ++ rest)) ≡ (stamp, rest))
      × (starts_with_digit (stamp ++ rest) ≡ false)
unfolding parse_timestamp
stamp_lem [] rest h = absurd h
stamp_lem (c ∷ s) rest h =
    let long : ltb (length (c ∷ (s ++ rest))) 15 ≡ false = ground (arith, length-append s rest) in
    let plain : skip_whitespace (c ∷ (s ++ rest)) ≡ c ∷ (s ++ rest) =
      skip_whitespace-none (c ∷ (s ++ rest)) (omega (arith, h.1), omega (arith, h.1)) in
    (
      rw (plain, long)
          (pair (take 15 (c ∷ (s ++ rest))) _ _ _
            (ap (λ k. take (suc k) (c ∷ (s ++ rest))) (sym h.0) ∙ take-length-append (c ∷ s) rest)
            (ap (λ k. drop (suc k) (c ∷ (s ++ rest))) (sym h.0) ∙ drop-length-append (c ∷ s) rest)),
      ground arith,
    )
  where
    pair : (a b c' d : Text) → a ≡ b → c' ≡ d → ◌≡◌ {A = Text × Text} (a, c') (b, d)
    pair a b c' d p q = cc

-- An RFC 3164 message with a tag that ends in a colon parses into its time stamp, host name, tag
-- and message, with no version and no process id: also a process id in brackets stays in the tag.
pub parse-render_bsd :
    (p : ℕ) (parts : BsdParts)
    → p < 1000
    → IsBsd parts
    → (m : SyslogMessage) × (parse (render_bsd p parts) ≡ some m)
      × (m.timestamp ≡ parts.timestamp)
      × (m.hostname ≡ parts.hostname)
      × (m.app_name ≡ parts.tag)
      × (m.proc_id ≡ [])
      × (m.message ≡ parts.message)
      × (m.version ≡ 0)
      × (m.priority ≡ p)
unfolding parse parse_rfc3164 with_priority rfc3164_fields parse_token blank_message
parse-render_bsd p parts hp w =
    let rest : Text = parts.timestamp ++ render_bsd_tail parts in
    let raw : Text = render_bsd p parts in
    let read : parse_priority raw ≡ (pos p, rest) = parse_priority-decimal p rest hp in
    let stamp = stamp_lem parts.timestamp (render_bsd_tail parts) w.timestamp in
    let host = token_lem parts.hostname (parts.tag ++ (b':' ∷ (b' ' ∷ parts.message))) w.hostname in
    let tag = tag_lem parts.tag parts.message w.tag w.no_colon in
    (
      with_priority p (rfc3164_fields (blank_message raw 0) rest),
      rw (read, stamp.1, read),
      rw stamp.0,
      rw (stamp.0, host),
      rw (stamp.0, host, tag),
      rw (stamp.0, host, tag),
      rw (stamp.0, host, tag) (skip_whitespace-none parts.message w.message),
      refl,
      refl,
    )
