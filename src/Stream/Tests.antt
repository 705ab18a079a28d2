-- ===== src/Stream/Tests.antt =====
-- A run of the processor: a rule, an event that matches it, and a clean-up.
use aiguard_siem.Common.{
  ℕ, ◌≡◌, refl, true, some, none, List, [], ◌∷◌, ◌++◌, Text, codes, length, find, insert,
}
use aiguard_siem.Events.{Event, empty_event, seconds, critical}
use aiguard_siem.Platforms.{whole_numbers}
use aiguard_siem.Correlation.Conditions.{CorrelationRule, Condition}
use aiguard_siem.Stream.Processor.{
  StreamProcessor, Message, new_processor, receive_turn, push_turn, process_turn, checkpoint_turn,
  add_correlation_rule,
}
use aiguard_siem.Stream.Detector.{Turn, handled, swept, ruled, replay, detector_of}
use aiguard_siem.Stream.Runs.{add_rule, popped_turns}
use aiguard_siem.Ring.Buffer.{try_pop}

abbrev first_login : CorrelationRule Text
first_login = record {
  id = codes "login";
  name = codes "Failed login";
  description = [];
  mitre_tactic = [];
  mitre_technique = codes "T1110";
  severity = critical;
  severity_score = 90;
  conditions =
      record {
        field = codes "event.action";
        op = codes "=";
        value = codes "login-failed";
        compiled_regex = none;
      }
      ∷ [];
  time_window_ms = 1000;
  threshold = 1;
  aggregation_field = codes "host.name";
  action = codes "alert";
  sigma_rule_id = [];
}

abbrev login : Event ℕ
unfolding empty_event
login =
    let blank : Event ℕ = empty_event in
    record blank { timestamp = 5; action = codes "login-failed"; host_name = codes "web1" }

abbrev message : Message ℕ
message = record { error_code = 0; event = some login }

abbrev begun : StreamProcessor whole_numbers
begun = new_processor whole_numbers true true 0

abbrev ruled_processor : StreamProcessor whole_numbers
ruled_processor = add_correlation_rule whole_numbers first_login begun

abbrev received : StreamProcessor whole_numbers
received = receive_turn whole_numbers message ruled_processor

abbrev pushed : StreamProcessor whole_numbers
pushed = push_turn whole_numbers received.pending received

abbrev processed : StreamProcessor whole_numbers
processed = process_turn whole_numbers (seconds 1) pushed

abbrev checked : StreamProcessor whole_numbers
checked = checkpoint_turn whole_numbers (seconds 2) (seconds 2) processed

abbrev history : List (Turn whole_numbers)
history =
    swept (seconds 2)
    ∷ (popped_turns whole_numbers (seconds 1) (try_pop pushed.event_queue).1
        ++ (ruled first_login ∷ []))

-- The rule fires on the event.
one_alert :
    let turns : List (Turn whole_numbers) =
      swept (seconds 2) ∷ (handled (seconds 1) login ∷ (ruled first_login ∷ [])) in
    length (replay whole_numbers true true (detector_of whole_numbers begun) turns).produced ≡ 1
unfolding aiguard_siem.Windows.Manager.process_event
    aiguard_siem.Windows.Manager.set_result_callback aiguard_siem.Windows.Manager.process_specs
    aiguard_siem.Windows.Manager.expire_windows aiguard_siem.Windows.Manager.expire_all
    aiguard_siem.Correlation.Engine.process_event aiguard_siem.Correlation.Engine.evaluate_all
    aiguard_siem.Correlation.Engine.add_rule aiguard_siem.Correlation.Engine.evaluate
    aiguard_siem.Correlation.Engine.on_match aiguard_siem.Correlation.Engine.track
    aiguard_siem.Correlation.Engine.drop_expired aiguard_siem.Correlation.Engine.aggregation_key
    aiguard_siem.Correlation.Engine.count_alert aiguard_siem.Correlation.Engine.make_alert
    aiguard_siem.Correlation.Engine.store_event aiguard_siem.Correlation.Engine.cleanup_expired
    aiguard_siem.Correlation.Engine.prune_all aiguard_siem.Correlation.Engine.prune
    aiguard_siem.Correlation.Engine.rule_window
    aiguard_siem.Correlation.Conditions.matches_conditions
    aiguard_siem.Correlation.Conditions.check_condition
    aiguard_siem.Correlation.Conditions.get_field_string
    aiguard_siem.Correlation.Conditions.compile_regex aiguard_siem.Correlation.Conditions.check_op
    aiguard_siem.Correlation.Conditions.matches_all aiguard_siem.Correlation.Conditions.either login
    find insert empty_event
one_alert = refl
