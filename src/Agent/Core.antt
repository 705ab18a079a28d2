-- ===== src/Agent/Core.antt =====
-- xdr/agent/common/src/agent_core.cpp: `AgentCore`. The clocks are arguments, and so is the number of
-- events that the Kafka client says it has sent; `delivered` are the events of the batches that it got.
use aiguard_siem.Common.{
  ℕ, ◌+◌, ◌-◌, ◌/◌, Bool, true, not, ◌&&◌, Option, none, some, List, [], ◌∷◌, ◌++◌, Text, codes,
  if◌then◌else◌, leb, length, is_empty,
}
use aiguard_siem.Events.{Event, text, empty_event, set_field, Timestamp, wrap64}
use aiguard_siem.Ring.Buffer.{RingBuffer, new_buffer, try_push, try_pop}
use aiguard_siem.Agent.Conversion.{EndpointEvent, convert_endpoint_event}

pub record AgentConfig : Type 0 where
  pub agent_id : Text
  pub event_batch_size : ℕ
  pub event_batch_timeout_ms : ℕ

pub record Stats : Type 0 where
  pub events_collected : ℕ
  pub events_sent : ℕ
  pub actions_executed : ℕ
  pub heartbeats_sent : ℕ

pub record AgentCore (D : Type 0) : Type 0 where
  pub config : AgentConfig
  pub event_queue : RingBuffer EndpointEvent
  pub batch : List (Event D)
  pub last_flush : Timestamp
  pub stats : Stats
  pub next_id : ℕ
  pub delivered : List (Event D)
  pub heartbeats : List (Event D)

module _ {D : Type 0} where
  -- An event that the queue refuses is dropped.
  unfoldable pub submit_event : EndpointEvent → AgentCore D → AgentCore D
  submit_event p c = record c {
    event_queue = (try_push p c.event_queue).0;
    stats = record c.stats { events_collected = wrap64 (c.stats.events_collected + 1) };
  }

  -- `produce_batch`, which answers `sent`, and what follows it.
  abbrev pub flush_batch : ℕ → Timestamp → AgentCore D → AgentCore D
  flush_batch sent now c = record c {
    batch = [];
    delivered = c.delivered ++ c.batch;
    last_flush = now;
    stats = record c.stats { events_sent = wrap64 (c.stats.events_sent + sent) };
  }

  abbrev pub add_to_batch : EndpointEvent → AgentCore D → AgentCore D
  add_to_batch p c = record c {
    batch = c.batch ++ (convert_endpoint_event c.next_id p ∷ []);
    next_id = wrap64 (c.next_id + 1);
  }

  -- One round of `event_processing_loop`, given what the queue answers.
  unfoldable pub work_popped : ℕ → Timestamp → Option EndpointEvent → AgentCore D → AgentCore D
  work_popped sent now (some p) c =
      let added = add_to_batch p c in
      if leb c.config.event_batch_size (length added.batch)
      then flush_batch sent now added
      else added
  work_popped sent now none c =
      if not (is_empty c.batch)
        && leb c.config.event_batch_timeout_ms ((now - c.last_flush) / 1_000_000)
      then flush_batch sent now c
      else c

  unfoldable pub work_turn : ℕ → Timestamp → AgentCore D → AgentCore D
  work_turn sent now c =
      let (queue, popped) = try_pop c.event_queue in
      work_popped sent now popped (record c { event_queue = queue })

  -- The end of the loop: the last batch goes out uncounted.
  unfoldable pub finish_work : AgentCore D → AgentCore D
  finish_work c = record c { batch = []; delivered = c.delivered ++ c.batch }

  unfoldable pub heartbeat_event : ℕ → Timestamp → AgentConfig → Event D
  heartbeat_event id now config =
      let blank = empty_event {D = D} in
      let e : Event D = record blank {
        id = id;
        timestamp = now;
        source_type = codes "agent";
        category = codes "heartbeat";
        type = codes "info";
        action = codes "heartbeat";
        host_name = config.agent_id;
      } in
      let e = set_field e (codes "agent.id") (text config.agent_id) in
      let e = set_field e (codes "agent.version") (text (codes "1.0.0")) in
      set_field e (codes "agent.status") (text (codes "active"))

  unfoldable pub heartbeat_turn : Timestamp → AgentCore D → AgentCore D
  heartbeat_turn now c = record c {
    heartbeats = c.heartbeats ++ (heartbeat_event c.next_id now c.config ∷ []);
    next_id = wrap64 (c.next_id + 1);
    stats = record c.stats { heartbeats_sent = wrap64 (c.stats.heartbeats_sent + 1) };
  }

  unfoldable pub execute_action : AgentCore D → AgentCore D × Bool
  execute_action c = (
    record c {
      stats = record c.stats { actions_executed = wrap64 (c.stats.actions_executed + 1) };
    },
    true,
  )

  unfoldable pub get_stats : AgentCore D → Stats
  get_stats c = c.stats

  -- The constructor, given an id; `blank` stands for what the queue's slots hold at first.
  abbrev pub new_agent : EndpointEvent → AgentConfig → Timestamp → AgentCore D
  new_agent blank config now = record {
    config = config;
    event_queue = new_buffer 65536 blank;
    batch = [];
    last_flush = now;
    stats = record {
      events_collected = 0;
      events_sent = 0;
      actions_executed = 0;
      heartbeats_sent = 0;
    };
    next_id = 1;
    delivered = [];
    heartbeats = [];
  }
