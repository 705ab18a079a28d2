-- ===== src/Lib.antt =====
-- Verification of the detection and ingestion core of AIGuard SIEM.
--
-- The program takes logs and flow records from the network, turns them into events, matches the
-- events against rules and windows, and stores them. Collectors (collectors/) parse what arrives and
-- build an `Event`; the engine (engine/) feeds each event to the correlation engine and to the
-- window manager, which answer alerts and window results; the hot storage (storage/hot) buffers
-- keys and values in memory. The modules follow that order.
--
-- Common and its children: tests on machine numbers, lists, map keys, association lists for
--   `std::unordered_map`, byte texts for `std::string`, and signed integers.
-- Events: collectors/common/include/aiguard/common/event.h, the struct `Event` with `set_field` and
--   `get_field`, field values and severities. The reference count and the embedding are left out.
-- Syslog: collectors/syslog/src/syslog_parser.cpp. `Lexer` has the token readers (`parse_priority`,
--   `skip_whitespace`, `parse_token`, `parse_timestamp`), `Parser` the methods `parse`,
--   `parse_rfc5424` and `parse_rfc3164`, which take the text and answer the message or nothing, and
--   `Structured` is `parse_structured_data`.
-- Ecs: collectors/common/src/ecs_schema.cpp. `Normalizer` is `ECSNormalizer` with its default
--   mappings.
-- Wire: reads of bytes in packets and files, which fault out of bounds, and what a call gives.
-- Netflow: collectors/netflow/src/netflow_parser.cpp. `V5` is `parse_v5`, and `Templates` is
--   `parse_v9`, `parse_ipfix` and `parse`, with the template cache as a state that goes from call to
--   call.
-- Flows: collectors/pcap/src/flow_tracker.cpp. `Packet` reads the headers of a packet, `Stats` has the
--   statistics of a flow, `Features` the list made of them, and `Tracker` is `FlowTracker`.
-- Correlation: engine/correlation/src/correlation_engine.cpp. `Conditions` decides whether a rule
--   matches, `Engine` is the state of `CorrelationEngine` (rules, the state of each rule and key, and
--   the counters) with one function for each method.
-- Windows: engine/correlation/src/event_windows.cpp. `Aggregation` is the group key and the number a
--   window computes, `Manager` is `EventWindowManager` with one function for each method.
-- Rules: engine/rules/src/rule_engine.cpp. `Engine` is `RuleEngine` with its rules, profiles and
--   counters.
-- Sigma: engine/rules/src/sigma_compiler.cpp. `Lines` takes lines and values apart, `Compiler` is
--   `SigmaCompiler`; `Matching` joins it to the correlation engine.
-- Memtable: storage/hot/src/memtable.cpp. `Table` is `MemTable`, its ordered map a sorted list.
-- Sstable: storage/hot/src/sstable.cpp. `Bloom` is the filter; `Table` has `create` and `get`, `Scan`
--   `range`, `Reopen` `open`; `Flush` joins it to the memtable.
-- Codecs: crypto/src/crypto_utils.cpp. `Base64` has base64 and its variant for URLs, `Hex` hexadecimal;
--   `CryptoUtils` calls no cryptography.
-- Ring: collectors/common/include/aiguard/common/circular_buffer.h. `Buffer` has the methods of
--   `ConcurrentRingBuffer`; `Lockfree` has the loads and stores of `LockFreeCircularBuffer` as the
--   turns of one producer and one consumer.
-- Stream: engine/correlation/src/stream_processor.cpp. `Processor` has the turns of the threads of
--   `StreamProcessor` on the ring, the correlation engine and the windows; `Detector` says without
--   threads and queue what they detect, and `Runs` in which orders the turns come.
-- Agent: xdr/agent/common/src/agent_core.cpp. `Conversion` makes events of endpoint events, and
--   `Core` is `AgentCore`, its queue the ring.
-- Platforms: a concrete platform that the tests run on. Each part has a module Tests.
--
-- Time points are nanoseconds since the epoch, counters of 64 bits wrap, and the clock is an
-- argument. `double`, `std::stod` and `std::regex` are a parameter, the record `Platform`: no law is
-- assumed of them but where a theorem names it. A lock makes a method one step; the methods of a
-- component run one after another. The lock-free ring alone is taken apart into its accesses, under
-- sequential consistency, which its acquire and release orders give two threads. The threads of the
-- stream processor take turns in any order, as a step relation, and rules and windows are added in
-- between. Window lengths of rules are not negative.
--
-- Loops recurse on their data, but for those of the v9 and IPFIX parsers, whose progress depends on
-- lengths that the packet states: they take fuel, and run out of it or not. The theorems on data
-- sets name the fuel that is enough, the number of the set's bytes; those on zero lengths hold for
-- every fuel.
--
-- Left out: sockets, threads, Kafka and file access of the collectors and servers, logging, metrics
-- and configuration; JSON of events; the names of protocols and TCP flags; packet capture and the
-- Windows event log; LSM index and query engine; the TLS accelerator; the monitors and the transport
-- of the endpoint agent; and all that is not C++. The order of a hash table, the files of a
-- directory, the bytes of a file and the magic number of a table are arguments.
pub mod Common
pub mod Events
pub mod Correlation
pub mod Wire
pub mod Netflow
pub mod Flows
pub mod Syslog
pub mod Ecs
pub mod Windows
pub mod Rules
pub mod Sigma
pub mod Memtable
pub mod Sstable
pub mod Codecs
pub mod Ring
pub mod Stream
pub mod Agent
mod Platforms
