-- ===== src/Lib.antt =====
-- Thorium is a framework for hardware tests on a bench of instruments. A test script measures, routes
-- and verifies through verbs; this library models the parts under them that keep state and decide.
--
-- A verb that connects two points asks the switch fabric to close a relay path, and the fabric counts
-- how many live routes hold each relay. A verb that reads goes through a session: a live instrument, a
-- script of answers, or a recording that is replayed. What a verb did is posted in the journal, which
-- numbers it, tells every sink, and gives each test its verdict. Which box stands at which address is
-- settled before the run, from tables and from the environment. Which tolerances apply is chosen before
-- the run, and locked when the journal begins it. An operator may stop a run from a signal handler or
-- another thread.
--
-- Prelude: the shared names, Boolean tests, lists and texts over the native numbers; Prelude/Dict is a
--   map as an association list with its laws.
-- Fabric (framework/hal/include/hal/fabric/switch_fabric.hpp, framework/hal/src/fabric/switch_fabric.cpp):
--   `SwitchFabric` over any `SwitchDriver`, whose calls may throw; an outcome is a value. Routes has the
--   effect of one `connect` or `disconnect`, History that of any sequence of them, Bench the agreement of
--   the counts with the relays. Rig (framework/hal/src/fabric/rig_switching.cpp) is the driver of
--   a rig. Cards (switch_device.hpp) has the card table and the checked spellings of a channel.
-- Session (framework/core/include/core/session/session.hpp, framework/core/src/session/session.cpp):
--   `ScriptedSession` with its slots. A source is what it answers to its n-th call. Loading is
--   `loadFromFile` from the samples of the file, Bank is `SessionBank` with the sessions that it owns.
--   Requests, Replay, Kinds and Bank/Roundtrip hold the proofs, on Slots and Loading/Rows.
-- Journal (framework/core/include/core/journal/journal.hpp, framework/core/src/journal/journal.cpp): every
--   operation of `Journal`, with all that the sinks were told kept in the state.
-- Topology (framework/hal/include/hal/topology/boxes.hpp, address_tables.hpp and
--   framework/hal/src/topology/address_tables.cpp, address_plan.cpp): the box check, the tables, and the
--   parser of addresses, overrides and face simulations, with the environment as an argument.
-- Preflight (framework/hal/src/verbs/preflight.cpp): `bindAddresses` and `contactInstruments`, over the
--   tables of a rig and what its instruments answer. Contact has the pool, the claims and the cards;
--   Bindings, Fresh, Reached, Claims and Steps carry the proofs of Accepted and Units.
-- Json (framework/core/src/journal/json.cpp, framework/webui/src/protocol/json.cpp): how the sinks write
--   a string and how the web interface parses a line. The parser runs on fuel, one more than twice
--   the number of bytes of the line: each value takes a byte at least, and each turn of a loop two steps.
-- Events (framework/core/src/journal/event_sink.cpp, framework/webui/src/protocol/events.cpp): the lines that
--   the event sink puts out, and the stream that cuts what a pipe delivers into lines and decodes them.
--   Sink has `Line` and the calls. Written and Nested have a line as a list of fields; Reads, Arrays and
--   Parsed read it back, on Unbroken, and Fields finds its keys; Calls, Spelled and Heard go through the
--   calls, and Watched joins the two ends. Refused and NotFinite are about a value that is no JSON.
--   `std::to_string` is an argument, as is `strtod`.
-- Stimulus (framework/core/src/session/stimulus.cpp): how a file of hand-written readings is cut into lines
--   and values, and what it programs in a session bank. Values has the parsers, Programs `program`
--   and `injectStimulus`; Payloads, Lines, Keys, Written, Mixed and Sequences hold the proofs.
--   `std::from_chars` and the text of a sample file are arguments.
-- Delay (framework/core/src/verbs/delay.cpp): the verb that waits in slices, on fuel: the length of the
--   wait in slices, and two turns more.
-- Scpi (framework/hal/src/io/scpi.cpp): `ScpiSession` over a transport that may throw, and the error queue
--   of an instrument that answers `SYST:ERR?`; Questions is about one that need not.
-- Control (framework/core/include/core/control/stop_request.hpp): the stop flags as atomic accesses, which
--   any number of threads may interleave.
-- Runner (framework/runner/src/main.cpp, framework/core/include/core/catalog/test_catalog.hpp): how a run
--   goes through its passes, groups, tests and hooks. A script or a hook is a function on the state of
--   the run that says how it ended; a block that returns or throws is a value. Tests, Groups and Passes
--   follow the loops, on Facts and Brackets; Journal/Marks has what the journal tells a sink besides
--   records.
-- Recording (framework/core/src/session/recording.cpp): the value columns of payloads and traces.
-- Payload (framework/core/src/quantities/bytes.cpp): what `Bytes` reads, prints, cuts
--   and combines; Described is how a log shows it, and Bits has the bits of its octets.
-- Criteria (framework/core/src/criteria/criteria_variants.cpp): the choice of a variant and its lock.
--
-- Numbers are native natural numbers. A counter or a packed channel of the code keeps its width as
-- `% 2 ^ w`. A text is its bytes. A `double` is its bit pattern: nothing is computed with it. But for
-- the parser of Json and the loop of Delay, every function recurses on a list, a text or a count,
-- without fuel. The fabric's use counts are not bounded: fewer than 2^31 uses of one element are
-- assumed, and fewer than 2^31 brackets in a stimulus line. An exception of the runner is one that
-- derives from `std::exception`.
--
-- Not modelled: the texts of exceptions, input and output, processes and sockets, the rendering of
-- quantities, the console, rich text and SARIF renderings of the journal, the other columns of a
-- recording and its sidecar files, the instrument drivers, and the compile-time checks of the rig
-- definition.
pub mod Prelude
pub mod Fabric
pub mod Topology
pub mod Journal
pub mod Session
pub mod Recording
pub mod Payload
pub mod Control
pub mod Criteria
pub mod Runner
pub mod Preflight
pub mod Json
pub mod Events
pub mod Stimulus
pub mod Delay
pub mod Scpi
