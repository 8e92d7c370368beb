-- ===== src/Lib.antt =====
-- A model of the core of the AI live streamer (app/) and what is proved of it.
--
-- The program runs a talking character on a live stream. A stream session moves through a state
-- machine and is stored in a repository; the lifecycle gate reads both and decides which operation
-- may run. Events come in through a filter, a buffer and a priority queue; planned activities wait
-- in a queue of their own. Games keep one current session, and the word chain has rules of its own.
-- Plugins register capabilities, which the manager makes available; an event broker tells the
-- administration what happens.
--
-- Which file models what:
--   Streaming/Session: app/domain/streaming/session.py, health.py (create, transition,
--     attach_opening, attach_main_segment). Session/Status has the enumerations and the table,
--     Session/Transitions the single calls, Session/History and Session/Approval histories of calls.
--   Streaming/Repository: app/adapters/streaming/in_memory_session_repository.py.
--   Streaming/Lifecycle, Streaming/Gate: app/domain/streaming/lifecycle.py,
--     app/usecases/stream_lifecycle_gate.py. Gate/Policy has the returns of `evaluate` (`judge` and
--     the tests that it goes through), Gate the notification memory and the snapshot.
--   Streaming/Opening: app/domain/streaming/opening.py,
--     app/adapters/streaming/in_memory_opening_repository.py.
--   Streaming/Services: what the use cases around a session run on,
--     app/ports/streaming_control.py and the session repository. Services/Rules,
--     Services/Contracts and Services/Returns carry the proofs.
--   Streaming/Start: app/usecases/start_stream_session_usecase.py,
--     app/domain/streaming/start.py. Start has every method, the validation and the polling in
--     Start/Checks; Start/Confirming, Start/Confirmed, Start/Effects, Start/Steps, Start/Polling and Start/Ending
--     are about what an execution does.
--   Streaming/End: app/usecases/end_stream_session_usecase.py, app/domain/streaming/end.py.
--     Closing has the closing activity, End/Checks the tests, End the closing talk, End/Stop
--     `_stop_external` and `_failure`, End/Commands `normal` and `emergency`; the other modules
--     are about what they do.
--   Streaming/Selections: app/adapters/streaming/in_memory_comment_ranking_repositories.py, the
--     repository of selected comments.
--   Runtime/PlannedQueue: app/runtime/planned_activity_queue.py, app/domain/activities/.
--   Runtime/Events: app/domain/events/, app/runtime/event_filter.py, event_prioritizer.py,
--     event_buffer.py and event_queue.py; Events/Buffer is about the buffer, Events/Calls,
--     Events/Queue and Events/Served about the queue.
--   Games/Shiritori: app/domain/games/shiritori.py (Words has the functions on words, Rules the
--     invariant of the game). Games/Session, Games/Engine:
--     app/domain/games/game_models.py, app/runtime/game_engine.py.
--   Plugins/Capabilities, Plugins/Manager: app/core/plugins/capability_registry.py, plugin.py,
--     plugin_manager.py.
--   Plugins/Registry: app/core/application/plugins/registry.py (register, unregister), with the
--     records of app/core/contracts/plugins/models.py. Registry/Providers has the choice of a
--     provider, Registry/Starting has start_all and stop_all.
--   Events/Broker: app/core/application/events.py.
--   Common: shared names, Boolean tests, dictionaries in insertion order, results, integers, sorting.
--   The modules named Examples evaluate the models on concrete inputs.
--
-- How the code is read. A method is a function from the state before to the state after; a method
-- that raises is a `Result` and leaves the state alone. The clock and fresh identifiers are
-- arguments, times are numbers of microseconds. Methods under a lock are single steps; a history
-- is a list of calls, in any order. A dictionary is a list of pairs in insertion order. NFKC and
-- the white space test of Python, and the behaviour of the plugins, are parameters. A use case
-- that awaits is a function on a state with the repository, the clock and what was asked of the
-- services; the services' answers, the time that each call takes and what others do to the
-- repository and the gate meanwhile are the argument `Outside`. The loops run over a list, but
-- for two: `_poll` has as fuel one more than the ticks of its time out, which is enough as every
-- round takes at least the interval, and the visit of the plugins one more than the plugins that
-- are enabled, as each level of it visits another one. A cancelled task is not modelled.
--
-- Not modelled: the adapters of outside services, the language model and the prompts, the
-- planning and execution of activities, the preparation of a session, the comments but for their
-- selections, configuration, administration and tracing. Payloads, metadata and logging that no
-- modelled decision reads are left out.
pub mod Common
pub mod Streaming
pub mod Runtime
pub mod Games
pub mod Plugins
pub mod Events
