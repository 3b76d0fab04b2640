-- ===== src/Lib.antt =====
-- Sagittarius Engine: an application engine in Python, with a kernel that boots extensions, event buses, background
-- work, state machines and a layered configuration. This library models its core logic and proves what makes it correct.
-- The paths below start at the repository's root.
--
-- The parts, and the files that model them:
-- - Prelude: equality tests, lists, dicts as association lists in insertion order, and strings.
-- - Kernel/Lifecycle: sagittarius_engine/kernel/lifecycle.py. `transition` is `_transition` with the table `allowed`;
--   `perform` runs one public method, `history` a list of them. A callback is its
--   identity, and a parameter says how it leaves the lifecycle and whether it raises.
-- - Kernel/Descriptors, Kernel/ExtensionSort: `_build_and_sort` of sagittarius_engine/kernel/extension_manager.py, over
--   the descriptors of sagittarius_engine/interfaces/i_extension.py. The fuel is one more than the number of names, as each
--   nested call of `dfs` adds a name to the path.
-- - Kernel/ExtensionManager: the rest of that file. `try_initialize_available` is `_try_initialize_available`, with fuel for
--   its rounds: each but the last initializes an extension. The manager sorts with Kernel/ExtensionSort.
-- - Kernel/Dispatcher: sagittarius_engine/kernel/middleware_pipeline.py and dispatcher.py, with the marks of the recorder
--   of sagittarius_engine/interfaces/i_trace_recorder.py. A middleware's body is an arbitrary `Script`.
-- - Kernel/Boot: `Bootstrap.boot` of sagittarius_engine/kernel/bootstrap.py and `App.stop` of sagittarius_engine/kernel/app.py, over
--   Kernel/Lifecycle. The parts that they start and stop are steps that return, raise or hang; the callbacks of
--   `when_ready` return or raise there.
-- - EventBus/Memory: sagittarius_engine/infrastructure/event_bus/memory_event_bus.py. EventBus/Resilient:
--   resilient_event_bus.py beside it, over the memory bus; `attempts` is the retry loop. Its handlers return or
--   raise, and `emit` there is that of an event named by a string.
-- - Runtime: sagittarius_engine/runtime. ExclusiveAction and ResourceScope are tasks/exclusive_action.py and
--   tasks/resource_scope.py, HostedServices is hosted/hosted_service_manager.py,
--   TaskManager is tasks/task_manager.py with tasks/background_task.py, Scheduler is scheduler/scheduler.py with
--   `tick` for an iteration of `_run`; Scheduler/Worker is its `start` and `stop`. `dispose_all` has fuel, one for each resource and one more.
-- - Fsm: sagittarius_engine/extensions/fsm. Base is state_machine.py, where the fuel of `transition_to` is the depth to
--   which calls nest; Declarative is declarative_state_machine.py, where the fuel of `dispatch` counts handled events.
-- - Config: sagittarius_engine/infrastructure/config/config_manager.py with json_source.py. `lookup` is `get`.
--   The JSON encoding of a value and what becomes of a file that is written are parameters.
-- - Audit: sagittarius_engine/extensions/audit. A module for each record of contracts.py with its `to_dict` and `from_dict`,
--   over the values of Json; Masking is `mask_config`; Recorder is recorder.py; TraceServer is one connection of
--   infra/trace_server.py, and Client the commands of cli.py that read it.
-- - Container: sagittarius_engine/infrastructure/container. The fuel of `resolve` is the depth to which calls of `_resolve`
--   nest; with factories that are classes, one more than their number times two more than the number of classes is enough.
-- - Workbench: sagittarius_engine/extensions/pyside_mvc/workbench, of which ActionText is action_text.py, ActionDescriptor
--   action_descriptor.py with shortcut_policy.py, and ActionRegistry action_registry.py. Qt and Unicode are parameters.
-- - UiState: sagittarius_engine/extensions/ui_state. Memory and Document are the stores of adapters/, Coordinator is
--   ui_state_coordinator.py over a store that keeps what the port promises.
-- - Examples: the theorems at concrete inputs.
--
-- Each lock's critical section is one step, but for the end of a task in Runtime/TaskManager, whose append to the finished
-- tasks, clean-up and done callback are one step here. Code of the application (handlers, callbacks, hooks, disposals, triggers) is a
-- parameter that says what it returns, raises, or calls back. Log lines and the text of messages are left out.
-- Not modelled: the async runtime, the other buses,
-- persistence, the exporters of traces, diagnostics, the console and the rest of the Qt user interface; input and output; the demonstrations and tools.
pub mod Prelude
pub mod Kernel
pub mod EventBus
pub mod Runtime
pub mod Fsm
pub mod Config
pub mod Audit
pub mod Container
pub mod Workbench
pub mod UiState
pub mod Examples
