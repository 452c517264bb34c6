-- ===== src/Lib.antt =====
-- HWPanel: a Windows service that samples the hardware once per second, streams the samples to
-- its clients over gRPC, and applies profiles of settings, with a Qt client that shows all this.
--
-- The service: a collector pipeline (plugins/collectors/pipeline.cpp) polls its collectors in ticks
-- and publishes each sample to the telemetry hub (libs/core/src/telemetry_hub.cpp), which keeps a
-- history in a ring buffer and gives every streaming call a bounded queue. The event bus
-- (libs/core/src/event_bus.cpp) does the same for notifications. The profile manager
-- (libs/config/src/profile_manager.cpp) reads profiles from the store
-- (libs/core/src/profile_store.cpp) and applies them through executors, undoing what it did when one
-- fails. The host (apps/hwpanel-service/service_host.cpp) puts these together, the gRPC services
-- (apps/hwpanel-service/grpc) answer from them, and the controller
-- (apps/hwpanel-service/service_controller.cpp) speaks with the Service Control Manager. The client
-- watches its connection (libs/core/src/channel_manager.cpp) and fills view models
-- (apps/hwpanel-client/backend).
--
-- The files, and the code that they model:
--   Base, Base/*         helpers: numbers, lists, Booleans, texts, association lists
--   Types                libs/core/include/hwpanel/core/telemetry_types.h, EventMessage, Profile
--   Ring                 libs/core/include/hwpanel/core/ring_buffer.h: Push, LastN, Clear, ...
--   Fanout               the subscriber queues of the hub and the bus: Publish, Subscribe, Pop, Close,
--                        and in Fanout/Phases the two loops of Publish apart
--   Hub                  libs/core/src/telemetry_hub.cpp: Publish, Subscribe, History
--   Bus                  libs/core/src/event_bus.cpp: Publish, Subscribe, PublishNow
--   Channel              libs/core/src/channel_manager.cpp: SetState, MonitorLoop
--   Store                libs/core/src/profile_store.cpp: List, Get, Save, Remove, ActiveId, ...
--   Executors            plugins/executors/executor.h: the contract of an executor
--   Executors/Brightness plugins/executors/brightness_executor.cpp
--   Executors/Power      plugins/executors/power_plan_executor.cpp
--   Manager              libs/config/src/profile_manager.cpp: SwitchTo with its rollback, and in
--                        Manager/Watch the watch on the directory
--   Controller           apps/hwpanel-service/service_controller.cpp: the handler, FinalizeStart
--   Endpoint             libs/core/src/endpoint.cpp, and in Endpoint/CommandLine the arguments of
--                        apps/hwpanel-service/main.cpp
--   Pipeline             plugins/collectors/pipeline.cpp: the tick and its wait
--   Collectors           plugins/collectors: in Collectors/Wmi, Nvml and Pdh the three collectors, in
--                        Pdh/CounterPath, Names and Setup the registration of the counters of PDH
--   Host                 apps/hwpanel-service/service_host.cpp: Start, Stop, pause and resume, and in
--                        Host/Scm and Host/Console RunService, RunConsole and main of
--                        apps/hwpanel-service/main.cpp
--   Service              apps/hwpanel-service/grpc: Subscribe, GetHistory, SwitchProfile, ...
--   Client               apps/hwpanel-client/backend: the view models, in Client/Models as Qt's views
--                        use them, in Client/Worker the threads of client_worker.cpp, in
--                        Client/Chart the line chart, in Client/App the
--                        commands and the connections of apps/hwpanel-client/main.cpp
--   System               the way of a sample from the collectors through these parts to the charts
--   Logging              libs/core/src/log.cpp and paths.cpp, apps/hwpanel-service/sinks
--   Smoke                tools/hwpanel-smoke/main.cpp
-- Each of these has its theorems in files below it, and its runs at concrete inputs in Tests.
--
-- How the code is modelled. A method that runs under a mutex is one step, and threads are sequences
-- of such steps in any order; Publish is one step, except in Fanout/Phases, where the locking of
-- the subscribers and each delivery are steps of their own, of any number of threads. Pointers to
-- subscribers are indices into a list of objects with a mark for whether their owner holds them.
-- What comes from outside (answers of gRPC, readings of a clock, controls, timeouts, failing
-- writes, files that do not open) is an argument, a list with one entry for each time it is asked;
-- loops recurse on those lists, without fuel. Numbers are natural numbers; size_t and uint64_t in
-- the ring buffer wrap modulo 2 ^ 64, and int is ℤ with the conversion of size_t written out; times
-- and counters elsewhere are unbounded. A double is an abstract value. An exception is the value
-- `none` or `threw`. JSON and the file system are records of parameters (Store/Env) with the
-- documented laws of the JSON library; Store/Sample has an instance. The executors are arbitrary
-- functions on the state of the machine.
--
-- What PDH, WMI, NVML and the registry answer are arguments too. The search of the table of counter
-- names and the walk over expanded paths have as much fuel as the text has units, which is enough
-- since each round takes at least one; wide strings are lists of their code units.
--
-- Not modelled: the log lines of the other components, Qt's event loop and drawing, the start of the
-- user interface, and tests, scripts, protocol files and installer.
pub mod Base
pub mod Types
pub mod Ring
pub mod Fanout
pub mod Hub
pub mod Bus
pub mod Channel
pub mod Store
pub mod Executors
pub mod Manager
pub mod Controller
pub mod Endpoint
pub mod Pipeline
pub mod Host
pub mod Logging
pub mod Smoke
pub mod System
pub mod Service
pub mod Client
pub mod Collectors
