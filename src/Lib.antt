-- ===== src/Lib.antt =====
-- A model of the JS Code Runner, the program that runs the server code of Backendless applications.
--
-- In the cloud one master process takes tasks from queues in Redis and hands them to worker processes;
-- a worker runs the code of one application and answers with a text, which the master publishes.
--
--   Task        a task as it travels (lib/server-code/runners/tasks/executor.js, CodeRunnerTask)
--   Messages    the queues (lib/server-code/services/messages-broker.js)
--   Compression compress and decompress (lib/util/compression.js)
--   Broker      the pools of workers (lib/server-code/runners/cloud-workers-broker.js)
--   Master      when tasks are asked for and what becomes of them (.../runners/cloud-master.js)
--   CloudWorker what a worker sends for a task (.../runners/cloud-worker.js)
--   Executor    running a task (.../runners/tasks/executor.js, result.js, util/result-wrapper.js), and
--               the arguments of handlers (.../runners/tasks/invoke-handler.js)
--   ServerCode  the event table (lib/server-code/events.js), the registration functions
--               (lib/server-code/api/index.js), the model of an application
--               (lib/server-code/model/index.js), the classes of its comments
--               (lib/util/jsdoc.js: Classes and Jsdoc), the wrapper and the configuration of a service
--               (.../model/service.js: Service) and the description of services
--               (.../model/service-descriptor.js: Descriptor)
--   Persistence the saving of items with their relations (lib/server-code/api/persistence-item.js)
--   Json        the dates of a value in its JSON text (lib/util/json.js)
--   Options     addresses, rate limits, headers and timeouts (lib/cli/options.js)
--   Patterns    the files that wildcard patterns select (lib/util/file.js)
--   Common      lists, dictionaries and signed numbers; Tests holds runs on concrete data
--
-- A method of a class is a function on the record of its fields, and keeps its name in another
-- spelling: `relocateWorker` is `relocate_worker` of Broker/Pools. A method that awaits is cut at its
-- `await`: `get_worker_for_task` ends with `waiting` where the source waits for a worker to start, and
-- `on_worker_started` is what goes on then; `Broker/Invariant/Steps` puts the calls in any order.
-- Worker objects are shared and changed in place, so they live in a store under the number of their
-- fork. What leaves the program (fork, send, kill, emit, Redis) is kept in a list, the latest first.
-- The clock is an argument. Identifiers of functions and classes of an application are numbers.
-- The comments of a file give classes (Jsdoc), the model keeps them by name (Model), and the services
-- are described with the data types that they lead to (Descriptor).
--
-- Arguments of the model are zlib, JSON texts, the documents of the JSDoc parser, what the server answers
-- to a save, UnitOfWork of the SDK, paths, the number of processors, process ids, the code
-- of the applications with what it returns, and the set-up of the SDK and of the sandbox. What is
-- assumed of zlib is `Undoes` of Compression/RoundTrip.
--
-- Fuel: `decimal` of ServerCode/Model/Keys runs on as much fuel as the number has units, and a number
-- has no more digits than that. `kill_cached` runs as many rounds as the array has elements at the
-- start, as forEach does. `register_type` of ServerCode/Descriptor/Build runs on as much fuel as there
-- are definitions, and `type_def` of ServerCode/Jsdoc/Types on one unit for each character; the theorems
-- on them say that this is enough. All other loops are structural.
--
-- Not modelled: log texts and statistics, the start-up of processes and connections, the reading of
-- options from their sources, the publisher, the text of the XML, the call of services, the methods of
-- persistence items that only pass a call on, and the references and class mappings of JSON.
pub mod Common
pub mod Task
pub mod Compression
pub mod Messages
pub mod Broker
pub mod Json
pub mod Options
pub mod Persistence
pub mod Master
pub mod Executor
pub mod CloudWorker
pub mod Patterns
pub mod ServerCode
pub mod Tests
