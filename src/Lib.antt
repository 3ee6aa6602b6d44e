-- ===== src/Lib.antt =====
-- lingyunzhi-os-backend: an ontology registry with a validator, versioned environments, masked
-- queries on mapped data sources, an agent that edits the registry, and a chat over it.
--
-- How the parts interact. `onto_platform/registry/validator.py` runs six checkers on a registry.
-- The operations of `registry/crud.py` and `registry/imports.py` build a changed registry and
-- return it when the validator finds no error, or, for deletions, when `registry/refs_scan.py`
-- finds no referrer. `registry/store.py` keeps three registries (staging, production, previous
-- production) under optimistic locking, and `registry/lifecycle.py` moves registries between them.
-- `connections/sql_gate.py` says which SQL may run, and `connections/masking.py` reads the property
-- types of a registry to decide how `connections/data_query.py` masks the columns of a query.
-- `ingestion/agent.py` lets a language model call the operations of `registry/crud.py` on a working
-- copy, through `ingestion/tools.py`. `chat/orchestrator.py` keeps the registry that staging had
-- when a chat session began and puts it back when the session is cancelled; `chat/sse.py` delivers
-- the events of a chat turn to the clients that follow it. `auth.py` and `token_store.py` decide
-- which bearer token may call what. `ingestion/workers.py` takes a job from its uploads through the
-- agent to a saved staging registry, and `mcp_server.py` offers the operations as tools to callers
-- with a token, with an audit row for each call. A turn of a chat is a job in merge mode, whose
-- start and end go to the bus. `ui_auth.py` opens sessions for tokens and accepts their cookies.
--
-- Which file models which part (paths below onto_platform/ on the right):
--   ProtoModels (Enums, Json, Rules, Properties, Entities)   proto_models.py
--   Registry/Findings, Registry/Validator                    registry/validator.py
--   Registry/Checks/Structural, Refs, Cycles,
--     InterfaceCategory, PropertyBacking, AssetMapping,
--     CrossProperty                                          registry/checks/*.py
--   Registry/RefsScan                                        registry/refs_scan.py
--   Registry/Crud                                            registry/crud.py
--   Registry/Imports                                         registry/imports.py
--   Registry/Store                                           registry/store.py
--   Registry/Lifecycle                                       registry/lifecycle.py
--   Registry/Diff                                            registry/diff.py
--   Connections/Masking, Masking/Index, Masking/Resolver     connections/masking.py
--   Connections/SqlGate                                      connections/sql_gate.py
--   Connections/DataQuery                                    connections/data_query.py
--   Connections/QueryBuilder                                 connections/query_builder.py,
--                                                            dialect_engine.py
--   Chat/EventBus                                            chat/sse.py
--   Chat/Sessions, Chat/Turns                                chat/orchestrator.py
--   Ingestion/Tools                                          ingestion/tools.py, working_ops.py,
--                                                            working_registry.py
--   Ingestion/Agent                                          ingestion/agent.py
--   Ingestion/Jobs                                           ingestion/store.py,
--                                                            mcp_tools_ingestion.py
--   Ingestion/World, Worker                                  ingestion/workers.py
--   Access                                                   auth.py, token_store.py
--   Connections/Store                                        connections/store.py, probe.py
--   UiAuth                                                   ui_auth.py
--   McpServer                                                mcp_server.py
--   McpServer/Reading, Editor, Admin, Catalog                mcp_tools_read.py, mcp_tools_editor.py,
--                                                            mcp_tools_admin.py
-- Base and Dict hold what these share: results of code that may raise, tests, slices, and Python's
-- dict with text keys as the list of its entries in insertion order. A definition has the name of
-- the function, class or method it models; the modules below it hold its lemmas and theorems, and
-- the modules called Tests run the code on small inputs.
--
-- State and operations. A pydantic model is a record, and an operation on a registry is a function
-- from registries to a registry or the exception it raises. The table of the store is a record of
-- three rows, and a load or a save is a function from tables to a table or an exception. The event
-- bus is the dict of its turns; each method of it is one step, since it waits for nothing but
-- unbounded queues. The agent's loop is a function of what the language model replies and of what
-- the cancellation token says. A job is a row of a table; the worker's run is a function of the
-- tables, and what other transactions commit before each of its own is a parameter. A request to
-- the tool server runs in one transaction: it is a function from the tables to the tables and a
-- response, where a tool also says what it leaves when it raises. Where the code waits between the
-- load of a registry and its save (a promotion, a revert, an undo, a cancelled chat session), or
-- between the test and the setting of the dict of turns in flight, what others do in between is a
-- parameter.
--
-- Bounds. The search for cycles among interfaces runs on fuel, one more than there are interfaces:
-- it goes down only into interfaces that it has not entered before, and no greater fuel finds
-- anything else. The loop of the agent recurses on the steps that are left. The version numbers are
-- natural numbers, as Python's are.
--
-- Parameters. sqlglot, which parses SQL, is a record of the questions that the code asks it, one
-- record for the gate and one for masking. What str makes of a value, what the databases behind the
-- connections answer, what Pydantic makes of a tool's arguments, what the language model replies,
-- and the password hasher are parameters as well.
--
-- Not modelled: HTTP routers and the command line, which decode and encode; start-up, logging and
-- health checks; extractors, connection drivers and other input and output; the sweeps of idle
-- sessions and uploads; the texts of messages, the schemas of tools and the summaries of arguments
-- in the audit log; the cancelling of a task where the code has no handler for it; the migrations,
-- the scripts and the user interface.
pub mod Base
pub mod Dict
pub mod ProtoModels
pub mod Registry
pub mod Connections
pub mod Chat
pub mod Ingestion
pub mod Access
pub mod McpServer
pub mod UiAuth
