-- ===== src/Lib.antt =====
-- Crabclaw, an assistant that lives on chat channels: a verification library for the parts of it
-- that keep state and decide what is delivered, remembered and run.
--
-- The parts, and the files here that model them. Channels (crabclaw/channels/base.py and
-- manager.py: Channels.antt, Channels/Allowed for the senders that are admitted, with the test of
-- crabclaw/channels/telegram.py, which overrides that of the other channels, Channels/Instances
-- for the starting and stopping of instances) put the messages of allowed senders on the bus
-- (crabclaw/bus/queue.py, events.py: Bus.antt), from which the agent takes them, and get the
-- messages that leave it; its answers go back over the bus, to targets that the routing of
-- crabclaw/agent/loop.py chooses (Routing.antt, with Routing/Listeners for what happens to one
-- message and one action), and are broadcast by scope (crabclaw/bus/broadcaster.py:
-- Bus/Broadcast.antt). A conversation is a session (crabclaw/session/manager.py: Session.antt, and
-- Session/Lines and Session/Manager for the files and the cache of sessions), whose old messages
-- are consolidated into the memory files of a user (crabclaw/agent/memory.py: Memory.antt, with
-- Memory/Lines for the lines sent to the model, Memory/Files for the files and the failure path,
-- Memory/Apply for the reply). Long answers are split and file names are sanitised by
-- crabclaw/utils/helpers.py (Helpers.antt). Tools are checked against their JSON Schema and run by
-- name (crabclaw/agent/tools/base.py and registry.py: Tools.antt and Tools/Registry). The file
-- tools of crabclaw/agent/tools/filesystem.py are FileTools.antt. Jobs run on schedules
-- (crabclaw/cron/types.py and service.py: Cron.antt for schedules, Cron/Run for what a run does to
-- the jobs, Cron/Service for the calls). The users, their accounts and sessions, the identities
-- under which the channels know them and their channel configurations are kept by
-- crabclaw/user/manager.py, models.py and auth.py (Users.antt: Users/State and Users/Profile for
-- the profiles, Users/Mapping and Users/Identities for the identities, Users/Config and
-- Users/Configs for the configurations, Users/Accounts for the rest). Scopes.antt puts channels
-- and users together: the sender of a message is looked up in the user manager. Results are kept
-- by crabclaw/utils/cache.py (Cache.antt, Cache/Levels); the provider of a model is chosen by
-- crabclaw/config/schema.py, crabclaw/providers/registry.py and litellm_provider.py
-- (Providers.antt, Providers/Registry); requests are tried again by the RetryPolicy of
-- crabclaw/utils/http_pool.py (Retry.antt). Prelude holds what the parts share, Json the values
-- that pass between them, Tests the theorems at concrete inputs. The other files of a part hold
-- its theorems.
--
-- How the code corresponds. A class is a record, an operation a function of the same name that
-- returns the new state; a call that raises returns a Result, a queue is the list of its items, a
-- dict an association list in insertion order. A reading of the clock is an argument, in the order
-- in which the code reads it. An await is where other tasks run: messages that arrive during the
-- wait for the model are an argument of consolidate; the bus, the broadcasts, the cache and the
-- cron service are driven by sequences of calls. While a cron job runs, no other call of the
-- service is made, and job identifiers are unique, as uuid prefixes are meant to be. Times and
-- numbers are natural numbers; the code's are unbounded too, so no overflow is modelled. Recursion
-- is on lists, on JSON values and on the number of retries that are left; the only fuel is that of
-- the digits of a number in Users/Config, which is more than the number, and with more of which
-- the digits are the same.
--
-- Parameters: str.lower in Providers and FileTools; str.lower in Users, of which only that a
-- second call changes nothing and that white space stays white space is used, bcrypt's check of a
-- password, and the uuids and times that a call takes; the lookup of an identity in the user
-- manager, and str on values that are no texts, in Channels; the reading and writing of times in
-- ISO format in Session/Lines, of which only that a written time is read back and that the empty
-- text is no time is used; json.loads, json.dumps and == on objects in Memory; SHA-1, the lookup
-- of an identity and the identifiers of events in Routing; croniter and the zone table in Cron, of
-- which only that the next run is later than the time asked for is used; the key of the arguments
-- and the wrapped function in Cache; the resolution of a path against the workspace and the search
-- for dangerous text in FileTools; which objects stop when told to in Channels/Instances; the
-- outcomes of the attempts and the jitter in Retry, of which only that it is at most a tenth of
-- the delay is used; the bodies of tools and the wording of messages in Tools.
--
-- Not modelled: the clients of chat services and of model providers, the dashboard, the command
-- line and configuration, which are input and output; the floating-point heuristics of
-- crabclaw/sapiens and of prompt evolution; the scheduler, the containers and registries of
-- crabclaw/utils that no other part calls, the listing of directories and the shell among the
-- tools, the call that starts or stops all channels, and failures of the file system. Identifiers
-- of users and scopes whose file name is empty, a dot or two dots, which lead to directories that
-- are not the user's own, are left out in Users/Accounts and Memory/Files, and so are schemas
-- whose type is a list of types.
pub mod Prelude
pub mod Json
pub mod Bus
pub mod Routing
pub mod Channels
pub mod Cron
pub mod Cache
pub mod Retry
pub mod Tools
pub mod FileTools
pub mod Providers
pub mod Users
pub mod Scopes
pub mod Session
pub mod Memory
pub mod Helpers
pub mod Tests
