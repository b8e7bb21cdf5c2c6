-- ===== src/Lib.antt =====
-- The EC global control manager (gcm): it shares the CPU time and the memory of one application among
-- its containers, which run on several nodes, each with an agent.
--
-- Parts. The containers of an application report their use of CPU time and ask for memory over a
-- socket; Manager answers. It keeps two accounts, CPU time in nanoseconds per period and memory in
-- pages: what is allocated to containers, what is in the pool, and, for CPU time, what was lent beyond
-- it (overrun). ElasticContainer keeps the containers themselves, in queues by their id, and the client
-- of the agent of each. A change of a quota or a limit is a call of that agent, and the
-- accounts follow when the agent agrees. A new container, a deletion, and a report whose quota keeps
-- differing from the one on record move them without a call.
--
-- Files, with the code that they model:
-- - Platform: the parameters. Double is the arithmetic of doubles on their 64-bit patterns, Net the
--   addresses of om.h (vendored), World the answers of the agents and of cAdvisor.
-- - Common: lists, maps, machine words, Boolean tests, and Outcome, which is how a handler ends: with a
--   result, in std::exit, in an endless wait, or in undefined behaviour.
-- - Stats: stats/global/cpu_g.cpp (GlobalCpu), stats/global/mem_g.cpp (GlobalMem),
--   stats/window/Window_impl.h (Window), stats/local/cpu_l.cpp (LocalCpu), stats/local/mem_l.cpp
--   (LocalMem).
-- - SubContainer: SubContainer.cpp. Agents and AgentClientDb: Agents/Agent.h, Agents/AgentClientDB.cpp
--   and init_agent_connections of GlobalControlManager.cpp.
-- - ElasticContainer: ElasticContainer.cpp. Containers are objects on a heap, and a queue holds their
--   addresses; Invariant says which heaps and queues are valid.
-- - Msg: types/msg.h. EcApi: the operations of ECAPI.cpp that change state or call an agent,
--   with Traffic, what comes to the table of clients over time.
-- - Manager: Manager.cpp, with Cpu (the ladder of cases of handle_cpu_usage_report), Report (the whole
--   handler), Idle (check_for_idle_containers), Memory (handle_mem_req, reclaim,
--   determine_mem_limit_for_new_pod, run) and Admission (handle_add_cgroup_to_ec, handle_req).
-- - Deployer: DeployServerGRPC/DeployerExportServiceImpl.cpp, through which an application and its pods
--   are announced and taken away.
-- - Server: Server.cpp, with the messages of a connection and a datagram, Startup, the set-up of the
--   sockets, Connections, the loop of TCP with the handlers that it starts, and Datagrams, the loop of UDP.
--   Startup: GlobalControlManager.cpp and main.cpp, up to the manager that is run.
-- - System: the manager and the service as one system, with its steps and the states that it comes to.
-- - Threads: handlers of Manager.cpp in several threads: Requests (handle_mem_req under memlock), Reclaims
--   (reclaim with and without it), Reports (the accesses of handle_cpu_usage_report to its account) and
--   Matching (the calls of ReportPodSpec that wait for a registration).
-- - Json: jsonSDK/src/JSONFacade.cpp (Config) and cAdvisorSDK/src/cAdvisorFacade.cpp (CAdvisor).
--   Agents.Rpc: Agents/AgentClient.cpp.
-- - Examples: one small application, at which the theorems are applied.
--
-- Numbers. A machine integer is a natural number with its wrap-around written out; int64_t and double
-- are bit patterns. A time is in nanoseconds. No definition takes fuel: every loop of the model runs
-- over a list. Where the source waits for another thread, the model waits without end if that thread
-- is not seen to come: the outcome is then hung.
--
-- Threads. Outside of Threads a handler is one step, and a handler that waits without end is no step: what
-- it has done until then is not seen by others. Threads.Requests cuts handle_mem_req at each access
-- to what the threads share, with its calls of reclaim as one access, and runs any number of threads of
-- it, each under memlock. Threads.Reclaims cuts one reclaim between its reads and its writes, with another
-- or a request in the middle. Threads.Reports cuts what a report does to the CPU account at the mutex
-- of each counter. Threads.Matching is about the condition variable cv: its steps are what a thread does
-- under cv_mtx, without deletions. Other pairs of handlers that run at once, and the map of containers
-- that one thread changes while another walks it, are not modelled. The reclaims that the source starts
-- at once run one after another here.
--
-- Not modelled: the sockets themselves, the endless loops around the rounds of run and of
-- check_for_idle_containers, the gRPC stubs, cpprestsdk and HTTP (parameters), the pod definitions of
-- JSONFacade.cpp and legacy code, which nothing calls, destructors, logging and tests. om.h is a copy of
-- libom2: its addresses are the parameter Net.
pub mod Common
pub mod Platform
pub mod Stats
pub mod SubContainer
pub mod Agents
pub mod AgentClientDb
pub mod ElasticContainer
pub mod Msg
pub mod EcApi
pub mod Manager
pub mod Deployer
pub mod Server
pub mod System
pub mod Threads
pub mod Json
pub mod Startup
mod Examples
