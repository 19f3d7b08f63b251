-- ===== src/Lib.antt =====
-- A model of chi_nettest, the programs and headers that test the network layer of a cluster: hosts
-- are numbered nodes, each runs a daemon that serves remote calls through Thallium, and node 1
-- drives the tests. Each definition names the C++ function, and its paths are those of the
-- repository.
--
-- Parts, from the bottom up:
--
-- Base           numbers, texts as lists of bytes, C's int, and how a call ends (Outcome).
-- Archive        what the serialize templates need of cereal: an interface, and one archive that
--                meets it (Archive/LittleEndian).
-- Bitfield       hshm::bitfield and BIT_OPT, as an interface with its documented behaviour.
-- Types          include/test_networks/chimaera_types.h: ids (Types/UniqueId, Types/SubDomain,
--                Types/Domain), update records (Types/Range), queries (Types/Selection,
--                Types/Query, Types/Resolved) and the cached timer (Types/Timer).
-- Transfer       include/test_networks/serialize_defn.h: transfers, and the buffers a server
--                allocates for them.
-- Config         include/test_networks/config_server.h: the two initializers and atoi.
-- RpcContext     include/test_networks/rpc.h: the host list, which host is this one, addresses.
-- Thallium       include/test_networks/rpc_thallium.h: starting and stopping (Thallium/Init), calls
--                (Thallium/Rpc), exposed memory (Thallium/Bulk), the loop over the nodes
--                (Thallium/Nodes), StopAllDaemons (Thallium/Calls), and calls without a result
--                (Thallium/OneWay).
-- Cluster        the same file across processes: StopAllDaemons in one and the handlers
--                RpcStopDaemon in those of the nodes, as a step relation (Cluster), with its
--                invariant, its length and its end (Cluster/Progress, Cluster/Rest), the processes of the programs
--                (Cluster/Started), the method in one go (Cluster/Sequential), and the benchmark on
--                all its nodes (Cluster/Whole).
-- Bench          src/chi_net_bench.cc: the handlers and PingAll (Bench, Bench/Ping), IoCalls and
--                MetadataCalls (Bench/Runs), a request from the client to its handler
--                (Bench/Served), and main (Bench/Main).
-- Ping           src/chi_net_ping.cc: the handlers, PingAll (Ping, Ping/Async), and main
--                (Ping/Whole, Ping/Start).
-- Find           src/chi_net_find.cc: the search for an address (Find/Loop), the file of all
--                addresses, and main of all ranks together (Find/Whole).
-- FullPing       src/fullping.cc: the handles of libfabric that each path acquires and releases, and
--                PrintInfo (FullPing/Info).
--
-- How they interact: a program fills a ServerConfig, RpcContext::ServerInit makes the host list
-- from it, ThalliumRpc::ServerInit starts the engines on that context, and the calls look nodes up
-- in it. A record holds the fields of a class; a method is a function from the object to the
-- object, to an Outcome where it can fail, or to an Action where it makes remote calls. An Action
-- carries the log of attempted calls, which comes back on every path.
--
-- Outcomes: HELOG(kFatal) and exit end the process (fatal), exceptions are values (throws), and
-- what the C++ standard leaves undefined is the outcome undefined. Two loops are not structural.
-- The one over a 32-bit node number has the number of hosts and one as fuel, which is enough as
-- long as that is below 2^32. The one over the decimal digits of n has n + 1, and each round
-- divides by 10. Unsigned arithmetic is written with its wrap-around.
--
-- A method runs to its end in one go, but for StopAllDaemons and RpcStopDaemon in Cluster, where
-- each call, response, stop and wait is a step, and the steps of the processes interleave in any
-- order; a handler responds before it stops its engines, as the code does. Process n runs the
-- daemon of node n. The caller is the process of node 1 in the benchmark, and one of its own in
-- the ping test.
--
-- Code outside the repository is an argument of the definitions that use it, with its documented
-- behaviour where a proof relies on it: cereal (Archive), hshm::bitfield (Bitfield),
-- hshm::ConfigParse (ConfigParse), the operating system and libfabric (HostEnv), malloc (Memory),
-- std::hash (StdHash), the clock of CacheTimer, MPI_Gather, shared memory (whether the block is
-- there and can be made), and Thallium (Net), which decides for each attempt whether it is
-- refused, lost or answered, and pulls data from one bulk into another (Pulls; Bench/CopyPull has
-- one that copies block by block). In Cluster a finalized client engine sends no call, and a wait
-- on it need not end; a response that came in before may still be taken. Chosen where the sources leave it open: the low half of the union
-- DomainSelection comes first, as on little-endian machines; elements that std::vector::resize
-- adds are value-initialized; a number outside int makes atoi undefined; a
-- vector has room for any number of elements below 2^63, and memory does not run out.
--
-- Not modelled: log output and measured times, the start and the end of MPI, the branch of
-- include/test_networks/rpc.h for __APPLE__, and the build files and scripts.
pub mod Base
pub mod Archive
pub mod Bitfield
pub mod Types
pub mod Transfer
pub mod Config
pub mod RpcContext
pub mod Thallium
pub mod Cluster
pub mod Bench
pub mod Ping
pub mod FullPing
pub mod Find
