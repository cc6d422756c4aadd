-- ===== src/Lib.antt =====
-- Verification of ndn-svs, the State Vector Sync library for NDN.
--
-- Every node of a group keeps a version vector: the highest sequence number that each node has
-- published. It sends the vector, or a part of it, in Sync Interests, and merges the vectors that
-- it receives. The parts of the library and the modules that model them:
--
--   VersionVector         ndn-svs/version-vector.{hpp,cpp}, `class VersionVector`: the vector, and
--                         `selectSubset`, which picks the part to send by one of fourteen strategies.
--                         Subset, Score and Cluster hold the lambdas that add entries, Select the
--                         `switch` over the strategies; Extends, Phases, Fill, Complete and
--                         Guarantee hold the proofs.
--   Core                  ndn-svs/core.{hpp,cpp}, `class SVSyncCore`. State holds the members, Merge
--                         the merge of two vectors, Timer the period of the Interests, Feedback the
--                         queue of unechoed publications and the delay estimate, Build the choice of
--                         what an Interest carries, Handlers the handlers of Interests, of the
--                         retransmission timer and of local publications.
--   Core.Network          a group of nodes that run Core: the vectors that a node has sent may reach
--                         any node in any order, more than once or never.
--   Fetcher               ndn-svs/fetcher.{hpp,cpp}, `class Fetcher`: a window of pending Interests.
--   Mapping               ndn-svs/mapping-provider.{hpp,cpp}: the application names of publications,
--                         queries for them, and the wire form of a list.
--   PubSub                ndn-svs/svspubsub.{hpp,cpp}: Publish
--                         holds publishing and the extra blocks of Sync Interests, Updates the
--                         update callback, Fetching the fetch maps, and Receive what becomes of a
--                         fetched packet or value.
--   Sync                  ndn-svs/svsync-base.{hpp,cpp}, svsync.hpp, svsync-shared.hpp and store.hpp:
--                         data packets by sequence number, on top of the core and the fetcher. The
--                         data store is an interface with laws.
--   Base, Std             shared helpers, and the part of the C++ standard library that the code uses:
--                         std::map as a list of pairs in key order, std::sort and std::shuffle.
--   Double, Names, Tlv    the interfaces of `double`, of `ndn::Name` and of parsed TLV blocks.
--   Samples, */Tests      concrete states, runs and applications of the theorems.
--
-- State is passed explicitly: a method is a function from the object (and its arguments) to the new
-- object (and its result), with the name of the method. A member keeps its name without `m_`. The
-- list `sent` of a node holds the vectors of the Interests that it has sent, and `retx_event` the
-- delay of the one event that it has scheduled; `calls` of a fetcher lists what it asked of others.
--
-- Parameters. A `double` is a type with operations of which nothing is assumed (Double): no theorem
-- depends on a rounding or on a weight. A node's name is a type with an equality and a total order
-- (Std.Ord) and a URI (Names). What `std::shuffle` does with a seed is a function, which a theorem
-- that needs it takes to permute its list. Clocks and random draws are fields of `Env`, one reading
-- for each handler. The ndn-cxx library (faces, signing, packets) is not modelled: a handler starts
-- from the decoded vector, and sending records the vector.
--
-- Numbers are natural numbers, and those of publications have 64 bits: where a loop over them
-- would wrap round, the update callback has no result and a query for mappings no reply. Counts
-- are not wrapped at 2 ^ 64, which the code cannot reach by counting, and a new sequence number
-- is; where the code narrows a delay to `unsigned int` the model has `% 2 ^ 32`, and the fetcher's
-- counter has `% 2 ^ 64`. Signed results of rounding are in ℤ and are clamped as the code clamps
-- them. Loops are structural recursion on the list that the code walks; the loop of the cluster
-- score strategy, which the code runs while there is budget, recurs on the budget, which every
-- round lowers. The loop of PubSub.Queries recurs on fuel, one for each publication of the range,
-- of which every round asks for at least one.
--
-- Where the code compares time points, a time is the number of ticks above the least time point.
-- The mutexes are not modelled: a handler is one step.
--
-- The wire form of a vector (VersionVector.Wire) and of a mapping list (Mapping.Wire) is modelled
-- down to the elements that ndn-cxx parses a block into; how it writes and reads a name or a
-- number is the interface `Elements`. Core.Start is the constructor, whose configuration is an
-- argument, Core.Environment reads the configuration from the environment, and Core.Spelling holds
-- the names of the strategies and of the timer modes. Core.Refinement says what a node promises of
-- its numbers, and Core.Period is about the interval of its Interests. Core.Reports counts what
-- the update callback is told. PubSub.Construct is the constructor of a node with the prefixes
-- that it registers. PubSub.Subscriptions is about the handles of subscriptions, and
-- PubSub.Coherent follows the two maps of fetches through any calls. PubSub.Incoming joins the
-- core and SVSPubSub, PubSub.Delivery two nodes that publish and subscribe, and Mapping.Exchange
-- two that ask and answer.
--
-- PubSub runs Sync by its operations: `publish` and `publish_packet` change both, and what the
-- other handlers ask of Sync, of the mapping provider and of the application is in the list
-- `calls`. The fetched packets, the answers and the verdicts of validators are arguments of the
-- handlers.
--
-- Not modelled: the bytes of TLV blocks and of packets, signing, the metrics log, what a face does
-- with a registered prefix, and the programs and tests of the repository.
mod Base
pub mod Std
pub mod Double
pub mod Names
pub mod Tlv
pub mod VersionVector
pub mod Core
pub mod Fetcher
pub mod Mapping
pub mod PubSub
pub mod Sync
mod Samples
