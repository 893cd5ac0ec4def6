-- ===== src/Lib.antt =====
-- NetBlast is a packet forwarder on DPDK (l2fwd/main.c) with a small library of flow tables
-- (l2fwd/libsashstore), and a packet generator (pktgen/pktgen.c). A worker core receives a burst
-- of frames, computes a hash of the flow of each frame (packettool.c, hash.c), looks the hash up
-- in a table that maps it to the MAC address of a backend, inserts flows that are new with a
-- backend of the lookup table (conshash.c), writes the MAC address into the frame and sends the
-- burst on. There are two such tables: the map of maglev (hashmap.c, used by maglev.c), which is
-- searched one pair at a time, and dramblast (dramblast.c), which looks up a whole batch of
-- hashes, one cache line at a time, through a queue of pending lookups, so that the memory
-- accesses of many lookups overlap.
--
-- Files:
--   Base, Base/*        shared names; words of 32 and 64 bits, masks, lists, a bounded search
--   Buffer, Buffer/*    reads and writes of bytes in a frame
--   Probe, Probe/*      linear probing in general: the map that a table stands for, the invariant of
--                       a table, and what a write at the end of a search does to both
--   WordTable, .../*    the arrays of pairs that both tables of words are: one probe of an insertion,
--                       the invariant, and the contract of an insertion
--   Capacity, .../*     l2fwd/main.c: CAPACITY and the check of the option -c
--   Fnv, Fnv/*          l2fwd/libsashstore/hash.c
--   PacketTool, .../*   l2fwd/libsashstore/packettool.c
--   Conshash, .../*     l2fwd/libsashstore/conshash.c
--   Hashmap, .../*      l2fwd/libsashstore/hashmap.c, the functions of maglev
--   SashMap, .../*      l2fwd/libsashstore/hashmap.c, the functions of sashstore
--   Sashstore, .../*    l2fwd/libsashstore/sashstore.c, a key-value store that answers requests
--   Maglev, .../*       l2fwd/libsashstore/maglev.c
--   Dramblast, .../*    l2fwd/libsashstore/dramblast.c and dramblast.h: Find is the batched lookup,
--                       FindQueue its queue, Insert the insertion, Concurrent the insertion
--                       by several cores at once, Frames what is done for a burst,
--                       Setup the initial state
--   L2fwd, L2fwd/*      l2fwd/main.c: a round of the main loop for one queue
--   Statistics, .../*   l2fwd/main.c: the sums over the cores and the figures that are printed
--   Sampling, .../*     l2fwd/main.c: the loop of the main core, and its samples
--   Options, .../*      l2fwd/main.c: the options, and the choice of the mode
--   Lcores, .../*       l2fwd/main.c: the distribution of the queues over the cores
--   Ports, Ports/*      l2fwd/main.c: the pairing of the ports
--   Pktgen              pktgen/pktgen.c, with one child for each part of it: Transmit is the loop of a
--                       core that sends, Receive that of a core that receives, Roles the distribution
--                       of roles and queues, Rates the totals of each second, Command the options
--   Tests, Tests/*      concrete inputs for the theorems
--
-- The model. Functions keep their names; a static variable or a structure that is written is
-- passed in and out. A load or a store out of range is the outcome `none`, so a theorem that a
-- call returns `some` result also says that it stays in range. A word is a natural number, and
-- wrap-around is written out with u32, u64, sub32 and sub64. Bytes are numbers below 256; `char`
-- is signed, as on x86-64, for which the library is written. The CRC instruction is a parameter
-- `crc` of both tables, of which nothing is assumed, and so is the checksum of IPv4 headers of the
-- generator. The key-value store of sashstore.c answers a request in the frame that brought it.
-- Its get response copies the key onto itself, two bytes on, which leaves undefined bytes: they
-- are the parameter `crossed`, of which only the length is assumed.
--
-- Loops. The loops over probes of hashmap.c recurse on the rounds that are left, CAPACITY at most.
-- The loop of dramblast_insert_one has the fuel `len`, at which its own count ends it. The outer
-- loop of dramblast_find_batch_sync has the fuel `len * args_len + 1`: an item is probed in `len /
-- 4` buckets at most. The search of a core in l2fwd/main.c has the fuel RTE_MAX_LCORE + 1, since
-- it gives up at RTE_MAX_LCORE. The loops of the cores of pktgen/pktgen.c, which run until
-- `force_quit`, recurse on a list of what the pool, the device and the time stamp counter yield in
-- each round. That the fuels are enough is part of the theorems.
--
-- Cores. Each call is seen running by itself, but for Concurrent: there any number of cores call
-- dramblast_insert_one on one table, and a schedule says which core makes the next step. A step is
-- one access to a pair, which all cores see at once, in the order of the schedule; the compare-
-- and-swap on the 16 bytes of a pair is one step, as its instruction promises. The second load of
-- `kv->k` is a step of its own also where a compiler may reuse the first, which reads the same: a
-- key that is not 0 stays.
--
-- Not modelled: lookups that run beside insertions; the failure of an allocation, which ends the
-- process; prefetches, which have no effect on the state; printing and the set-up of DPDK devices;
-- the code behind the `return` of populate_lut.
pub mod Base
pub mod Buffer
pub mod Probe
pub mod WordTable
pub mod Capacity
pub mod Fnv
pub mod PacketTool
pub mod Conshash
pub mod Hashmap
pub mod SashMap
pub mod Sashstore
pub mod Maglev
pub mod Dramblast
pub mod L2fwd
pub mod Sampling
pub mod Options
pub mod Lcores
pub mod Ports
pub mod Statistics
pub mod Pktgen
pub mod Tests
