-- ===== src/Lib.antt =====
-- A model of the stateful parts of the Go library missinggo, with theorems on what they do.
--
-- The parts and their files:
-- * orderedmap/ (OrderedMap): a map that is walked in the order of its keys, over a B-tree. The tree
--   is github.com/google/btree, the parameter `BTree`, of which the documented order of its items is
--   assumed; OrderedMap.Reference shows that a sorted list meets it. `OrderedMap` is the interface
--   that the other parts are clients of, and Laws fills it.
-- * filecache/ (FileCache): a directory of files that is kept within a capacity. Paths is
--   `sanitizePath` and `realpath`, Lru the eviction policy of lru.go over an ordered map, Os the
--   machine (file system and clock: any functions), Cache the state and `updateItem`, `remove`,
--   `trimToCapacity`, `pruneEmptyDirs`, Operations the rest of cache.go and file.go.
-- * prioritybitmap/ (PriorityBitmap): a set of ints with priorities, over an ordered map from a
--   priority to a lone bit or a set of bits.
-- * conntrack/ (Conntrack): a limit on connections, with a queue by priority. Maps has the maps of
--   sets, Instance the transactions; each `stm.Atomically` is a step, and any order of steps of any
--   callers is a run. The persistent maps of stmutil are the parameters `Mappish` and `OrderedMap`.
-- * pubsub/ (PubSub): values in a chain of channels of capacity one. Each section under a mutex and
--   each channel operation of a subscription is a step; channels are numbered as they get in use,
--   and a channel that is made for a value that is then not sent is seen by nobody and left out.
-- * singleflight.go (SingleFlight): a lock for each identifier, as steps of any number of threads.
-- * event.go, event_synchronized.go, wait_event.go, chancond.go (Event): events and conditions that
--   are waited for by channels, over a store of channels.
-- * inproc/inproc.go (Inproc): packet connections within a process, in a store; a section under the
--   package's mutex is a step.
-- * refclose/refclose.go (RefClose): resources that are closed with the last reference.
-- * cache/ (Cache, LruPolicy): the books of a cache, over the interface `Policy` of an eviction
--   policy, whose laws say what it keeps of each key; and `LruPolicy`, which fills the interface with
--   an ordered map whose order is a chain of comparisons.
-- * bitmap/ (Bitmap): sets of 32-bit values, over the bitmaps of github.com/RoaringBitmap/roaring, the
--   parameter `Roaring`, of which the documented meaning of its operations is assumed.
-- * httptoo/bytes_content_range.go (ByteRange, over Base.Decimal): byte ranges in HTTP headers.
-- * httpfile/ (HttpFile): a file over HTTP. The client with its server is the parameter `Http`, and
--   what a server does that has the file is the hypothesis `Serves`; it answers in the text that
--   ByteRange reads, and the bodies of its answers may break.
-- * resource/http.go (HttpResource): resources behind a client, the parameter `Client`.
-- * section_read_seeker.go, section_writer.go, limitlen.go, minmax.go (Section): a part of a file.
-- * monotonic.go (Monotonic): a clock over one that may go back. A time is a number of nanoseconds
--   since Go's zero `Time`, and a `Duration` an int64.
-- * rle.go (Rle): the run-length encoder.
-- * multiless.go (MultiLess): chains of comparisons.
-- * iter/ (Iter, and Base.Callbacks for the type of a callback): `All`, `First`, `Chain`, `Head`; and
--   GroupBy, over the slice iterator; and ForPerm, over any random numbers.
-- Base has shared helpers: integers over the native numbers, orders, Go maps, decimal text, outcomes
-- of a call.
--
-- How Go is read. `int` and `int64` values are integers without wrap-around: sizes, offsets,
-- priorities and counts of entries stay far from 2^63. The encoder's uint64 counts wrap, and so does
-- the skew of the monotonic clock, where `Time.Sub` stops at the ends of int64. A call ends
-- with a result, in a panic, or out of fuel (Base.Outcome). Fuel bounds `trimToCapacity` and its
-- callers; more fuel than there are items is enough where files can be removed
-- (FileCache.Cache.Ends). `pruneEmptyDirs` has one unit more than its path has elements, which is
-- enough where the root directory stays. The walk of a Go map takes some order, here the list's.
--
-- The caller of GroupBy that takes all groups has a round for each value and two more, which is
-- enough. Printing a number has as much fuel as the number.
--
-- Not modelled: logging, metrics and printing; the pool of sets of
-- the priority bitmap, which only saves allocations; the goroutine that prunes directories when an
-- open fails twice; a callback of the bitmap's walk that changes the bitmap while it is walked; two
-- `Bitmap` values that share one roaring bitmap; the closing of response bodies; the contexts of
-- readers; commands, and the packages that only adapt other libraries or remote services.
pub mod Base
pub mod OrderedMap
pub mod FileCache
pub mod PriorityBitmap
pub mod Conntrack
pub mod PubSub
pub mod SingleFlight
pub mod Event
pub mod Inproc
pub mod RefClose
pub mod Cache
pub mod LruPolicy
pub mod Bitmap
pub mod ByteRange
pub mod HttpFile
pub mod HttpResource
pub mod Section
pub mod Monotonic
pub mod Rle
pub mod MultiLess
pub mod Iter
pub mod GroupBy
pub mod ForPerm
