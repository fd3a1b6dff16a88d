-- ===== src/Lib.antt =====
-- A model of the storage server of this repository, of the route server and what its clients send it,
-- and of the messages that the three servers exchange.
--
-- The program has three servers. An `im` server holds the clients' connections, `imr` routes messages
-- between `im` servers, and `ims` stores messages and keeps for each user and each group a queue of
-- them. They exchange the messages of the package `core`.
--
-- * Core models core/: `Core.Body` the types of the messages (message.go, storage_message.go,
--   route_message.go), `Core.Command` the commands and the tables of creators (the three `init`),
--   `Core.Encode` the methods `ToData`, `WriteHeader` and `WriteMessage`, `Core.Decode` the methods
--   `FromData` and the functions `Receive...Message` of protocol.go.
-- * Lru models lru/lru.go, the cache of the open files.
-- * Ims models ims/: `Ims.StorageFile` storage_file.go, `Ims.Storage` the state and the scans that
--   storage.go, peer_storage.go and group_storage.go share, `Ims.PeerStorage` peer_storage.go,
--   `Ims.GroupStorage` group_storage.go, `Ims.Replication` storage_sync.go and the calls of storage.go
--   for slaves.
-- * Im models im/: `Im.Relationship` relationship.go, with the queries of the database as parameters,
--   `Im.RelationshipPool` the cache and its events in relationship_pool.go, `Im.Group` the members of a
--   group in group.go, `Im.Channel` channel.go, the connection to a route server, `Im.Route` the clients
--   by user in route.go, app_route.go and client_sets.go, `Im.GroupMessageDeliver` the file of
--   pending group messages of group_message_deliver.go, with the storage servers as a parameter,
--   `Im.Connection` the queue of a connection in connection.go, and `Im.PeerClient` the handlers
--   `HandleIMMessage` and `HandleSync` of peer_client.go, with the storage rpc, the queries, the clock and
--   the filter of words as parameters.
-- * Imr models imr/: `Imr.Route` route.go, app_route.go and core/set.go, `Imr.Client` client.go and the
--   set of clients of route_server.go. `Imr.Agreement` is about a channel and the client that stands for
--   it at the route server.
--
-- A byte is a number below 256, and an integer of w bits is the number that its bits stand for,
-- below 2^w: a negative one is at least 2^(w-1), and a conversion to w bits is `% 2 ^ w`. The
-- calls that load queues compare an int64 or an int as the source does (`le64`, `at_limit`); elsewhere
-- ids and offsets are compared as numbers, which is the source's order below 2^63. A sequence of bytes
-- is a list. A string is its bytes.
--
-- A call of the source is a function that takes the state and returns the new one. The result of one
-- that can fail is an `Outcome`: a value, `refused` (the source returns false or nil), `panic` (a
-- run-time panic, or the end of the process by `log.Fatal`), or `stuck`, which stands for no fuel.
-- The fuel of `receive_limit_message` is the length of the input: a message inside a message is at
-- least 12 bytes shorter. The fuel of a scan of a file is its length. The loops that walk a queue
-- take their fuel as an argument: the number of entries that they visit at most. The fuel of
-- `load_sync_messages` is the number of blocks that it looks at, and that of the reads of an index file
-- the length of the file, which is also that of the loop over the pending messages.
--
-- A block file is its bytes; a disk gives for each block its file, if there is one. A handle of a
-- file is the block's number. What is sent to the channel `master.ewt` is the list `ewt` of the
-- state. A mutex makes each call one step. Errors of the file system, whether they end the process or
-- not, are not modelled. Logging is left out, but for log lines that read through a pointer that may
-- be nil.
-- The mutex of a channel does not cover what its calls send: they are taken not to overlap. A pointer to
-- a client is its number. A flush of the pending messages is one step, and the process stops only
-- between two calls. The order in which a range goes through a map is a parameter or that of a list.
--
-- Not modelled: the index file of the groups and the start of a storage, which reads both index
-- files; the loading of groups in im/ and the delivery of what the route servers send; the login
-- and the other handlers of its clients; the push to Redis in imr/; configuration, monitoring, the
-- connections to MySQL and Redis, the network loops and the rpc library, which are input and
-- output.
pub mod Prelude
pub mod Core
pub mod Lru
pub mod Im
pub mod Ims
pub mod Imr
pub mod Examples
