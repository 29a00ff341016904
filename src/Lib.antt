-- ===== src/Lib.antt =====
-- audio-rtc-exp: the services behind audio rooms, as they keep rooms, users and modules.
--
-- Parts. The rooms service (backend/rooms) answers the HTTP API: it writes rooms into etcd, picks the
-- mixer and the Janus of a room among the healthy modules, counts which module serves which room, and
-- removes stale rooms. Every service mirrors its prefix of etcd in a cache
-- (backend/internal/watcher/etcd, with the records of backend/internal/etcdstate) and reacts to changes
-- by keys that a scheduler hands out when they are due (backend/internal/scheduler). A mixer
-- (backend/mixers) starts and stops an FFmpeg stream for each room that it serves; a Janus manager
-- (backend/januses) creates a Janus room with a forwarder to the mixer, writes its status, and watches a
-- canary room for restarts of Janus. Listeners and speakers connect to the gateway
-- (backend/wsgateway/signal), one connection of each user, which joins them to the Janus room. Users of
-- rooms are changed by one controller (backend/users/control) over a state in memory that is copied to
-- Redis (backend/users/room) with two sorted sets (backend/internal/zset) for what runs out.
--
-- Files.
-- Prelude: tests, lists, maps, integers and strings that the parts share.
-- Zset: backend/internal/zset/zset.go. container/heap, of the Go library, is taken as the list in the
-- order in which it hands items out. Zset/Heap: pqueue.go, the methods that container/heap calls, with
-- the index of each item; which of them it calls is an argument.
-- Users, Users/Mem, Users/Redis, Users/Combine, Users/Timeout: backend/users/types.go and
-- backend/users/room/{mem,redis,combine}.go, a function per method under the method's name.
-- Users/Combine/Rebuild: Rebuild of combine.go with the parse functions of redis.go.
-- Users/Control: backend/users/control/controller.go; actions of the queue are a data type, and
-- handlers that wait for room in the channel stand in `senders`.
-- Etcdstate: backend/internal/etcdstate and backend/internal/constants.
-- Scheduler: backend/internal/scheduler, a function per branch of its select; Scheduler/Channel is a
-- step relation of the scheduler and of a watcher that uses it, over the channel between them.
-- Watcher: backend/internal/watcher/etcd; `Loop` is what its goroutine changes, `get_once`,
-- `run_key` and `handle_watch` are the parts of getAndWatchOnce and handleWatch.
-- Reswatcher: backend/internal/reswatcher/etcd/room_watcher.go, the watcher of rooms that the mixers
-- and the Janus managers are built on.
-- Rooms/Store, Rooms/Service, Rooms/Router: backend/rooms/store, backend/rooms/service/room_service.go
-- and backend/rooms/transport, a monad of calls of etcd that may fail, then of errors, then of replies.
-- Rooms/Usage, Rooms/Stats, Rooms/Pick, Rooms/Housekeeping: the rest of backend/rooms/service, with
-- backend/internal/reswatcher/etcd/module_watcher.go in Rooms/Pick. Rooms/Mirror: the cache of
-- rooms against etcd as a map from keys to values.
-- Mixers: backend/mixers/watcher, with StartFFmpeg and StopFFmpeg of backend/mixers/ffmpeg/ffmpeg.go.
-- Januses, Januses/Rebuild, Januses/Monitor: backend/januses/watcher; Januses/Restart is the watcher
-- with the transformer that its constructor gives it.
-- Wsgateway/Guard, Wsgateway/Clients, Wsgateway/Server: backend/wsgateway/signal; the record `World`
-- holds what the other services answer to one request.
--
-- Conventions. A pointer is an Option, a map an association list with each key once, a time a number
-- of nanoseconds with 0 for the zero time, and the clock an argument. Calls of Redis and etcd take a
-- list of faults that says of each next call whether it fails; calls of Janus take the list of its
-- answers. Random draws, JSON, tokens and strconv are parameters. The loops of CheckTimeout take fuel,
-- one turn more than there are tracks, which is enough since each turn removes one; the loop of fireDue
-- recurses on the heap, of which each turn takes an item; a Janus room is tried five times, as in the
-- source, the channel of the scheduler holds 100 actions and that of the users 10.
--
-- Not modelled: HTTP and WebSocket transports but for the handlers of the rooms API, metrics, logs and
-- locks (an operation is one step), the HTTP client of Janus, JSON-RPC, Redis streams, the processes and
-- files of FFmpeg, the proxy that finds the Janus of a room, and the service of HLS keys.
pub mod Prelude
pub mod Zset
pub mod Users
pub mod Etcdstate
pub mod Scheduler
pub mod Watcher
pub mod Rooms
pub mod Wsgateway
pub mod Reswatcher
pub mod Mixers
pub mod Januses
