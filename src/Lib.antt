-- ===== src/Lib.antt =====
-- synurang: calls and streams between Go, Dart and native plugins, and a cache that is kept in SQLite.
--
-- The parts, and the files that model them:
-- - Session: pkg/service/stream_handler.go. A streaming session (StreamSession) is the record Session,
--   each function of the file a function on it; Session/Store has the table of sessions, the handler
--   registries and the dispatchers that the FFI calls. Session/Race interleaves the goroutines that share
--   a session at the points where the code takes and releases the lock. Session/Encoding is the
--   "key=value" format of headers and trailers, shared with Backend.
-- - Backend: cmd/server/main.go. Backend/Metadata is parseMetadata with splitLines and indexOf, which read
--   that format; Backend/Lifecycle has StartGrpcServer, StopGrpcServer and the goroutines that serve the
--   listeners (the errors that they put into serverErrors, which nothing reads, are left out),
--   Backend/Invoke the unary calls, Backend/Exports and Backend/Streams the exports for streams and the cache, Backend/Callback the
--   callback into Dart over Requests.
-- - Requests: pkg/service/ffi_utils.go, RequestHandler and DartCallbackManager. Requests/Pairing interleaves
--   the goroutines that make, answer and give up requests at the lock, and Requests/Steps has its steps.
-- - PluginServer: pkg/plugin/server.go, the plugin's end of a stream: the table of handles, and the
--   exported functions that the host calls.
-- - Plugin: pkg/synurang/plugin.go, the host's end. Plugin/Wire reads the bytes that the plugin answers, with
--   pkg/synurang/plugin_unix.go for the lengths that cross the C interface; Plugin/Library has the plugin
--   (LoadPlugin, getInvoker, OpenStream, the stream calls, StreamClose, Close), and Plugin/Unloading
--   interleaves its calls with Close at the lock and the wait group (Plugin/Balance has its steps).
--   Plugin/Platform has the calls of C functions of pkg/synurang/plugin_unix.go and plugin_windows.go.
-- - Plugin/Conn: pkg/synurang/plugin_conn.go, PluginStream and the gRPC client connection and stream over
--   it. Plugin/Conn/Delivery puts it together with Plugin, Plugin/Wire and PluginServer.
-- - Client: pkg/synurang/synurang.go, FfiClientConn and the two ends of its streams (Client/Stream), and the
--   pair of queues that they stand for (Client/Pipes).
-- - Core: pkg/service/server.go, the making of the service and the interceptors; Core/Dart has the calls into
--   Dart, over the sessions of Session/Store, Core/Bidi InvokeDartBidiStream, and Core/Grpc
--   InvokeDartStream over a gRPC connection.
-- - Codegen: cmd/protoc-gen-synurang-ffi/main.go, what the code generator computes before it renders a
--   template: names (Codegen/Names) and the data of a file (Codegen/Build), and the files of a run
--   (Codegen/Main).
-- - Cache: pkg/service/cache.go. Cache/Table has the rows and what each SQL statement does to them,
--   Cache/Engine the interface of the database, Cache/Service the requests, eviction, the cleanup tick and
--   Close, Cache/Updates the loop that batches times of access, Cache/Pausing the delayed pause, and
--   Cache/AsMap the function from keys to values that the requests are compared with.
-- - Debug: pkg/debug/goroutine_tracker.go. Debug/Block is the key of a goroutine in a dump of the runtime,
--   Debug/Tracker the dump, the diff and what is logged, over Debug/Text for Go's strings.
-- - Files: example/go/service/file_service.go, files as streams of chunks over gRPC (Files), over a session
--   (Files/Handlers), and over an FfiClientConn, whose client shares the buffer (Files/Sharing); Files/Calls and
--   Files/Echo are the calls into Dart.
-- Common has what the parts share: tests on numbers, lists, maps, Go channels, byte strings, integers.
--
-- Conventions. A Go channel is a queue with a capacity and a closed flag (Common/Channels): a send on a
-- closed channel panics. A panic is `none`, or a result of its own. A mutex is not state: a function that
-- holds it over its whole body is one step. Where the runtime chooses (the ready cases of a select, the
-- order of a map's entries), the choice is an argument. Go maps are association lists. Counters of 64 bits
-- wrap around at 2 ^ 64, and the lengths that cross the C interface at 2 ^ 32.
--
-- Fuel. The loop of Files.send_chunks takes the bytes that remain, of which each round sends at least one.
-- The eviction loop of Cache/Service.shrink takes the number of the store's rows plus one, which is
-- enough since every round deletes at least one row; Core/Grpc.receive_all takes the number of calls of
-- RecvMsg, of which one more than there are messages is enough. All other recursion is structural.
--
-- Parameters. The platform's functions that load a library, find a symbol and call it are arguments of
-- Plugin/Library, and the C functions behind them arguments of Plugin/Platform. SQLite is the
-- record Sqlite of Cache/Engine, with its laws as fields, and Cache/ListEngine is an instance over a list
-- of rows. Protobuf marshalling, the clock, random bytes, hashes, `Sscanf`, `filepath.Base`,
-- the sorts of Go's library but for the `sort.Strings` of Debug/Text, contexts, the generated dispatcher
-- InvokeFfi, gRPC connections, and the bodies of handlers are arguments.
--
-- Not modelled: generated code, the Dart, C++ and Rust runtimes, the allocation and release of C
-- memory, the gRPC library and its options, and logging. A session's ErrorChan and Metadata
-- are left out, since nothing in the package uses them.
pub mod Common
pub mod Session
pub mod Backend
pub mod Requests
pub mod PluginServer
pub mod Plugin
pub mod Codegen
pub mod Client
pub mod Core
pub mod Cache
pub mod Debug
pub mod Files
