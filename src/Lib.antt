-- ===== src/Lib.antt =====
-- A model of the DHCP and BootP daemon go-dhcpd, and what holds of it.
--
-- A datagram is parsed (internal/dhcp/packet.go) and dispatched by its message type
-- (internal/dhcp/server.go). The handlers ask the allocator (internal/allocator/allocator.go) for an
-- address and make it record a lease in the database (internal/db/db.go); the allocator reads the
-- configured subnets and static hosts (internal/config/config.go), the deny list and the answers to
-- `ping`. A reply goes out as bytes, to an address that depends on the packet.
--
-- Base      shared notation, lists, texts, integers, results
-- Net       what is used of Go's net.IP: forms, masks, printing, parsing, equality; RoundTrip and
--           Equal have their properties
-- Options   the option map and its wire format: `parseOptions`, the option loop of `ToBytes`
-- Domain    `encodeDomainName`; Domain.Decode has a reader of DNS names to compare it with
-- Packet    `Packet`, `ParsePacket`, `ToBytes`; Packet.Build the setters, getters and constants
-- Config    the records of internal/config/config.go, `NormalizeMAC`, the defaults of `LoadConfig`
-- RawSocket internal/dhcp/rawsocket.go: `ReadDHCPPacket` on the frames that arrive
-- Db        internal/db/db.go: a method is the effect of its SQL statement on the two tables
-- Arp       `getMACFromARP`
-- Allocator internal/allocator/allocator.go: `allocate_ip` is `AllocateIP`, `scan_range` the loop of
--           `findAvailableIPInRange`, `create_lease` `CreateLease`, and so on, by the names of the
--           methods; Scan, Grants, Pool, Leases, Ends, Free and Recorded have their
--           properties
-- Replies   the methods of internal/dhcp/server.go that make a reply; Echo, Kinds, Sizes and Parsed
--           have their properties
-- Server    the state of the daemon and its handlers as steps, by the names of the methods; Sends,
--           Request, Safety, Branches, Handled, Runs, Progress and Routes have their properties
-- Validate  `ValidateSubnet` of internal/sqlite3store/validate.go, Validate.Mac `ValidateStaticHost`;
--           Usable and Canonical have their properties
-- Store     internal/sqlite3store/store.go: Rows the tables, a statement and a transaction, Children
--           the lists of a subnet, Subnets and Hosts the functions on subnets and static hosts,
--           Schema `OpenDB` and `EnsureSchema`; Directory, Changes, Book and Upgrade have what is
--           compared with them, and with the rest of Store/ their properties
-- Plugin    internal/pluginapi/protocol.go and internal/plugin/manager.go; Plugin.Sqlite and
--           Plugin.File are cmd/plugins/sqlite3-config/main.go and cmd/plugins/file-config/main.go;
--           Kept and Stored have their properties
-- Api       internal/api/api.go: the handlers, the routes and what stands before them; Guarded,
--           Written and Spelling have their properties
-- Auth      `Authorize` of internal/auth/auth.go, `authMiddleware` of internal/api/api.go
-- Migration cmd/go-dhcpd-migration-tool/main.go; Carried has its properties
-- Startup   cmd/dhcpd/main.go up to the point where the daemon serves, with `NewAllocator`, `NewServer`
--           and `getServerIP`; Serves has its properties
-- Examples  a small network on which the theorems are run
--
-- A Go error is a value of `Result`, a run-time panic the outcome `panicked`, and a method that
-- writes to a shared object takes the object and gives it back. A byte is a natural number, and
-- arithmetic on w bits is written with its wrap-around. A map is an association list, its order the
-- order in which `range` visits it. A SQL statement may fail at any time: `faults` says which do. So
-- may a write to the socket: `send_faults`. The clock, `ping`, `arp` and the name service are the
-- record `Env`; the clock is read once for a packet. A time is a number of nanoseconds since the year 1,
-- and times compare as numbers; the configured lease time is made a duration with the wrap-around of
-- an int64. The options of a reply stand in the order in which they are set.
--
-- The daemon's subnets and static hosts come from a provider, a process that the manager runs once for
-- each request: it is an argument, a function of the request and of a state of its own, and the two
-- plugins of the repository are such functions. JSON is the argument `Codec`. A statement of the
-- store may fail too, and a transaction that does not end well puts the tables back.
--
-- The loop over the options has fuel, one turn for each byte and one more, which is always enough.
-- The scan of a range has fuel above 2 ^ 32: it is enough for every range that does not end at
-- 255.255.255.255, and no fuel is enough for one that does, where every address is in use.
--
-- Not modelled: sockets, files, JSON, SQL text, logging; goroutines within a handler (a handler is
-- one step); the start of the REST interface with its TLS settings; the flags, the
-- goroutines and the signals of the daemon's `main`. PAM and the system's user database are arguments.
pub mod Base
pub mod Net
pub mod Options
pub mod Domain
pub mod Packet
pub mod Config
pub mod RawSocket
pub mod Db
pub mod Arp
pub mod Allocator
pub mod Replies
pub mod Server
pub mod Validate
pub mod Store
pub mod Plugin
pub mod Api
pub mod Migration
pub mod Startup
pub mod Auth
pub mod Examples
