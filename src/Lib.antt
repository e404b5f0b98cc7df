-- ===== src/Lib.antt =====
-- sqns: a name service in which a service key is looked up as such. A server holds signed records;
-- a record says where a service key can be reached, is signed by that key, and carries a delegation in
-- which an offline identity vouches for the key. The identity alone can retire a key.
--
-- The files and the parts they model (paths from the repository's root):
--   Errors    crates/sqns-core/src/error.rs: `Error`, and `Result` with `?`.
--   Codec     crates/sqns-core/src/codec.rs: `Reader` as a state that a decoder passes on.
--   Crypto    the signature scheme of ed25519_dalek: a parameter, with its documented behaviour.
--   Record    crates/sqns-core/src/record.rs: the data, accessors, expiry and `supersedes`. Below it,
--             Record/Wire has the bytes and the decoders, Record/Authority has delegations, `validate`,
--             `sign`, `verify` and `verify_answer`, Record/Order has the order of records,
--             Record/Grant the delegation file.
--             Endpoint has the hosts and endpoints that a user writes.
--   Key       crates/sqns-core/src/key.rs: public keys as texts; Key/Secret has the files of private keys. The
--             crates bs58 and hex are a parameter, with their documented behaviour as a hypothesis.
--   Files     what the program uses of `std::fs`: files under their paths, with their permission bits.
--   Address   crates/sqns-core/src/addr.rs: the addresses of servers as texts and back.
--   Protocol  crates/sqns-core/src/protocol.rs: requests, responses and frames.
--   Map       the `HashMap` and the `BTreeSet` of the standard library as lists.
--   Store     crates/sqnsd/src/store.rs: `put`, `get` (here `find`), `since`, `purge_expired`. Below it,
--             Invariant and History follow the store over time, Merge and Replay compare orders of
--             calls, Listing is about `since`. History is of whole calls, one after the other; in Overlap
--             calls of `put` may come between the two critical sections of one another, and Race has one
--             way in which they do.
--             Spec has the slots that `put`, `get` and `purge_expired` refine; Snapshot and Restart are
--             about `encode_snapshot`, `decode_snapshot` and what `open` loads; Persist has `persist` and
--             `open` on a disk, where a write may be cut off at any step.
--   Cache     crates/sqns-client/src/cache.rs.
--   Upstream  crates/sqnsd/src/upstream.rs: relaying a lookup to other servers.
--   Server    crates/sqnsd/src/server.rs: the handlers of requests, over Store and Upstream. Server/Stream has
--             one stream of a connection, from its bytes to the reply's; Server/Maintenance the snapshots
--             and the purges of a running server.
--   Config    crates/sqnsd/src/config.rs and the key files and settings of crates/sqnsd/src/main.rs. The crate toml
--             is a parameter, a function from a text to the settings in it.
--   Replication  crates/sqnsd/src/replication.rs: `pull`, a round of `run` (`pull_all`) and `push`, over
--             Store; a peer is a link. Replication/ServerPeer makes one of a Server, through the bytes of
--             Connect and Server/Stream, for Replication/CatchUp.
--   Dns       crates/sqns-client/src/dns.rs: the addresses of a server. The resolvers are a parameter.
--   Connect   crates/sqns-client/src/conn.rs: one request over one stream, and the race of the dials, as steps in
--             Connect/Race. Connect/Link has the pooled connections of crates/sqnsd/src/link.rs and of
--             `request_server` of the resolver. QUIC is a parameter: which dials succeed, and what a
--             peer makes of the bytes of a stream.
--   Select    crates/sqns-client/src/select.rs: the order in which endpoints are tried.
--   Resolver  crates/sqns-client/src/resolver.rs: lookups over several servers, and the marks that refuse a
--             downgrade. Resolver/Walk has `resolve_service`, Resolver/Publish has `publish`;
--             Resolver/Deliver puts a client and a server together, message by message, and Resolver/Remote
--             through the bytes of Connect and Server/Stream.
--   Publisher crates/sqns-client/src/publisher.rs: serial numbers, signing and the retry, over Resolver.
--   Cli       crates/sqns/src/main.rs: delegations, revocations and successors. Cli/Servers has the servers that a
--             command asks and the file that names them, Cli/Commands `publish` and `resolve`.
--   Base, Bytes, Text are shared: numbers, lists, big-endian numbers, UTF-8, and what the program uses of
--             the standard library's strings, as lists of code points.
--   Examples has runs of the model and the theorems at concrete inputs, with a toy signature scheme.
--
-- A method on `&self` with a lock inside takes the state and returns the new one. `now_unix()` is an
-- argument, read once for each operation. Bytes are natural numbers, and `IsByte` says that one is
-- below 256; arrays carry their length as a hypothesis where it matters. Casts to narrower integers
-- keep the low bits. The texts of errors are left out, and so are log messages. A link to an upstream
-- or to a server is a function from a request to its outcome, so that a theorem over all links covers
-- every reply, failure and delay.
--
-- Loops run on the structure of a list or on a count that was read from a few bytes, but for these:
-- `resolve_service` has its own bound of 8 rounds; `drain` of Select has the length of the band, one
-- round for each endpoint; `pull` has 2^64 - since + 1 rounds, for its cursor is a number of 64 bits
-- that grows with each round. That the last two are enough is a part of the theorems on them.
--
-- Not modelled: the parsing of command lines and what is printed, binding and handshakes, signals, the
-- timers themselves (what a tick does is modelled), logging, and the making of directories. These only
-- call libraries, or write texts that the program does not read. The hash maps' order of iteration is
-- the order of the list that models them; `since` sorts by time and key, and a snapshot its bindings by
-- key, which hides it.
pub mod Address
pub mod Base
pub mod Bytes
pub mod Cache
pub mod Cli
pub mod Codec
pub mod Config
pub mod Connect
pub mod Crypto
pub mod Dns
pub mod Endpoint
pub mod Errors
pub mod Examples
pub mod Files
pub mod Key
pub mod Map
pub mod Protocol
pub mod Publisher
pub mod Record
pub mod Replication
pub mod Resolver
pub mod Select
pub mod Server
pub mod Store
pub mod Text
pub mod Upstream
