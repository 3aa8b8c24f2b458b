-- ===== src/Lib.antt =====
-- p2p-hls: nodes share their video libraries with one another over WebRTC, and watch together.
--
-- A node hosts a Watch Party: its sync engine is the authority on playback, its heartbeats go to the
-- Audience, and each Viewer's engine steers its own player after them. The Viewers of a party form a
-- mesh that serves cached HLS Segments, so that the Host does not send each of them to everybody; a
-- Segment is only taken from a peer if it has the hash that the Host's playlist publishes. Danmaku
-- (short comments) go to the Host, which limits and fans them out. Nodes find one another through a
-- signaling server that keeps the presence table, and a Catalog is shown to nodes that the access
-- policy lets in.
--
-- The files, by the part of the repository:
--   Prelude             shared helpers: Boolean tests, integers over the native naturals, lists, Go
--                       strings and Go maps
--   Party.Types         internal/party/party.go
--   Party.Host          internal/party/host.go: Host; Audience and Commits hold its theorems
--   Party.Viewer        internal/party/viewer.go: Viewer; States and Actions hold its theorems
--   Party.Sync          the Host's interpolation against the Viewer's extrapolation
--   Party.Danmaku       internal/party/danmaku.go: the text cap (Cap) and the token bucket (Gate)
--   Swarm.Engine        internal/swarm/swarm.go: the mesh engine's state
--   Swarm.Haves         internal/swarm/haves.go: held Segments and the have-map; Bits, RoundTrip, Window
--   Swarm.Peers         internal/swarm/peers.go and the marks of select.go; Reconcile, Merge, Demotion
--   Swarm.Select        internal/swarm/select.go: SelectSource and GossipTargets; Best, Sorting, Draws,
--                       Apart, Gossip
--   Swarm.Integrity     internal/swarm/integrity.go and SegIndex
--   Session             internal/app/swarm_session.go and swarm_cache.go; Fetch is FetchSegment, and
--                       Stores, Verified, Rounds and Uploads hold the theorems
--   Coordinator         internal/app/party.go: the entry points, each with the messages it sends; Join,
--                       Chat and Events are parts of it, Consistent, Playback, Strangers and
--                       Admission theorems
--   Catalog             internal/catalog/policy.go, requests.go and the gates of service.go; Access
--   Signal              internal/signalserver/server.go; Presence
--   Peer.Errors         internal/peer/errors.go
--   Peer.Envelope       the messages of the control channel (proto/peer/v1/peer.proto)
--   Peer.Bulk           internal/peer/bulk.go: the frames; Frames. Send and Receive are the two halves of
--                       a transfer in session.go, Transfer is about both
--   Peer.Session        internal/peer/session.go, party.go, swarm.go and framing.go: Calls are the requests
--                       that a node makes, Serve the handlers of those that it gets, Dispatch the control
--                       channel's messages, Clients the methods' results; Answers, RoundTrip and Fates
--                       hold the theorems
--   Peer.Binding        internal/peer/binding.go, internal/identity/identity.go and the signals of
--                       session.go; Accepted
--   Node                internal/app/node.go: the table of sessions; Glare, Moves, Histories
--   Library             internal/library/metadata.go, with the records of probe.go
--   Media               internal/media: Cache is cache.go, with Budget; Hash is hash.go, with Lines, Hex,
--                       Parsing and Published; Engine is engine.go and the gate of service.go, with
--                       Jobs; Ffmpeg is ffmpeg.go and subtitles.go, with Copies; Master is master.go
--   Tests               runs of the model, and the theorems at inputs
--
-- How code corresponds to model. A struct is a record with the same fields, less its mutex, its clock
-- and its channels; a method that runs under a mutex is a function on the record, with the clock's
-- reading as an argument. A time is the number of nanoseconds since Go's zero time and never negative,
-- a duration or position is an integer; the sums of int64 positions wrap as in Go, uint64 counters wrap
-- at 2 ^ 64. Playback rates, float64 in Go, are counted in millionths, the gain in thousandths and the
-- tokens of a bucket in billionths, which makes the arithmetic exact where Go rounds. A Go map is an
-- association list, whose order stands for one order of a range loop; a map to Booleans that are only
-- ever set to true is the list of its keys. A string is its list of bytes, a Danmaku its list of runes.
-- The counts in the mesh's configuration are taken as not negative.
--
-- Parameters stand for code outside the repository: the segmentation into grapheme clusters
-- (github.com/rivo/uniseg), BLAKE3-256 (github.com/zeebo/blake3), the random source, the identity
-- package's key functions at the signaling server, the answers of peers and of the Host, and the files
-- of the cache with the order that sort.Slice makes of them. A data channel is the function that says
-- which messages it takes, the app's handlers are functions on a state of any type, and Ed25519,
-- SHA-256, base32, JSON and the WebRTC connection are parameters of the signed session descriptions.
--
-- Concurrency: what other goroutines do to a mesh session while a pull is out, and between the critical
-- sections of `store`, are arguments of a fetch; Session.Stores has any number of stores at once.
-- JoinParty is a sequence of inputs, one for each time that it takes the mutex, and others may come
-- between them. A goroutine that a handler starts is a job, run as one step; a caller that waits at a
-- channel is an event of its own, so that calls interleave in every way.
--
-- Fuel: the fetch loop has fuel. It needs one round more than the engine has peers, as
-- Session.Rounds shows; a fetch that runs out of fuel has a result of its own, `unfinished`. The reads of a
-- buffer that is sent over the bulk channel are counted by its length, as each takes at least a byte.
--
-- Not modelled: the run of ffmpeg, the library's scanner, probe and store, identity files, the HTTP
-- bridge, the commands, JSON, and the generated protobuf code and its encoding; also
-- the goroutines and sockets around the modelled parts, and the folder labels and metadata copies of
-- internal/catalog.
pub mod Prelude
pub mod Party
pub mod Swarm
pub mod Session
pub mod Coordinator
pub mod Catalog
pub mod Signal
pub mod Peer
mod Tests
pub mod Node
pub mod Media
pub mod Library
