-- ===== src/Lib.antt =====
-- A model of the core of bgpulse, the BGP route-leak and hijack monitor, with its correctness
-- theorems. The program takes BGP updates from a source, classifies each one (a valley-free walk
-- over the AS path, RPKI origin validation, and one combined verdict) and folds the classified
-- events into a live AS graph that the browser clients see.
--
-- The parts, their code and their files:
--
--   Bgp            backend/internal/bgp/types.go: the enums (UpdateKind, RelStatus, VfStatus,
--                  RpkiStatus) and the events. Bgp/Net is the part of net/netip that the program
--                  uses, from its documentation: addresses are byte lists, a prefix that is not
--                  valid has no bits.
--   ValleyFree     backend/internal/valleyfree/classifier.go: `classify_path` is ClassifyPath,
--                  `find_valley` is findValley. ValleyFree/Shape states the valley-free shape of a
--                  list of moves without the code's phases.
--   Rpki           backend/internal/rpki/store.go and vrp.go: `add_vrp` is Builder.Add, `validate`
--                  is VRPStore.Validate, `Trie` the linked nodes. A panic is the result `none`, or
--                  `fault` of an Add. Rpki/Spec states RFC 6811 on the list of the VRPs added,
--                  Rpki/Unordered on the set of them, a quotient of the lists.
--   Relationships  backend/internal/relationships/store.go: `add_rel` is Builder.Add, `rel_lookup`
--                  is RelStore.Lookup.
--   Classify       backend/internal/classify/classify.go: `classify` is Classifier.Classify. Its
--                  two interfaces are functions; the theorems put the validator of Rpki in.
--   Topology       backend/internal/topology: Topology/Graph is graph.go, Topology/Apply is
--                  apply.go (`apply` is Aggregator.apply), Topology/Ring, Topology/Series,
--                  Topology/Stats and Topology/Views are ring.go, series.go, stats.go and views.go.
--   Rtr            backend/internal/rtr: Rtr/Codec is pdu.go and codec.go (`read_pdu` is readPDU on
--                  the bytes that a connection delivers), Rtr/Session is one session of
--                  client.go (`step` is one round of its loop, `commit` is commit), Rtr/Run its
--                  `Run`: a round is a connection and what the tests of the context find.
--   Wshub          backend/internal/wshub/hub.go and client.go: the hub's operations on its client
--                  set, and `Step`, what its goroutine, the callers and the write pumps can do.
--                  Between the selects of sendToClient a write pump may take frames: how many is
--                  an argument.
--   Synth          backend/internal/synth: Synth is the construction of topology.go, Synth/Prefixes
--                  prefixes.go with BuildDefault, Synth/Paths validPath of scenarios.go and
--                  Synth/Generator generator.go with the other scenarios. A generator of
--                  math/rand/v2 is a parameter: a state, `IntN` and the test `Float64() < p` for a
--                  `p` in hundredths. `pickDistinct` draws until it is done: here the draws are
--                  bounded, and `IsVaried` says of the generator that the bound is enough.
--   Pipeline       backend/internal/pipeline/pipeline.go with the loop Run of
--                  backend/internal/topology/aggregator.go and forwardBroadcasts of
--                  backend/internal/server/server.go: `Step` has a constructor for each case of
--                  each select. Topology/Aggregator is the rest of aggregator.go.
--   Mrt            backend/internal/mrt: Mrt is parser.go on decoded records, with the loop of
--                  DecodeStream of reader.go and the replay of replay.go. What the third-party
--                  decoder returns is data; the parsing of a prefix is a parameter.
--   Relationships/Loading
--                  backend/internal/relationships/caida.go and names.go: `load_caida` is LoadCAIDA
--                  on the lines of the file. Base/Text is the part of strings and strconv that
--                  they use, on code points.
--   Api            backend/internal/api: Api is rest.go, envelope.go and server.go (`route` are the
--                  handlers behind the mux, `serve` adds cors), Api/Dto dto.go, Api/Mapper mapper.go
--                  and frames.go. The aggregator is a function from requests to replies.
--   Rpki/Loading   backend/internal/rpki/jsonload.go on decoded JSON values, and live.go. A builder
--                  is as Rpki has it; the parsing of a prefix is a parameter.
--   Config         backend/internal/config/config.go and limits.go: `load` is Load on the flags that
--                  the flag package has parsed, `validate` is Config.validate. Config/Settings lists
--                  each setting with its flag, its variable and its default.
--   Sources        backend/internal/server/sources.go: `build_sources` is buildSources over the
--                  loaders, where a file is what its decoding leaves.
--   Server         backend/internal/server/server.go: `setup_of` and `new_server` are the pipeline
--                  that New makes of the sources; Server/Demo runs the demo from its configuration.
--
-- Base has what they share: list and table helpers, Boolean tests, `inc64`. A Go map is an
-- association list with one value for each key, read and written by `lookup`, `insert` and `delete`;
-- a pointer to a node or an edge that the graph owns is read and written back. A counter is the bit
-- pattern of the 64-bit integer, so an increment wraps. A text that the program formats and then
-- only compares or shows is kept as the values that are formatted into it. Times are nanoseconds.
--
-- Every loop is a structural recursion on the list it reads, on the rounds that are left, or on the
-- trie it descends, so the functions are total without fuel, but for `pickDistinct` of Synth.
-- float64 is a parameter of Topology/Stats.
--
-- Not modelled: the opening of files, the pauses between events, the fixture of mrt/sample.go, the
-- goroutines of backend/internal/server/server.go as a group, the HTTP server with its mux, its
-- JSON and its log, the parsing of flags and the frontend.
pub mod Base
pub mod Bgp
pub mod ValleyFree
pub mod Relationships
pub mod Rpki
pub mod Classify
pub mod Topology
pub mod Rtr
pub mod Wshub
pub mod Synth
pub mod Pipeline
pub mod Mrt
pub mod Api
pub mod Config
pub mod Sources
pub mod Server
