-- ===== src/Lib.antt =====
-- Verification of vespasian, a tool that discovers the APIs of a web application. It crawls the
-- application or imports a capture of its traffic, classifies the requests, and writes a
-- specification of the APIs that it found.
--
-- The parts that are modelled, and where:
--
-- - Grpcwire (internal/grpcwire/frame.go): ParseFrame, ParseFrames, ParseVarint, ParseTag and
--   WalkFields are parse_frame, parse_frames, parse_varint, parse_tag and walk_fields. The callback of
--   WalkFields is a function on a state of the caller. Grpcwire/Frames, Grpcwire/Varint and
--   Grpcwire/Fields hold the reference encoders and the proofs.
-- - Tnet (internal/tnetenc/tnetenc.go, pkg/importer/tnetstring.go): Encode is encode; the decoder that
--   the mitmproxy importer runs on a capture is decode_tnetstring_stream. Tnet/Value is the data that
--   both share, Tnet/Encode the encoder, Tnet/Reader the readers of the length prefix, the numbers and
--   the payload, Tnet/Decode the decoder, with its limits in Tnet/Decode/Limits. Floats and their text
--   are parameters.
-- - Crawl (pkg/crawl/frontier.go, pkg/crawl/engine.go, and normalizeURL of pkg/crawl/scope.go): the
--   operations Push, Pop, MarkIdle, Close, SetDFS, Len and Seen are functions on the record Frontier
--   in Crawl/Frontier, with the signal that they give to the condition variable. net/url is the
--   parameter UrlLibrary. Crawl/Frontier/Workers has the goroutines of an engine: a state is the
--   frontier, the page budget and the phase of each worker, and a step is one critical section of one
--   worker (move, step_at), so that Reachable ranges over every interleaving. The history of the
--   entries that Pop has handed out is added to the state for the statements, and nothing reads it.
-- - Rest (pkg/generate/rest/normalize.go): Rest/Segments classifies path segments and has
--   NormalizePath, Rest/Names gives parameters their names and has NormalizePathWithNames, and
--   Rest/Observed detects slugs in a population of paths and has NormalizePathsWithNames.
-- - Mediatype (pkg/mediatype/mediatype.go): Base is base, and Header is header, over the entries of a Go map
--   in an order of iteration.
-- - Packages: what the modelled code calls of net/url, strings, encoding/json, mime and crypto/sha256,
--   as one record of parameters; Packages/Samples has ASCII stand-ins for the tests.
-- - Classify (pkg/classify): Classify/Rest, Classify/Graphql, Classify/Grpc and Classify/Wsdl are the four
--   classifiers, rule by rule, each a step on a confidence and a reason (ClassifyDetail is
--   classify_rest, classify_graphql, classify_grpc and classify_wsdl). Classify/Running has the interface
--   of the classifiers and RunClassifiers (run_classifiers), Classify/Dedup has Deduplicate
--   (deduplicate) with its keys, Classify/Merging the merging of query values and keys, and
--   Classify/Responses the choice of a response. Confidences are float64 values, counted in units of
--   2 ^ -55, and their sum is rounded as the machine rounds it.
-- - Ssrf (pkg/ssrf/ssrf.go): IsPrivateIP is is_private_ip, over the networks of init; Ssrf/Validate has
--   ValidateURL (validate_url) and SafeDialContext (safe_dial_context). Crawl/Scope has scopeChecker
--   of pkg/crawl/scope.go (scope_checker), which returns a function. The resolver, the dialer and
--   the public suffix list are parameters.
-- - Origins (pkg/crawl/jsreplay.go): SameOrigin, CanonicalOrigin, ResolveTargetOrigin and ValidateFullURL are
--   same_origin, canonical_origin, resolve_target_origin and validate_full_url.
-- - Concat (pkg/crawl/jsreplay.go): the paths that scripts build by concatenation, up to
--   ExtractStaticConcatPaths (extract_static_concat_paths in Concat/Extract). Concat/Scan has the
--   scanners of literals and operands, Concat/Chain the chains (parse_plus_chain) and the calls of
--   concat (parse_concat_args), and Concat/Clean has clean_concat_path; Concat/Bounds and
--   Concat/Fuel are about the indices and the fuel of the scanners. What the regular expressions match
--   is a parameter.
-- - Pipeline (internal/pipeline): Pipeline/ApiTypes has DetectAPIType and ClassifiersForType, Pipeline/Gate
--   the two validators that stand before the probes, with the variables of their closures and the
--   lines that they write, and Pipeline/Stage the part of ClassifyProbeGenerate up to the classified
--   requests, which calls RunClassifiers and Deduplicate.
-- - Importer (pkg/importer/mitmproxy.go, helpers.go and options.go): a native flow dump is read by
--   import_native (importNative), a value becomes a flow by flow_from_native_state and a request by
--   parse_flow, and import_with_options (ImportWithOptions) limits and filters the requests.
--   Importer/Queries has extractQueryParams with CapQueryValues of pkg/crawl/capture.go.
-- - Prelude has numbers, lists, strings as lists of bytes, splitting and joining, decimal numerals, and
--   errors as values. The names of the libraries that the modules use are passed on here.
--
-- The parts meet as in the program: an importer's flows and the crawl's observations become
-- requests, the pipeline classifies and merges the requests and asks the gate for each URL that it
-- probes, and the paths of requests are normalized for the generated specification. Importer calls
-- Tnet, Pipeline calls Classify and Origins, Crawl calls Ssrf, and Classify calls Mediatype; the other
-- parts do not call one another.
--
-- Bytes are natural numbers, and a slice that the code returns is the list of its bytes. Machine
-- integers are natural numbers or integers with the tests and the wrap-around that the code writes;
-- where a sum cannot wrap, a comment at the definition says why. The queue's `active` is an int that
-- counts workers, and cannot overflow.
--
-- Fuel: frames_loop, walk_loop, list_loop, dict_loop, native_loop and the loops of Concat run on the
-- length of their input, which is enough since each round takes one byte at least; varint_loop has ten rounds, as the code has.
-- promotion_rounds has the eight rounds of maxPromotionRounds, after which the code goes on as well.
--
-- Not modelled: network, browser and file I/O, the texts of error messages, the memory that a slice
-- keeps, the parsers of HTML, JavaScript, JSON and XML, and the generators of OpenAPI, GraphQL, gRPC and
-- WSDL documents.
pub mod Prelude
pub mod Packages
pub mod Grpcwire
pub mod Tnet
pub mod Crawl
pub mod Mediatype
pub mod Classify
pub mod Importer
pub mod Ssrf
pub mod Concat
pub mod Origins
pub mod Pipeline
pub mod Rest
