-- ===== src/Lib.antt =====
-- Verification of pingap, a reverse proxy built on pingora.
--
-- The program. A server (src/proxy/server.rs) accepts a request, chooses one of its locations
-- by host and path, lets the plugins of the location answer or change the request, forwards it
-- to a peer of the location's upstream, and counts it at the server, the location and the
-- upstream until it ends. The locations of a server are sorted by weight when the configuration
-- is loaded. Locations and upstreams are kept in global maps that a reload replaces. Responses
-- may be kept in a cache, in memory or in files.
--
-- The files:
--
-- Common: names of the standard library, the tests on numbers, texts as lists of code points
-- with the functions of str, hash maps as association lists, results, list lemmas, and counters
-- as bit patterns of 32 and 64 bits.
--
-- External: the crates regex, http and url, network names and the files of certificates as
-- records of operations, parameters of all that uses them. Other crates are parameters in the
-- files that need them: the plugins of a server and the clock in Server/State and
-- Server/Plugins, the encoding of numbers as bytes in Cache/Object, networks and addresses in
-- Plugin/IpRestriction. What a theorem relies on is a record of laws, as IsBytes and
-- IsUriParser.
--
-- Config: pingap-config/src/common.rs, the configuration of servers and locations (Conf), the
-- weight of a location (Weight), the removal of an entry from the whole configuration (Pingap),
-- the reading of its text with the includes (Toml), and its checks (Validate).
--
-- Certificate: pingap-certificate/src, the reading of certificates (X509: lib.rs,
-- tls_certificate.rs and chain.rs), the store by domain, the choice for a server name and the
-- check of validity (Store: dynamic_certificate.rs and validity_checker.rs), and the signed
-- certificates (SelfSigned: self_signed.rs).
--
-- Util: pingap-util/src/lib.rs (Paths), format.rs (Format) and datetime.rs (Datetime), the text
-- of durations and sizes, and latencies.
--
-- Logger: pingap-logger/src/access.rs, the reading of a log format (Format) and the text of a
-- line (Entry).
--
-- Core: pingap-core/src/ctx.rs, with its values by name and the server timing (Ctx/Values),
-- plugin.rs and http_response.rs, the context of a request, the interface of plugins and their
-- answers, and the limit of ttl_lru_limit.rs (Limit).
--
-- Http: pingap-core/src/http_header.rs, lookups in the headers, the cookies and the query of a
-- request, the removal of a query parameter (Query), and the values that stand for others
-- (Values).
--
-- Location: pingap-location/src/regex.rs (Capture) and location.rs: the selectors of hosts and
-- paths (Selector), new, match_host_path, rewrite, the limits and the counters of a location
-- (Route), and the global map with try_init_locations (Registry).
--
-- Upstream: pingap-upstream/src/upstream.rs, new_http_peer with its hash key, completed and the
-- lookup of an upstream.
--
-- Server: src/proxy/server.rs: try_init_server_locations and the choice of a location (Routes),
-- handle_request_plugin (Plugins), early_request_filter (Early), request_filter,
-- proxy_upstream_filter, upstream_peer and request_body_filter (Filters),
-- set_append_proxy_headers and connected_to_upstream (Proxy), the filters of responses and
-- fail_to_proxy (Responses), and the part of logging that changes a count (Logging). State
-- holds the counters of the server, the locations and the upstreams, and accept_request and
-- end_request of pingap-performance/src/process.rs. Balance is the step relation of requests
-- that start and end in any order.
--
-- Cache: pingap-cache/src: the bytes of a cached object (Object), the interface of a storage
-- (Storage), reads of a range (Hit), HttpCache (Http), and the storages tiny.rs (Tiny) and
-- file.rs (File).
--
-- Plugin: pingap-plugin/src, a module for each plugin: ip_restriction.rs with
-- pingap-util/src/ip.rs, key_auth.rs, basic_auth.rs, limit.rs, combined_auth.rs, csrf.rs,
-- redirect.rs, accept_encoding.rs, response_headers.rs, referer_restriction.rs and
-- ua_restriction.rs.
--
-- Tests: fixtures, runs on concrete inputs, and the instances of the theorems.
--
-- How code corresponds to definitions. A struct is a record with its fields, an enum a data
-- type. A method that changes its object returns the changed one; a handler takes and returns
-- the state, the session and the context, with a result for the error path. A request is the
-- session's request header, and a name of a header is in lower case, as the crate http keeps
-- it. Atomic counters are the numbers below 2 ^ 32 or 2 ^ 64 that stand for their bit patterns,
-- and adding and taking one wraps around as it does in the code. A handler is one step: two
-- handlers never interleave within one call, while the calls of different requests come in any
-- order. The loop over the keys of a log format runs on fuel, one round for each byte of the
-- format and one more; all other loops of the source that are modelled go over a list, or over
-- the digits of a number that is printed, and are structural recursion.
--
-- Not modelled: the sending of responses, timers, tracing and metrics; what pingora does
-- between the handlers; the load balancing of pingora, which is a parameter; the files and the
-- format of the configuration; the differences of two configurations; the parsers of
-- certificates and the settings of TLS; the other plugins; and the services in the background.
pub mod Cache
pub mod Certificate
pub mod Common
pub mod Config
pub mod Core
pub mod External
pub mod Http
pub mod Location
pub mod Logger
pub mod Plugin
pub mod Server
pub mod Tests
pub mod Upstream
pub mod Util
