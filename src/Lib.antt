-- ===== src/Lib.antt =====
-- A verification library for flx, a finder, checker and rotating server of public proxies.
--
-- The program fetches lists of proxies, drops the endpoints it has seen, probes what is left,
-- filters and counts the working ones toward the requested quotas, and prints them or serves
-- requests through a rotating pool of them. Each part that holds its own logic has a module tree.
--
--   Base           Booleans, lists, options, byte strings, dictionaries, and `Outcome`, in which an
--                  index out of range is the value `panicked`.
--   Proxy          src/proxy/models.rs. Address is `Ipv4Addr`; Protocol is `Anonymity`, `Protocol` and
--                  the family tests of src/filters.rs and src/cli/quotas.rs; Text is their
--                  `Display` and `FromStr`; Model is `Proxy` and the records inside it; Float is
--                  what the code uses of `f64`.
--   Fetcher.Dedup  src/fetcher/dedup.rs. The hash set is a parameter, the record `HashSet` of Dedup/Hash.
--   Fetcher.Cache  src/fetcher/cache.rs. Rows is the byte format of `store_rows` and `decode_rows`; Store
--                  is the memo, `load_rows`, and the write and rename of `store_rows`; Orphans is
--                  `Cache::new` with `clean_orphaned_tmp`.
--   Rotator.Pool   src/rotator/pool.rs. One function for each method of `RotatorPool`.
--   Rotator.Server src/rotator/server.rs, with the Pool. Head is the read loop of `read_request`; Request
--                  is the rest of it; Upstream is `open_upstream` and `connect_http`, which call the
--                  Negotiators; Connection is `handle_connection`, one connection by itself.
--   Cli            src/cli/quotas.rs. Quotas has one function for each method of `QuotaEnforcer`; Requests is
--                  the parsing of the types on the command line.
--   Health         src/health.rs. The parent has the records, `apply_record` and `score_stats`; Store has
--                  `open`, `load_state` and `record`, over the bytes of the file.
--   Negotiators    src/negotiators. Wire is the connection, as the bytes that arrive and those sent; Buffer
--                  is writing a packet into an array; Socks4, Socks5 and Https are
--                  src/negotiators/socks4.rs, src/negotiators/socks5.rs and src/negotiators/https.rs; Head
--                  is the head of an answer to CONNECT, read byte by byte.
--   Geolookup      src/geolookup/ip_type.rs: `IpType::classify`, in Geolookup.IpType.
--   Filters        src/filters.rs. The parent has the predicates; Sort is `sort_proxies`, with the stable sort
--                  of the standard library by insertion, which agrees with it where the comparison
--                  is a total order (of NaN keys it is not); Stream is `Filtered` and `BufferedStream`;
--                  Shuffle is `shuffle_proxies`, with its seed passed in.
--   Validator      src/validator. JudgePool is src/validator/checker/judge_pool.rs; Jobs, Work and Groups
--                  are src/validator/work.rs: `singleton_jobs`, the probe of `do_work` and
--                  `do_group_work`, and the aggregator of the groups. Judgement is what an answer says and
--                  Probe the loops of both probes, src/validator/checker/support.rs and
--                  src/validator/tunnel/mod.rs. Manager is the start of `validate_with_health`,
--                  src/validator/mod.rs: the checks and the places of the groups.
--
-- Conventions. A state is a record, and a method that changes it returns the new state; a method
-- under a lock is one step. A number is a ℕ. The wrap-around of a machine integer is in the
-- definition where a run can reach it or a file can force it: `% 2 ^ 32` for the count of rows,
-- `% 2 ^ 64` for the cursor of the pool and for hashes. Counters of events are unbounded: `failures` of
-- a pool entry, which never passes its limit of 3 in a valid pool, `done` and `passed` of the
-- validator, and the hits of a quota or of the memo, which count up by one per probe, proxy or call. Time
-- is a number of nanoseconds, passed in. A write that fails is one of which nothing arrived, but for the
-- files, where what a failed write left is passed in. Random draws and the results of system calls
-- are passed in too.
-- Recursion is structural: the loop of `decode_rows` runs on the row count that the file gives, and
-- the scan of `pick` on the length of the pool, so neither needs fuel beyond what the source counts. The loops of the
-- probes run on the attempts that the configuration gives, and those that read a stream on the reads.
-- A deadline that passes is a value of what happens outside, as is the answer of a probe to `do_work`.
-- What the tasks of the validator do at once is the order of the messages to the aggregator, which is
-- any; a step of one task on the shared state is not interrupted.
--
-- Packages are parameters with named laws: `hashbrown::HashSet` in Fetcher.Dedup, `serde_json` in
-- Health.Store. The parsing of addresses is a parameter of the handshakes, of which SOCKS5 relies on IPv6
-- addresses having sixteen octets. `base64`, `httparse` and `hyper::Uri` are functions
-- that the server and the CONNECT handshake take, without laws. `f64` is the record `Float`, and no
-- law of it is assumed where it is not named.
--
-- Not modelled: the network and TLS, the terminal, the text of logs, the databases of addresses, the
-- hash of a list of protocols, an address of a judge that its pool has taken and `support_tunnel` cannot
-- parse, and the parts that only wire these together.
pub mod Base
pub mod Proxy
pub mod Fetcher
pub mod Rotator
pub mod Cli
pub mod Health
pub mod Negotiators
pub mod Filters
pub mod Geolookup
pub mod Validator
