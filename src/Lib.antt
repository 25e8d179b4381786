-- ===== src/Lib.antt =====
-- A verification library for the PHP extension of Couchbase (php-couchbase), written in C.
--
-- The extension turns PHP calls into commands of libcouchbase. A bucket operation reads its
-- arguments by a specification string (paramparser.c), schedules one command for each document id
-- (src/couchbase/bucket/*.c), waits while the callbacks push the results into a linked list
-- (opcookie.c), and makes documents of them (src/couchbase/document.c). CAS values and mutation
-- tokens cross the boundary as text in base 36 (src/couchbase/base36.c, mutation_token.c), and
-- values through the user's transcoder (transcoding.c). Mutation tokens are gathered into a
-- mutation state (src/couchbase/mutation_state.c). Connections are shared between requests through
-- the engine's persistent list (src/couchbase/pool.c).
--
-- Files and the code that they model:
--   Base             shared names, tests, lists and byte strings
--   Base36           src/couchbase/base36.c: pcbc_base36_decode_str is `decode_str`, and so on;
--                    RoundTrip and Bounds hold its theorems
--   OpCookie         opcookie.c over an explicit memory of results; Chain and Linked are the refinement
--                    to sequences, Delivered the results of a list of responses, Destroy the release of
--                    the memory
--   Zval             PHP values and arrays
--   Params           paramparser.c: Begin is pcbc_pp_begin, `next` is pcbc_pp_next; Begin/Fresh,
--                    Iterate and Left hold the theorems
--   MutationToken    src/couchbase/mutation_token.c
--   MutationState    src/couchbase/mutation_state.c: `add_token` is pcbc_add_token, `add` and `from` the
--                    methods, `export_for_search` the form for the search service; Tokens, Order,
--                    Sources and Export hold the theorems; Vectors is the form for N1QL
--   Lcb              what the extension calls and the repository does not hold, as parameters
--   Transcoding      transcoding.c
--   Document         src/couchbase/document.c, with the CAS functions of base36.c
--   Bucket           src/couchbase/bucket/{store,get,counter,remove,unlock,touch}.c: Results holds
--                    the callbacks and the proc functions, Schedule the loop that the methods share,
--                    Store, Get and Other the rounds and methods (Store/Given and Store/Cas
--                    follow the CAS of a document), Durability durability.c
--   Decimal          numbers as the C library and the engine print them
--   Pool             src/couchbase/pool.c: Connstr the connection strings, Registry, Idle,
--                    Safety, Dangling, Sweep and Reach the theorems on the persistent list
--   BasicCoder       couchbase.c: basic_encoder_v1 is `encode` and `basic_encoder_v1`; Functions holds
--                    the PHP functions around it and the settings; Packing, RoundTrip, Scalars and
--                    Bucketwise hold the theorems
--   Subdoc           src/couchbase/lookup_in_builder.c, mutate_in_builder.c, bucket/subdoc.c and
--                    document_fragment.c: LookupIn and MutateIn are the builders, Request the request
--                    and its fragments; Paths, Built, Multivalue and Single hold the theorems
--   Structures       the maps, lists, sets and queues of src/couchbase/bucket.c: Element holds the
--                    methods on one element, Scan those that read the document; Writes, Queue, Sets
--                    and Retrieve hold the theorems on the commands that they send
--   Timeouts         Bucket::__set and Bucket::__get; Names holds the theorems
--   Query            View is src/couchbase/view_query.c, Spatial spatial_view_query.c, N1ql n1ql_query.c and
--                    analytics_query.c; Options, View/Calls and View/Encode hold the theorems
--   Search           src/couchbase/search: DateRange, Match, MatchPhrase, NumericRange, Term, TermRange
--                    and Text are the queries of these names (Text is query_string_query.c), Pattern
--                    the prefix, regexp, wildcard and boolean field queries, and Request is
--                    src/couchbase/search_query.c; Compound holds the queries that are made of others,
--                    Terms those of document ids and phrases, Geo the geographic ones, Facets the
--                    facets, Factories the static methods of SearchQuery; DateRange/Flags,
--                    Compound/Parts and Factories/Made hold the theorems
--   Auth             Classic is src/couchbase/classic_authenticator.c, Password
--                    password_authenticator.c; Classic/Buckets and Classic/Named hold the theorems
--   Cluster          src/couchbase/cluster.c, with pcbc_bucket_init (bucket.c) and
--                    pcbc_cluster_manager_init (cluster_manager.c); Shared and Unnamed hold the theorems
--   Http             src/couchbase/bucket/http.c: `http_request` is pcbc_http_request and
--                    `request_by_number` the method; Replies holds the theorem
--   Managers         Designs and Indexes are src/couchbase/bucket_manager.c with bucket_manager/*.c and
--                    n1ql_index.c, Clusters and Users cluster_manager.c and
--                    cluster_manager/user_settings.c; each has a module for its theorem
--   Rows             src/couchbase/bucket/{n1ql,view,cbft}.c: N1ql, Views and Fts, with what they share
--                    in the parent; Dispatch is Bucket::query of bucket.c; Ended, Served and
--                    Dispatch/Encoded hold the theorems
--   Examples         tests, and the theorems at concrete inputs
--
-- Modelling choices. The PHP 7 branches of the source are modelled. A long is its 64-bit pattern,
-- and narrowing to a C type is a remainder. Undefined behaviour (a NULL pointer followed, a variable
-- read before it is set, a write past an array) is an outcome of its own. The methods of
-- src/couchbase/bucket/*.c repeat one text; Bucket/Schedule has it once, with the parts in which the
-- methods differ as arguments. Log output and the release of memory, other than in
-- opcookie_destroy, are not modelled.
--
-- Fuel. The scheduling loop has one round more than pcbc_pp_keycount gives; the loop over results
-- one round more than there are results; the loop of pcbc_base36_encode_str is bounded by its
-- buffer. The theorems below say that this is enough. The loop that prints a number in decimal has
-- 20 rounds, one for each digit of the largest 64-bit number.
--
-- The default transcoder is that of a build with zlib and without igbinary, on a little-endian machine;
-- its test of the compression factor, on doubles, is a parameter. The decoder takes its length as an int:
-- texts of 2 ^ 31 bytes or more have no result there. A method that makes a sub-document
-- command gives the list of the commands that were sent, the new one last.
--
-- A cluster and a bucket reach libcouchbase through the pool: what its client answers depends on the
-- credentials that the authenticator generates, and the key of a connection on their MD5, which is a
-- parameter on all the bytes that were fed to it. A manager's method gives the commands that it sent
-- and what it leaves; a reply is read as the text of its body or as what the engine's JSON makes of it.
-- The functions of php_array.h and of the engine are parameters, and their use on a value that is no
-- array is an outcome of its own. `%*s` pads with spaces, as the engine's spprintf does.
--
-- Not modelled: the objects of exceptions (exception.c), logging, the release and the debug output of
-- objects and class registration; fastlz and contrib, which are other projects' code.
mod Base
pub mod Base36
pub mod OpCookie
pub mod Zval
pub mod Params
pub mod MutationToken
pub mod Lcb
pub mod Transcoding
pub mod Document
pub mod Bucket
pub mod Decimal
pub mod MutationState
pub mod Pool
pub mod BasicCoder
pub mod Subdoc
pub mod Structures
pub mod Timeouts
pub mod Query
pub mod Search
pub mod Auth
pub mod Cluster
pub mod Http
pub mod Managers
pub mod Rows
mod Examples
