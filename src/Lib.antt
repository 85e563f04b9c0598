-- ===== src/Lib.antt =====
-- Thorondor is a self-hosted service (Python) that searches the web, fetches pages and crawls sites for
-- language models. This is a model of the parts of it that decide, with theorems about them.
--
-- The parts, and how they interact. Every request first enters a slot of its route, of which there are
-- so many; where none is free it waits, or is refused. A crawl of a site is a job. The job store keeps
-- the jobs in sqlite: a request claims a job under an idempotency key, a worker takes the oldest queued
-- job, appends its results and failures one by one, and finishes it; readers page through the results;
-- a job expires and is purged after its retention. The worker runs the crawl over a frontier, which
-- holds every URL that was found, once, with the ways it was found and its state; pages are fetched in
-- the frontier's order and reported back to it, a redirect under its final URL. A URL is fetched only
-- if the robots.txt of its origin allows it, and not before its host's time has come. What a page held
-- is kept in the page cache until its retention ends, with the elements of it that are watched for a
-- change. A search merges the results of its subqueries, one for each URL, and selects those that it
-- fetches, with limits on their number and on that of each host. The chunking service cuts the texts of
-- the pages into chunks; the prefilter picks those that are sent to be ranked; and the best of these
-- become the passages of the answer, with citations, within a budget of tokens.
--
-- Prelude: what the modules share: tests on numbers, lists over the native numbers, and dictionaries as
--   association lists with one entry for a key, and stable sorting.
-- Frontier: orchestrator/crawl_policy.py, `CrawlFrontier`. `records` and `queue` of the record
--   CrawlFrontier are the two lists of the class, `by_key` its dictionary from keys to records; a record is
--   shared by the queue and the dictionary, so the model keeps records in one store and refers to them by
--   their position. Frontier and Ops hold the methods under their names; what a method asks of
--   `CrawlPolicy` and of `url_identity` is the interface UrlPolicy. Steps is the relation of one call of
--   a method, Runs its closure from the empty frontier; the other modules hold what is kept.
-- JobStore: orchestrator/crawl_job_store.py, `SqliteCrawlJobStore`. Tables holds the three tables as lists
--   of rows in the order of insertion; each method is one transaction, so it is one function on the tables,
--   with the time as an argument where the method reads the clock. `Expiry` is `_expire_due` and
--   `_cleanup`; `Claims` is `_claim`, `_get`, `_recover_interrupted`, `_claim_next` and
--   `_increment_attempt`; `Progress` is the three `_append_` methods; `Ending` is `_finish` and
--   `_request_cancel`; `Pages` is `_build_result_page` and `_result_page`. Absorbing.Step is one call of a
--   method. An exception is the error of a Result, and the tables are then as the rolled back or committed
--   transaction leaves them.
-- Robots: orchestrator/robots_policy.py. `Octets` is `_normalize_octets`, `Glob` the loop of
--   `RobotsRule.matches`, `Rules` the two methods of a rule and `RobotsSnapshot.allows`. `Groups` is
--   `_RobotsParser` on lines that are split into a field and a value, `Snapshots` the rest of its `parse`,
--   `from_http` and `RobotsCache`. Texts are lists of code points. An uncaught exception is none.
-- Selection: orchestrator/selection.py, `select_with_diagnostics` and its helpers under their names; the
--   fields of SelectionState are those of `_SelectionState`, a set being a list that is only asked for its
--   members. The comparisons of floats in the order of the candidates are parameters.
-- Politeness: orchestrator/politeness.py, `record`, `cooldown_failures` and the end of `wait` of
--   `HostPoliteness`; next_allowed and failures are its dictionaries.
-- Chunking: semantic-chunking-service/chunking/cluster_semantic.py, the methods `_calculate_chunk_reward`,
--   `_compute_optimal_groupings`, `_fill_dp_table`, `_evaluate_dp_range`, `_greedy_fallback` and
--   `_greedy_merge` of `ClusterSemanticChunker`. A Cell is `dp[i]` with `parent[i]`.
-- PageCache: orchestrator/page_cache.py, `SqlitePageCache`. CacheTables holds its two tables; each method is
--   one transaction and one function on them, under its name without the underscore. Steps.Step is one call
--   of a method, or the DELETE of a read apart from its SELECT; Views.view is what a reader of a key sees
--   at a time, Clears is about `_clear_url`.
-- Admission: orchestrator/resource_policy.py. `Policy` is `ResourcePolicy` with its `__post_init__`;
--   AdmissionPool is `_AdmissionPool`, with asyncio's semaphore as its number of permits and its waiters.
--   The coroutine `slot` is cut at its waits: `enter` up to the first, `resume` after a wake-up, `time_out`
--   after a timeout, and `leave` its `finally`. Runs.Move is one of these, Runs.Reach what they reach from
--   `RuntimeAdmission`.
-- Prefilter: orchestrator/prefilter.py, `CandidatePrefilterImpl.filter`; `Picks` is about its first loops,
--   `Filling` about its last one. A SourceKey is what `_source_key` returns.
-- Assembly: orchestrator/assembly.py. Assembled holds the locals of `assemble`; `cut` is `_truncate`, the
--   other functions have their names. The texts that are cut are lists of code points.
-- TargetWatch: orchestrator/target_watch.py. TargetWatch has the methods of `_TreeParser`, each a function
--   of the parser, and `feed` for a sequence of their calls; `Verdicts` is `_public`, `_state_matches` and
--   `evaluate_watch`. An exception is none.
-- Merge: orchestrator/merge.py. Merging holds the dictionaries of `merge_dedup`; `merge_all` is its two
--   loops, on the results with their subqueries.
--
-- Bounds and fuel. Numbers are natural numbers, but for the fields of `ResourcePolicy`, and times are
-- whole seconds, or in `ResourcePolicy` whole numbers of a unit that may be smaller. Two loops are on
-- fuel. That of `RobotsRule.matches`: `rounds` gives one more than the length of the pattern for each
-- character of the target, and as many for the end; a star that is met moves the pattern on, and every
-- return to a star moves the target on, so this is enough, and the theorem on `glob` shows it. The
-- walk back over the parents of the cells, `backtrack`, has one round for each segment, which is
-- enough since the parent of a cell is a smaller index, as the theorem on `optimal_groupings` shows.
--
-- Not modelled: the database files themselves (their connections, schema versions and recovery), the tasks
-- of asyncio, network input and output, the JSON text of requests and results, the parsing of URLs and of
-- HTML, regular expressions, and the arithmetic of floats: scores and similarities are of a type with an
-- order that is a parameter. What Python does with texts is given by the records Unicode, Texts and Words.
-- The pipelines that call the modelled parts, the other services of the repository and the command line
-- tool are not modelled.
pub mod Prelude
pub mod Frontier
pub mod JobStore
pub mod Robots
pub mod Selection
pub mod Politeness
pub mod Chunking
pub mod PageCache
pub mod Admission
pub mod Prefilter
pub mod Assembly
pub mod TargetWatch
pub mod Merge
