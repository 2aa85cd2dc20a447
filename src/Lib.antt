-- ===== src/Lib.antt =====
-- A news aggregator for Afghanistan: a worker polls feeds, stores and groups their articles, decides
-- what is breaking news and notifies devices. This library models the Go core of its backend, under
-- backend/internal, as functions on explicit tables and proves what makes it correct.
--
-- The parts, and the files that model them:
-- - Model: the kinds and records of model/model.go. Times and durations are nanoseconds as native
--   numbers, a missing time is `none`, and a text stored as NULL is `none`.
-- - Schedule: HealthScore and NextPollDelay of store/feeds.go. A score is a number from 0, as the
--   code sets a negative one to 0; the jitter of a poll is an exact fraction.
-- - Feeds: the rows of feeds. Feeds/Writes has the statements that change one row (ReleaseFeed,
--   MarkFeedSuccess, MarkFeedFailure, RecordFetchRun, SetFeedEnabled, UpdateFeedAdmin,
--   ScheduleFeedNow), Feeds/Lease has ClaimDueFeeds in both dialects of SQL, Feeds/Activation has
--   the waves of store/activation.go, and Feeds/Import has UpsertFeedFromImport and
--   MarkFeedsMissingFromPack.
-- - Fetch: feed/fetcher. Fetch/Ssrf is the guard of ssrf.go with the dialer and the redirect check
--   of fetcher.go, Fetch/Limiter the limiter of requests per domain, Fetch/Breaker the circuit
--   breaker, and Fetch/Client the function Fetch, which passes all three on its way to a response.
--   Acquire of the limiter is two steps, because it gives up its mutex while it waits.
-- - Articles: store/articles.go. Articles/Rows has the tables, flags and reclassification,
--   Articles/Dedup has FindDuplicateArticle and InsertArticle with the race of two workers, and
--   Articles/Cluster has AssignCluster and the queries on clusters.
-- - Push: store/push.go and enqueuePush of ingest/pipeline.go.
-- - Breaking: breakingScore, decideBreaking and safetyCategoryOf of ingest/pipeline.go. Scores are
--   hundredths of the weights of the code.
-- - Classify: Classify, DetectProvince and dedupeCategories of feed/classify/classify.go.
-- - Ingest: the pipeline of ingest/pipeline.go. Ingest/Items prepares an item and finds its
--   cluster, Ingest/Run is the loop of ingestCandidates, Ingest/FetchErrors is handleFetchError,
--   Ingest/Process is ProcessFeed, Ingest/Reading the same with the parser of feed/parser, Ingest/Cycle
--   is RunOnce, and Ingest/Topic is feed/normalize/topicmatch.go.
-- - Query: store/articles_query.go. Query/Cursor has the tokens of cursors, Query/Filter the WHERE
--   clause as a test of one row (articleWhere, searchWhere, digestExclusion) and scoreExpr, Query/Page
--   has QueryArticles and a client that follows its tokens, and Query/Diversity has
--   ApplySourceDiversity.
-- - Text: feed/normalize. Text/Canonical has CanonicalizeURL on the parts of a URL, whose query
--   Text/UrlQuery takes apart as url.ParseQuery does, Text/Sanitize the walk of SanitizeHTML, from the
--   tree of html.Parse to what it writes, and Text/Plain has StripHTML, Truncate, ParseDate and the
--   tests of addresses.
-- - Parser: feed/parser. Parser/Xml is parseTree of xmltree.go on the tokens of encoding/xml, with a
--   stack of open elements in place of pointers; Parser/Read has the functions that read a tree;
--   Parser/Items is candidateFromItem of parser.go, Parser/Rss and Parser/Atom read the dialects, and
--   Parser/Feed is Parse, which chooses between them.
-- - Pack: feed/opml/opml.go and store/imports.go. Pack/Outline and Pack/Parse read the outlines of a
--   feed pack, and Pack/Import has ImportFeedPack, which calls the statements of Feeds/Import.
-- - Api: httpapi. Api/RateLimit is the limiter of middleware.go; Api/Session has the sessions, roles
--   and requireAuth of admin.go, Api/Login its login with the operators of store/admin.go, Api/Console
--   its handler for changes of an article, and Api/PushSend its handler that sends a push. A handler
--   takes the tables, with the statements that fail, to the tables and an answer. Api/Public has
--   parseArticleQuery and the other parsers of parameters in server.go, Api/Pages the public lists of
--   server.go, Api/Related those of related.go, Api/Coverage the handlers that show a cluster or an
--   article, with the stories of rss.go, and Api/Caching the replies with a tag of caching.go.
-- - Base: helpers that the parts share: tests, lists, counting, sorting, maps and texts.
-- - Examples: the theorems at concrete inputs.
--
-- A table is a list of its rows, a statement a function on it; ORDER BY is a stable sort. In the
-- loop over items and in enqueuePush, a statement that can fail has a Boolean that says whether it
-- does, and what the code does then is modelled; elsewhere statements are taken to succeed. Loops
-- are structural recursion over the rows or items, but for three with fuel: the rounds of
-- ApplySourceDiversity, for which the number of cards is enough; the redirects inside redirects of
-- CanonicalizeURL, for which one more than the bytes of the text is enough; and the requests of a
-- client that follows the pages, for which one more than the articles is enough.
--
-- Parameters are what the source does not define: the resolver, net/http, url.Parse and gzip, the
-- sender of notifications, sha1 and the functions of strings. The pipeline takes what it calls of
-- the packages normalize, classify and parser as operations of the records Language and Worker;
-- Ingest/Reading gives the worker the model of the parser. The classifier takes its regular
-- expressions and reference tables as operations of Classifier.
-- Tokens and URLs are lists of bytes. The tokens of the limiter of requests are counted in whole
-- units, where the code has float64. base64, JSON, HMAC, url.Parse, html.Parse and the escaping of HTML
-- are parameters, with what is documented of them as hypotheses where a theorem needs it.
-- The text of a parsed tree is measured in bytes of UTF-8. time.Parse gives nanoseconds from 1970, and 0
-- for a time before, which ParseDate refuses as the code does.
-- Not modelled: the decoder of encoding/xml, the home page, the source directory, the trending stories,
-- the notifications, the XML of the RSS feed and the other handlers of the HTTP API, which are glue over
-- the store, the reads that hydrate cards, the cut of a sanitized text at 60,000 characters, normalized
-- titles and languages of feed/normalize, logging and metrics, and the wiring of the commands.
pub mod Base
pub mod Model
pub mod Breaking
pub mod Schedule
pub mod Feeds
pub mod Fetch
pub mod Articles
pub mod Push
pub mod Classify
pub mod Ingest
pub mod Text
pub mod Query
pub mod Pack
pub mod Parser
pub mod Api
pub mod Examples
