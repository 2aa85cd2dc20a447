-- ===== src/Examples/Environments.antt =====
-- Concrete environments of the fetcher and of the pipeline for the examples.
use afghanistan_news.Base.{String, true, false, none, some, [], ◌∷◌}
use afghanistan_news.Base.Text.{split_on}
use afghanistan_news.Model.{Candidate}
use afghanistan_news.Fetch.Ssrf.{v4, Net}
use afghanistan_news.Fetch.Breaker.{new_breaker}
use afghanistan_news.Fetch.Limiter.{new_domain_limiter}
use afghanistan_news.Fetch.Client.{
  fetched, Url, HttpResponse, bytes, answered, Fetcher, Exchange, Response,
}
use afghanistan_news.Ingest.Items.{Language, Options, Moment}
use afghanistan_news.Ingest.Process.{Visit, Worker, World}
use afghanistan_news.Examples.Fixtures.{
  feed_db, no_articles, no_push, no_faults, push_options, outside,
}

abbrev pub net : Net
net = record { split = λ _. none; lower = λ s. s; resolve = λ _. some (v4 0x5DB8D822 ∷ []) }

abbrev pub fetcher : Fetcher
fetcher = record {
  breaker = new_breaker;
  limiter = new_domain_limiter 2 30;
  max_bytes = 4;
  allow_private = false;
}

abbrev pub rss : Url
rss = record { scheme = "https"; host = "kabul.example"; hostname = "kabul.example" }

abbrev pub reply : HttpResponse
reply = record {
  status = 200;
  etag = "e";
  last_modified = "";
  retry_after = 0;
  content_length = some 3;
  stream = bytes (60 ∷ 114 ∷ 62 ∷ []);
}

abbrev pub exchange : Exchange
exchange = record {
  url = some rss;
  net = net;
  waited = true;
  request_ok = true;
  answer = answered reply;
  asked_at = 1;
  entered_at = 2;
  answered_at = 3;
}

abbrev pub response : Response
response = record { status_code = 200; body = 60 ∷ 114 ∷ 62 ∷ []; etag = "e"; last_modified = "" }

abbrev pub language : Language
language = record {
  fields = split_on b' ';
  trim = λ s. s;
  text_lt = λ _ _. false;
  canonicalize_url = λ s. some (s, s);
  strip_html = λ s. s;
  truncate = λ s _. s;
  sanitize_html = λ s. s;
  detect_language = λ l _ _. l;
  normalized_title = λ s. s;
  fingerprint = λ s _. s;
  content_hash = λ s _. s;
  first_image = λ _. "";
  classify = λ _ _ _ _. ([], []);
  opportunity = λ _ _ _. none;
  has_urgency_marker = λ _. true;
}

abbrev pub options : Options
options = record {
  max_items_per_run = 60;
  max_breaking_per_run = 2;
  push_enabled = true;
  push = push_options;
}

abbrev pub moment : Moment
moment = record {
  now = 1000;
  evaluated = 1001;
  pushed = 1002;
  insert_fails = false;
  find_fails = false;
  seeds_fail = false;
  assign_fails = false;
  count_fails = false;
  flag_fails = false;
  push_faults = no_faults;
  racing = λ db. db;
}

abbrev pub candidate : String → Candidate
candidate title = record {
  external_guid = title;
  title = title;
  link = title;
  summary = "A summary.";
  content = "";
  image_url = "";
  author = "";
  language = "";
  published_at = some 900;
  updated_at = none;
  raw_categories = [];
}

abbrev pub worker : Worker
worker = record {
  lang = language;
  outside = outside;
  options = options;
  adaptive = true;
  quarantine_after = 12;
  parse = λ _. record { failed = false; candidates = candidate "A dam opens" ∷ [] };
}

abbrev pub world : World
world = record { feeds = feed_db; articles = no_articles; push = no_push }

abbrev pub visit : Visit
visit = record {
  answer = fetched response;
  draw = 500;
  now = 1000;
  marked = 1001;
  checked = 1002;
  scheduled = 1003;
  written = 1004;
  moment = λ _. moment;
}
