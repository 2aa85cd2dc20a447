-- ===== src/Ingest/Reading.antt =====
-- backend/internal/ingest/pipeline.go: ProcessFeed with the parser of feed/parser, whose decoder of XML is
-- a parameter.
use afghanistan_news.Base.{
  ℕ, String, true, false, Option, none, some, List, [], ◌∷◌, ◌++◌, ◌≡◌, refl, ap, ◌∙◌, All, str_eq,
}
use afghanistan_news.Model.{Feed}
use afghanistan_news.Text.Plain.{PlainLib}
use afghanistan_news.Fetch.Client.{fetched, Response}
use afghanistan_news.Parser.Xml.{XmlNode, Token, parse_tree}
use afghanistan_news.Parser.Read.{name_of, document_root, child}
use afghanistan_news.Parser.Rss.{Result}
use afghanistan_news.Parser.Feed.{parse}
use afghanistan_news.Parser.BrokenLaws.{stripped, broken_feed-Agree}
use afghanistan_news.Parser.AgreeLaws.{Agree}
use afghanistan_news.Parser.FeedLaws.{CanBeShown, parse-CanBeShown}
use afghanistan_news.Ingest.Process.{Parsed, Worker, Visit, World, process_answer, process_parsed}

-- The tokens of a body, and the error that ends them if it is not io.EOF.
abbrev pub Decoder : Type 0
Decoder = List ℕ → List Token × Option String

abbrev pub parsed_of : Option Result → Parsed
parsed_of none = record { failed = true; candidates = [] }
parsed_of (some r) = record { failed = false; candidates = r.candidates }

-- parser.Parse on a body.
unfoldable pub parse_body : PlainLib → ℕ → Decoder → List ℕ → Parsed
unfolding parse
parse_body l now decode body = parsed_of (parse l now (decode body).0 (decode body).1)

-- What the worker does with a body that was parsed.
after_parse :
    (w : Worker) (feed : Feed) (v : Visit) (resp : Response) (db : World) (r : Result)
    → w.parse resp.body ≡ parsed_of (some r)
    → process_answer w feed v (fetched resp) db ≡ process_parsed w feed v resp r.candidates db
unfolding process_answer
after_parse w feed v resp db r e = rw e refl

-- A worker that uses the parser of feed/parser and gets an RSS document which breaks off after its
-- channel has begun, whatever the error, does not count it as a failure: it ingests the candidates that
-- were read. Each has a title and a link that can be shown, and all but the last stand first among the
-- candidates of the whole document, but for the language of the feed.
pub process_answer_broken :
    (l : PlainLib) (now : ℕ) (decode : Decoder) (w : Worker) (feed : Feed) (v : Visit)
    (resp : Response) (db : World) (us : List Token) (ended : Option String) (ch : XmlNode)
    → w.parse resp.body ≡ parse_body l now decode resp.body
    → str_eq
        (l.lower (name_of (document_root (parse_tree (decode resp.body).0 (decode resp.body).1).0)))
        "rss"
      ≡ true
    → child l
        (document_root (parse_tree (decode resp.body).0 (decode resp.body).1).0)
        ("channel" ∷ [])
      ≡ some ch
    → (r : Result) × (r' : Result) × (process_answer w feed v (fetched resp) db
        ≡ process_parsed w feed v resp r.candidates db)
      × All (CanBeShown l) r.candidates
      × (parse l now ((decode resp.body).0 ++ us) ended ≡ some r')
      × Agree (stripped r.candidates) (stripped r'.candidates)
unfolding parse_body
process_answer_broken l now decode w feed v resp db us ended ch same rss channel =
    let read = (decode resp.body).0 in
    let broken = (decode resp.body).1 in
    let b = broken_feed-Agree l now read us broken ended ch rss channel in
    (
      b.0,
      b.1,
      after_parse w feed v resp db b.0 (same ∙ ap parsed_of b.2),
      (parse-CanBeShown l now read broken b.0 b.2).0,
      b.3,
      b.4,
    )
