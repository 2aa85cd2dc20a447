-- ===== src/Examples/Parsing.antt =====
-- The reader of feeds at concrete inputs.
use afghanistan_news.Base.{
  String, false, none, some, List, [], ◌∷◌, ◌++◌, ◌≡◌, refl, All, length, str_eq, starts_with,
  arith, if◌then◌else◌,
}
use afghanistan_news.Base.Text.{codes}
use afghanistan_news.Text.Plain.{PlainLib, replace_pairs, entities}
use afghanistan_news.Parser.Xml.{
  XmlNode, xml_node, no_nodes, and_node, Token, start_element, char_data, end_element, parse_tree,
  read_tokens, read_token, close_all, byte_length,
}
use afghanistan_news.Parser.XmlLaws.{IsLimited, parse_tree-IsLimited}
use afghanistan_news.Parser.NestedLaws.{
  Markup, nothing, run_of, element, tokens_of, text_in, nodes_in, elements, height, bytes, error_of,
  parse_tree-nested,
}
use afghanistan_news.Parser.Read.{document_root, child, escape_attr}
use afghanistan_news.Parser.Items.{from_items, candidate_from_item, item_fields, is_usable}
use afghanistan_news.Parser.Rss.{rss2, Result, parse_rss}
use afghanistan_news.Parser.Feed.{parse, by_dialect, with_counts}
use afghanistan_news.Parser.BrokenLaws.{stripped}
use afghanistan_news.Parser.AgreeLaws.{Agree}
use afghanistan_news.Parser.FeedLaws.{CanBeShown, parse-CanBeShown}
use afghanistan_news.Parser.EscapeLaws.{read_value, escape_attr_read}
use afghanistan_news.Fetch.Client.{fetched}
use afghanistan_news.Ingest.Process.{Worker, process_answer, process_parsed}
use afghanistan_news.Ingest.Reading.{Decoder, parse_body, process_answer_broken}
use afghanistan_news.Examples.Environments.{worker, world, visit, response}
use afghanistan_news.Examples.Fixtures.{kabul}

abbrev pub plain : PlainLib
plain = record {
  trim_space = λ s. s;
  lower = λ s. s;
  equal_fold = str_eq;
  is_digit = λ c. false;
  drop_tags = λ s. s;
  join_spaces = λ s. s;
  first_source = λ s. none;
  parse_url = λ s.
      if starts_with s "https://"
      then some (record { scheme = "https"; host = "kabul.example"; written = s })
      else none;
  parse_time = λ layout s. none;
  scan_number = λ s. 0;
}

abbrev leaf : String → String → Markup → Markup
leaf name text rest = element name [] (run_of text nothing) rest

abbrev story : String → Markup → Markup
story link rest = element "item" [] (leaf "title" "A dam opens" (leaf "link" link nothing)) rest

abbrev two_stories : Markup
two_stories =
    element "rss" []
      (element "channel" []
        (story "https://kabul.example/1" (story "https://kabul.example/2" nothing)) nothing)
      nothing

parse_tree-nested_example : parse_tree (tokens_of two_stories) none ≡ (
  xml_node "#document" [] (text_in two_stories) (nodes_in two_stories),
  error_of (elements two_stories) none,
)
parse_tree-nested_example =
    parse_tree-nested two_stories none (unfold elements in omega arith)
      (unfold height in omega arith) (unfold bytes byte_length in omega arith)

-- The document breaks off within its second item.
abbrev read_so_far : List Token
read_so_far =
    start_element "rss" []
    ∷ start_element "channel" []
    ∷ start_element "item" []
    ∷ start_element "title" []
    ∷ char_data "A dam opens"
    ∷ end_element
    ∷ start_element "link" []
    ∷ char_data "https://kabul.example/1"
    ∷ end_element
    ∷ end_element
    ∷ start_element "item" []
    ∷ start_element "title" []
    ∷ char_data "A"
    ∷ []

abbrev not_read : List Token
not_read =
    char_data " road opens"
    ∷ end_element
    ∷ start_element "link" []
    ∷ char_data "https://kabul.example/2"
    ∷ end_element
    ∷ end_element
    ∷ end_element
    ∷ end_element
    ∷ []

parse_tree-IsLimited_example : IsLimited (parse_tree read_so_far (some "unexpected EOF")).0
parse_tree-IsLimited_example = parse_tree-IsLimited read_so_far (some "unexpected EOF")

abbrev item_so_far : XmlNode
item_so_far = xml_node "item" [] "" (
    and_node (xml_node "title" [] "A dam opens" no_nodes)
      (and_node (xml_node "link" [] "https://kabul.example/1" no_nodes) no_nodes))

abbrev item_broken : XmlNode
item_broken = xml_node "item" [] "" (and_node (xml_node "title" [] "A" no_nodes) no_nodes)

abbrev channel_so_far : XmlNode
channel_so_far = xml_node "channel" [] "" (and_node item_so_far (and_node item_broken no_nodes))

-- What the decoder gives for the body, whatever it is.
abbrev decode : Decoder
decode body = (read_so_far, some "unexpected EOF")

abbrev reader : Worker
reader = record worker { parse = parse_body plain 0 decode }

process_answer_broken_example :
    (r : Result) × (r' : Result) × (process_answer reader kabul visit (fetched response) world
      ≡ process_parsed reader kabul visit response r.candidates world)
    × All (CanBeShown plain) r.candidates
    × (parse plain 0 (read_so_far ++ not_read) none ≡ some r')
    × Agree (stripped r.candidates) (stripped r'.candidates)
process_answer_broken_example =
    process_answer_broken plain 0 decode reader kabul visit response world not_read none
      channel_so_far refl
      (unfold parse_tree read_tokens read_token close_all document_root byte_length in refl)
      (unfold parse_tree read_tokens read_token close_all document_root child byte_length in refl)

abbrev first_story : Result
first_story = record {
  meta = record {
    title = "";
    link = "";
    description = "";
    language = "";
    format = rss2;
    item_count = 1;
    warnings = [];
  };
  candidates =
      record {
        external_guid = "";
        title = "A dam opens";
        link = "https://kabul.example/1";
        summary = "";
        content = "";
        image_url = "";
        author = "";
        language = "";
        published_at = none;
        updated_at = none;
        raw_categories = [];
      }
      ∷ [];
}

first_story_parsed : parse plain 0 read_so_far (some "unexpected EOF") ≡ some first_story
unfolding parse parse_tree read_tokens read_token close_all byte_length document_root by_dialect
    parse_rss with_counts from_items candidate_from_item item_fields is_usable
first_story_parsed = refl

parse-CanBeShown_example :
    All (CanBeShown plain) first_story.candidates
    × (first_story.meta.item_count ≡ length first_story.candidates)
parse-CanBeShown_example =
    parse-CanBeShown plain 0 read_so_far (some "unexpected EOF") first_story first_story_parsed

abbrev quote_out : String
quote_out = "\"><script>"

escape_attr_read_example :
    read_value none (codes (escape_attr quote_out) ++ (34 ∷ codes " class"))
    ≡ some (codes quote_out, codes " class")
escape_attr_read_example = escape_attr_read quote_out (codes " class")

-- &amp;lt; is decoded once.
decoded_once : replace_pairs entities 0 "a &amp;lt; b&nbsp;" ≡ "a &lt; b "
unfolding replace_pairs entities
decoded_once = refl
