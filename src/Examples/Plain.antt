-- ===== src/Examples/Plain.antt =====
-- Truncated texts and empty guid elements at concrete inputs.
use Prim.Native.String.{count, ◌++◌ as ◌+++◌}
use afghanistan_news.Base.{◌≤◌, ◌<◌, String, some, [], ◌∷◌, ◌++◌, ◌≡◌, refl, arith}
use afghanistan_news.Articles.Rows.{ArticleInput, ArticleDb}
use afghanistan_news.Articles.Dedup.{
  guid, duplicate, inserted, find_duplicate_article, has_article, insert_row, insert_unless,
  insert_article,
}
use afghanistan_news.Text.Plain.{before_break, truncate}
use afghanistan_news.Text.PlainLaws.{Trims, WholeOrAtBreak, truncate_cuts}
use afghanistan_news.Parser.Xml.{XmlNode, xml_node, no_nodes, and_node}
use afghanistan_news.Parser.Read.{child, attr, inner_text, all_text, first_non_empty}
use afghanistan_news.Parser.Items.{item_guid}
use afghanistan_news.Parser.GuidLaws.{HasEmptyGuid, empty_guids_collide}
use afghanistan_news.Examples.Parsing.{plain}
use afghanistan_news.Examples.Fixtures.{texts, report, stored, no_articles}

plain-Trims : Trims plain
plain-Trims = record { no_longer = λ s. omega arith }

abbrev headline : String
headline = "a dam opens"

truncate_cuts_example :
    (count headline ≤ 7 → truncate plain headline 7 ≡ headline)
    × (7 < count headline
        → (p : String) × (truncate plain headline 7 ≡ p +++ "…")
          × WholeOrAtBreak 7 headline p
          × (count p ≤ 7))
    × (count (truncate plain headline 7) ≤ 8)
truncate_cuts_example = truncate_cuts plain headline 7 plain-Trims

cut_at_word : truncate plain headline 7 ≡ "a dam…"
unfolding truncate before_break
cut_at_word = refl

abbrev marked_item : String → XmlNode
marked_item link = xml_node "item" [] "" (
    and_node (xml_node "guid" (("isPermaLink", "true") ∷ []) "" no_nodes)
      (and_node (xml_node "link" [] link no_nodes) no_nodes))

marked-HasEmptyGuid : (link : String) → HasEmptyGuid plain "true" (marked_item link)
unfolding child attr inner_text
marked-HasEmptyGuid link = record {
  no_text = refl;
  marked = refl;
  not_false = refl;
  not_blank = refl;
}

abbrev first_story : ArticleInput
first_story = record report { external_guid = "true" }

-- Another story, of another address.
abbrev second_story : ArticleInput
second_story = record report {
  id = "a2";
  external_guid = "true";
  canonical_url = "https://kabul.example/2";
  normalized_url = "https://kabul.example/2";
  content_hash = "h2";
  title_fingerprint = "t2";
}

-- The table with the first story and one that came after it.
abbrev table_after : ArticleDb
table_after = record no_articles {
  articles =
      (insert_article texts first_story no_articles no_articles).0.articles
      ++ (record stored { id = "a9" } ∷ []);
}

is_stored : (insert_article texts first_story no_articles no_articles).1.outcome ≡ inserted
unfolding insert_article insert_unless insert_row find_duplicate_article has_article
is_stored = refl

empty_guids_collide_example : insert_article texts second_story table_after table_after ≡ (
  table_after,
  record {
    outcome = duplicate;
    article_id = (insert_article texts first_story no_articles no_articles).1.article_id;
    dedup_level = some guid;
  },
)
empty_guids_collide_example =
    empty_guids_collide plain texts "true" (marked_item "https://kabul.example/1")
      (marked_item "https://kabul.example/2") first_story second_story no_articles table_after
      (record stored { id = "a9" } ∷ []) (marked-HasEmptyGuid _) (marked-HasEmptyGuid _)
      (unfold item_guid child attr inner_text all_text first_non_empty in refl)
      (unfold item_guid child attr inner_text all_text first_non_empty in refl) refl refl refl refl
      is_stored refl
