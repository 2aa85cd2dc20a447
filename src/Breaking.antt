-- ===== src/Breaking.antt =====
-- The breaking rule of backend/internal/ingest/pipeline.go: breakingScore, decideBreaking and
-- safetyCategoryOf. Scores are hundredths: on all 48 combinations of the signals that enter the
-- score, the comparison of Go's float64 sum with 0.6 is that of the hundredths with 60.
pub mod Laws
pub mod Monotone
use afghanistan_news.Base.{
  ℕ, ◌+◌, String, Bool, true, false, not, ◌&&◌, ◌||◌, Option, none, some, List, [], ◌∷◌, ◌++◌, ltb,
  leb, ◌==◌, if◌then◌else◌, str_eq, starts_with, is_some,
}
use afghanistan_news.Model.{Assignment}

-- safety_category is the empty text where no safety topic is primary.
pub record BreakingSignals : Type 0 where
  pub official_realtime : Bool
  pub priority : ℕ
  pub scope : String
  pub safety_category : String
  pub recent_publish : Bool
  pub distinct_sources : ℕ
  pub urgency_marker : Bool

pub data Qualifying : Type 0 where
  local_relevance safety_critical corroborated explicit_urgency two_sources : Qualifying

-- The entries of `reasons`, with the values that the texts print.
pub data Reason : Type 0 where
  official_source priority_source : Reason
  safety : String → Reason
  independent_sources : ℕ → Reason
  qualified_by : Qualifying → Reason
  no_signal : Reason
  cap_reached : ℕ → Reason
  bulk_stream : ℕ → Reason

abbrev pub non_empty : String → Bool
non_empty s = not (str_eq s "")

abbrev pub note_if : Bool → Reason → List Reason
note_if b r = if b then r ∷ [] else []

unfoldable pub breaking_score : BreakingSignals → ℕ × List Reason
breaking_score s = (
  (if s.official_realtime then 45 else 0)
      + (if leb 5 s.priority then 15 else if s.priority == 4 then 8 else 0)
      + (if non_empty s.safety_category then 20 else 0)
      + (if s.recent_publish then 10 else 0)
      + (if leb 3 s.distinct_sources then 25 else 0),
  note_if s.official_realtime official_source
      ++ (note_if (leb 5 s.priority) priority_source
          ++ (note_if (non_empty s.safety_category) (safety s.safety_category)
              ++ note_if (leb 3 s.distinct_sources) (independent_sources s.distinct_sources))),
)

abbrev pub breaking_threshold : ℕ
breaking_threshold = 60

abbrev pub bulk_stream_items : ℕ
bulk_stream_items = 10

-- The first switch of decideBreaking; `none` is the empty text.
unfoldable pub qualifying_signal : BreakingSignals → Option Qualifying
qualifying_signal s =
    if starts_with s.scope "afghanistan"
    then some local_relevance
    else if non_empty s.safety_category
    then some safety_critical
    else if leb 3 s.distinct_sources
    then some corroborated
    else if s.urgency_marker
    then some explicit_urgency
    else if s.distinct_sources == 2
    then some two_sources
    else none

unfoldable pub effective_cap : ℕ → ℕ
effective_cap max_per_run = if max_per_run == 0 then 2 else max_per_run

pub record Decision : Type 0 where
  pub flag : Bool
  pub score : ℕ
  pub reasons : List Reason

abbrev pub qualified_note : Option Qualifying → List Reason
qualified_note none = []
qualified_note (some q) = qualified_by q ∷ []

unfoldable pub decide_breaking : BreakingSignals → ℕ → ℕ → ℕ → Decision
unfolding qualifying_signal
decide_breaking s run_items already_flagged max_per_run =
    let (score, scored) = breaking_score s in
    let qualifying = qualifying_signal s in
    let reasons = scored ++ qualified_note qualifying in
    let cap = effective_cap max_per_run in
    if ltb score breaking_threshold
    then record { flag = false; score = score; reasons = reasons }
    else if not (is_some qualifying)
    then record { flag = false; score = score; reasons = reasons ++ no_signal ∷ [] }
    else if leb cap already_flagged
    then record { flag = false; score = score; reasons = reasons ++ cap_reached cap ∷ [] }
    else if leb bulk_stream_items run_items
        && (ltb s.distinct_sources 3 && (not s.urgency_marker && not (non_empty s.safety_category)))
    then record { flag = false; score = score; reasons = reasons ++ bulk_stream run_items ∷ [] }
    else record { flag = true; score = score; reasons = reasons }

-- The loop of safetyCategoryOf; `lt` is Go's order of texts.
unfoldable pub best_assignment :
    (String → String → Bool) → Assignment → List Assignment → Assignment
best_assignment lt best [] = best
best_assignment lt best (c ∷ cs) =
    best_assignment lt
      (if ltb best.confidence c.confidence || c.confidence == best.confidence && lt c.id best.id
        then c
        else best)
      cs

unfoldable pub safety_category_of : (String → String → Bool) → List Assignment → String
unfolding best_assignment
safety_category_of lt [] = ""
safety_category_of lt (c ∷ cs) =
    let best = best_assignment lt c cs in
    if str_eq best.id "security" || str_eq best.id "disasters" then best.id else ""
