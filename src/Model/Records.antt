-- ===== src/Model/Records.antt =====
-- backend/internal/model/model.go: Feed, one row of the table feeds (with the name of its source),
-- and Candidate. A nullable timestamp is an Option; COALESCE(x, '') columns are texts.
use afghanistan_news.Base.{ℕ, String, Bool, Option, List}
use afghanistan_news.Model.Kinds.{SourceType, PollTier, HealthStatus, Origin}

pub record Feed : Type 0 where
  pub id : String
  pub source_id : String
  pub source_name : String
  pub xml_url : String
  pub normalized_xml_url : String
  pub html_url : String
  pub title : String
  pub language : String
  pub scope : String
  pub category_key : String
  pub source_type : SourceType
  pub priority : ℕ
  pub poll_tier : PollTier
  pub enabled : Bool
  pub health_status : HealthStatus
  pub etag : String
  pub last_modified : String
  pub last_checked_at : Option ℕ
  pub last_success_at : Option ℕ
  pub newest_item_at : Option ℕ
  pub next_poll_at : Option ℕ
  pub consecutive_failures : ℕ
  pub health_score : ℕ
  pub feed_pack_version : Option String
  pub needs_review : Bool
  pub lease_owner : Option String
  pub lease_until : Option ℕ
  pub created_at : ℕ
  pub updated_at : ℕ

-- CategoryAssignment and ProvinceAssignment; the confidence is in hundredths.
pub record Assignment : Type 0 where
  pub id : String
  pub confidence : ℕ
  pub origin : Origin

pub record Candidate : Type 0 where
  pub external_guid : String
  pub title : String
  pub link : String
  pub summary : String
  pub content : String
  pub image_url : String
  pub author : String
  pub language : String
  pub published_at : Option ℕ
  pub updated_at : Option ℕ
  pub raw_categories : List String
