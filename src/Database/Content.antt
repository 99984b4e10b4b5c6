-- ===== src/Database/Content.antt =====
-- contracts/blog.py and the tables of migrations/002_content.sql. The object that holds an
-- article's source is named by the article and the hash of the body.
use blog_post.Base.{ℕ, String, Option, List}

pub data BlogStatus : Type 0 where
  draft published archived : BlogStatus

pub record ObjectKey : Type 0 where
  pub blog_id : ℕ
  pub content_sha256 : ℕ

pub record BlogRow : Type 0 where
  pub id : ℕ
  pub slug : String
  pub title : String
  pub summary : Option String
  pub author_id : ℕ
  pub series_id : Option ℕ
  pub series_position : Option ℕ
  pub markdown_uri : ObjectKey
  pub content_sha256 : ℕ
  pub word_count : ℕ
  pub status : BlogStatus
  pub published_at : Option ℕ
  pub archived_at : Option ℕ
  pub created_at : ℕ
  pub updated_at : ℕ

pub record BlogSection : Type 0 where
  pub anchor : String
  pub ordinal : ℕ
  pub level : ℕ
  pub title : String
  pub char_start : ℕ
  pub char_end : ℕ

-- The row of `blog_sections`.
pub record SectionRow : Type 0 where
  pub blog_id : ℕ
  pub section : BlogSection

pub record CategoryRow : Type 0 where
  pub key : String
  pub label : String
  pub description : Option String

-- The row of `blog_categories`.
pub record FilingRow : Type 0 where
  pub blog_id : ℕ
  pub category_key : String

pub record SeriesRow : Type 0 where
  pub id : ℕ
  pub key : String
  pub title : String
  pub description : Option String

pub record ReferencePin : Type 0 where
  pub id : ℕ
  pub source_blog_id : ℕ
  pub target_blog_id : ℕ
  pub target_anchor : String
  pub note : Option String
  pub created_by : ℕ
  pub created_at : ℕ

-- `BlogDetail`: the row, without `archived_at`, with what is filed under it.
pub record BlogDetail : Type 0 where
  pub blog : BlogRow
  pub category_keys : List String
  pub sections : List BlogSection

pub record MarkdownHeading : Type 0 where
  pub anchor : String
  pub level : ℕ
  pub title : String
  pub char_start : ℕ
  pub char_end : ℕ

-- `MarkdownDocument`, as far as it is read here.
pub record MarkdownDocument : Type 0 where
  pub title : Option String
  pub summary : Option String
  pub slug : Option String
  pub category_keys : List String
  pub series_key : Option String
  pub series_position : Option ℕ
  pub headings : List MarkdownHeading
  pub word_count : ℕ
  pub content_sha256 : ℕ

-- An object of the store: its key and its bytes.
pub record StoredObject : Type 0 where
  pub key : ObjectKey
  pub bytes : List ℕ
