-- ===== src/Interaction/Tests.antt =====
-- A concrete service and a concrete database of readers, at which the theorems are applied.
pub mod Cursors
mod Requests
use blog_post.Base.{ℕ, ◌+◌, ◌*◌, ◌/◌, ◌^◌, true, false, none, some, [], ◌∷◌}
use blog_post.Database.Content.{BlogStatus, BlogRow, SectionRow}
use blog_post.Database.Interaction.{Comment, Catalog, CatalogItem}
use blog_post.Database.Tables.{empty}
use blog_post.Database.Exec.{World}
use blog_post.Repository.Text.{PgText}
use blog_post.Interaction.{InteractionService}
use blog_post.Auth.Tests.{admin_row, reader_row}
use blog_post.Interaction.Tests.Cursors.{cursors}

abbrev pub text : PgText
text = record { btrim = λ s. s; lower = λ s. s; is_key = λ s. true; precedes = λ a b. false }

-- A rounding to 24 places after the point, downwards.
abbrev to_real : ℕ → ℕ
to_real r = (r / 2 ^ 1050) * 2 ^ 1050

abbrev pub service : InteractionService
service = record {
  new_id = λ n. n + 100;
  default_page_size = 1;
  text = text;
  to_real = to_real;
  cursors = cursors;
}

abbrev pub article : BlogRow
article = record {
  id = 7;
  slug = "intro";
  title = "Intro";
  summary = none;
  author_id = 1;
  series_id = none;
  series_position = none;
  markdown_uri = record { blog_id = 7; content_sha256 = 9 };
  content_sha256 = 9;
  word_count = 500;
  status = BlogStatus.published;
  published_at = some 2;
  archived_at = none;
  created_at = 1;
  updated_at = 1;
}

abbrev pub top : SectionRow
top = record {
  blog_id = 7;
  section = record {
    anchor = "top";
    ordinal = 0;
    level = 1;
    title = "Top";
    char_start = 0;
    char_end = 9;
  };
}

abbrev pub remark : Comment
remark = record {
  id = 20;
  blog_id = 7;
  user_id = 1;
  parent_comment_id = none;
  depth = 0;
  body = "Welcome";
  created_at = 3;
  updated_at = 3;
  deleted_at = none;
  deleted_by = none;
}

abbrev pub question : Comment
question = record {
  id = 21;
  blog_id = 7;
  user_id = 2;
  parent_comment_id = none;
  depth = 0;
  body = "Why?";
  created_at = 4;
  updated_at = 4;
  deleted_at = none;
  deleted_by = none;
}

abbrev pub shelf : Catalog
shelf = record {
  id = 30;
  user_id = 2;
  name = "Saved";
  is_default = false;
  created_at = 2;
  updated_at = 2;
}

abbrev pub shelved : CatalogItem
shelved = record { catalog_id = 30; blog_id = 7; added_at = 5; note = none }

-- The reader of the account 2 has asked a question; the administrator has made a remark.
abbrev pub readers : World
readers = record {
  db = record empty {
    users = admin_row ∷ reader_row ∷ [];
    blogs = article ∷ [];
    blog_sections = top ∷ [];
    comments = question ∷ remark ∷ [];
    catalogs = shelf ∷ [];
    catalog_items = shelved ∷ [];
  };
  drawn = 0;
  mail = [];
  objects = [];
}

-- The same before the question.
abbrev pub quiet : World
quiet = record readers { db = record readers.db { comments = remark ∷ [] } }
