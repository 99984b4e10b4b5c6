-- ===== src/Content/Tests.antt =====
-- The theorems on articles at a concrete database.
use blog_post.Base.{◌+◌, ◌≡◌, ◌⊎◌, refl, true, false, none, some, List, [], ◌∷◌, inr, arith, map}
use blog_post.Base.Tables.{exists, find_first, filter_rows, sort_rows, insert_row}
use blog_post.Errors.Category.{ErrorCategory}
use blog_post.Database.Content.{BlogStatus, BlogRow, MarkdownDocument, ReferencePin}
use blog_post.Database.Exec.{World, ok, err, Error, ◌>>=◌}
use blog_post.Policy.{Principal, can, is_admin}
use blog_post.Auth.Service.{Instant}
use blog_post.Auth.Tests.{noon}
use blog_post.Repository.Blogs.{has_slug}
use blog_post.Repository.Blogs.Listing.{BlogFilter, to_summary}
use blog_post.Repository.Keyset.{order_by, limit_or}
use blog_post.Repository.Keyset.Walk.{read_all}
use blog_post.Interaction.Links.{Anchored}
use blog_post.Interaction.Tests.{text, article, readers}
use blog_post.Interaction.Tests.Cursors.{cursors, cursors-RoundTrips}
use blog_post.Content.{BlogService, Parsed, free_slug, try_suffixes}
use blog_post.Content.Updates.{UpdateBlogPatch, update}
use blog_post.Content.Reading.{list, get_by_slug, get_content}
use blog_post.Content.Stamps.{Stamped}
use blog_post.Content.History.{Request, serve_all, serve_all-Stamped}
use blog_post.Content.Pages.{list_every}
use blog_post.Content.Visible.{get_by_slug-hidden, AllTaken, free_slug-free}
use blog_post.Content.Refused.{into_series, update-refused}

abbrev markdown : MarkdownDocument
markdown = record {
  title = some "Intro";
  summary = none;
  slug = none;
  category_keys = [];
  series_key = none;
  series_position = none;
  headings = record { anchor = "top"; level = 1; title = "Top"; char_start = 0; char_end = 9 } ∷ [];
  word_count = 500;
  content_sha256 = 9;
}

abbrev service : BlogService
service = record {
  new_id = λ n. n + 100;
  text = text;
  cursors = cursors;
  parse = λ source. Parsed.markdown markdown;
  decode = λ source. some "New";
  strip = λ t. t;
  unavailable = λ key. false;
  slugify = λ title. "intro";
  suffixed = λ base k. "intro-2";
  post_of = λ id. "post-1";
  with_id = λ base id. "intro-1";
  default_page_size = 1;
  max_page_size = 10;
}

abbrev plan : BlogRow
plan = record article { id = 8; slug = "plan"; status = BlogStatus.draft; published_at = none }

-- The draft refers to the section of the article.
abbrev pointer : ReferencePin
pointer = record {
  id = 60;
  source_blog_id = 8;
  target_blog_id = 7;
  target_anchor = "top";
  note = none;
  created_by = 1;
  created_at = 4;
}

abbrev articles : World
articles = record readers {
  db = record readers.db { blogs = plan ∷ article ∷ []; reference_pins = pointer ∷ [] };
}

abbrev editor : Principal
editor = Principal.signed_in 81 1 true

abbrev reader : Principal
reader = Principal.signed_in 80 2 false

abbrev all_published : BlogFilter
all_published = record {
  category_key = none;
  series_id = none;
  status = BlogStatus.published;
  published_before = none;
}

list_every_example :
    read_all (λ cursor. list service all_published cursor none) 3 none articles
    ≡ (ok (map (to_summary text articles.db) (article ∷ [])), articles)
unfolding limit_or filter_rows order_by sort_rows insert_row
list_every_example =
    list_every service cursors-RoundTrips all_published none articles 3 (omega arith)
      ((λ e. omega (arith, e), tt), (tt, tt)) ((2, refl), tt) (omega arith)

get_by_slug-hidden_example :
    (get_by_slug service "plan" reader articles
      ≡ (err (Error.platform ErrorCategory.blog_not_found), articles))
    × (get_content service "plan" reader articles
        ≡ (err (Error.platform ErrorCategory.blog_not_found), articles))
unfolding can is_admin find_first
get_by_slug-hidden_example =
    get_by_slug-hidden service reader "plan" articles plan refl (inr (refl, refl))

free_slug-free_example :
    (exists (has_slug "intro-2") articles.db.blogs ≡ false)
    ⊎ ((exists (has_slug "intro") articles.db.blogs ≡ true)
        × AllTaken service "intro" articles 2 50)
unfolding free_slug try_suffixes exists ◌>>=◌
free_slug-free_example = free_slug-free service "intro" articles "intro-2" articles refl

update-refused_example :
    ((update service noon editor 7 (into_series "none") (some (1 ∷ [])) articles).0
      ≡ err (Error.platform ErrorCategory.series_unknown))
    × ((update service noon editor 7 (into_series "none") (some (1 ∷ [])) articles).1.db
        ≡ articles.db)
    × ((get_content service "intro" editor
          (update service noon editor 7 (into_series "none") (some (1 ∷ [])) articles).1).0
        ≡ ok (record { blog_id = 7; slug = "intro"; content_sha256 = 9; markdown = "New" }))
unfolding find_first
update-refused_example =
    update-refused service noon 81 1 (1 ∷ []) "New" markdown article "none" articles refl refl refl
      refl refl refl refl

articles-Stamped : Stamped articles.db
articles-Stamped = record {
  unique = ((λ e. omega (arith, e), tt), (tt, tt));
  stamped = ((refl, refl, refl), ((refl, refl, refl), tt));
}

abbrev retitle : UpdateBlogPatch
retitle = record {
  title = some "Plans";
  summary = none;
  category_keys = none;
  series_key = none;
  series_position = none;
  status = some BlogStatus.published;
}

abbrev requests : List (Instant × Principal × Request)
requests = (noon, editor, Request.amend 8 retitle none) ∷ (noon, editor, Request.retire 7) ∷ []

serve_all-Stamped_example :
    Stamped (serve_all service requests articles).db
    × Anchored (serve_all service requests articles).db
unfolding exists
serve_all-Stamped_example =
    serve_all-Stamped service requests articles articles-Stamped ((refl, refl), tt)
