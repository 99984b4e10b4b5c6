-- ===== src/Content/Preserved.antt =====
-- From what the statements on articles keep to what publications, updates and archivals keep.
use blog_post.Base.{
  ℕ, zero, suc, ◌+◌, Bool, true, false, String, Option, none, some, List, [], ◌∷◌, not, Bool-cases,
  inl, inr,
}
use blog_post.Database.Content.{BlogRow, BlogSection, ObjectKey, SeriesRow}
use blog_post.Database.Events.{DomainEvent}
use blog_post.Database.Tables.{Db}
use blog_post.Database.Exec.{raise}
use blog_post.Database.Exec.Ensures.{
  Keeps, Ensures-begin, Keeps-pure, Keeps-raise, Keeps-bind, Keeps-select, Keeps-draw, Keeps-if,
  Keeps-raise_if, Keeps-or_raise, keeps_rules,
}
use blog_post.Policy.{Principal, Permission}
use blog_post.Auth.Service.{Instant}
use blog_post.Repository.Text.{PgText}
use blog_post.Repository.Blogs
use blog_post.Repository.Blogs.{Patch}
use blog_post.Repository.Blogs.Listing.{set_categories}
use blog_post.Repository.Sections
use blog_post.Repository.Taxonomy
use blog_post.Repository.Outbox
use blog_post.Interaction.Preserved.{require_to-Keeps, allowed_user-Keeps}
use blog_post.Content.{
  BlogService, Parsed, PublishBlogCommand, parsed, put, try_suffixes, free_slug, resolve_slug,
  resolve_series, series_or_raise, announce, new_blog, store, publish_from_markdown, or_text,
}
use blog_post.Content.Updates.{
  UpdateBlogPatch, Revision, revised, refile, replace_content, announce_update, metadata_of, apply,
  update, archive,
}

pub record Preserved (P : Db → Type 0) : Type 0 where
  pub inserting : (pg : PgText) (row : BlogRow) → Keeps P (Blogs.insert pg row)
  pub patching :
      (pg : PgText) (n b : ℕ) (patch : Patch) → Keeps P (Blogs.update_metadata pg n b patch)
  pub content :
      (n b : ℕ) (uri : ObjectKey) (sha words : ℕ) → Keeps P (Blogs.update_content n b uri sha words)
  pub archiving : (n b t : ℕ) → Keeps P (Blogs.archive n b t)
  pub filing : (b : ℕ) (keys : List String) → Keeps P (set_categories b keys)
  pub sectioning :
      (pg : PgText) (b : ℕ) (ss : List BlogSection) → Keeps P (Sections.replace_all pg b ss)
  pub staging :
      (n i o : ℕ) (e : DomainEvent) (t : String) (a : ℕ) → Keeps P (Outbox.add n i o e t a)

module _ (P : Db → Type 0) (self : BlogService) where
  parsed-Keeps : (x : Parsed) → Keeps P (parsed self x)
  unfolding parsed
  parsed-Keeps (Parsed.markdown d) = Keeps-pure d
  parsed-Keeps (Parsed.refused c) = Keeps-raise _

  put-Keeps : (key : ObjectKey) (bytes : List ℕ) → Keeps P (put self key bytes)
  unfolding put raise
  put-Keeps key bytes = elim (Bool-cases (self.unavailable key)) [
    | inl down ↦ record { at = λ w h. rw down h }
    | inr up ↦ record { at = λ w h. rw up h }
  ]

  try_suffixes-Keeps : (base : String) (k n : ℕ) → Keeps P (try_suffixes self base k n)
  unfolding try_suffixes Blogs.slug_exists
  try_suffixes-Keeps base k zero = search keeps_rules
  try_suffixes-Keeps base k (suc n) =
      Keeps-bind _ _ (Keeps-select _)
        λ taken. Keeps-if taken _ _ (try_suffixes-Keeps base (k + 1) n) (Keeps-pure _)

  free_slug-Keeps : (base : String) → Keeps P (free_slug self base)
  unfolding free_slug Blogs.slug_exists
  free_slug-Keeps base = search (keeps_rules, try_suffixes-Keeps)

  resolve_slug-Keeps : (o : Option String) (t : String) → Keeps P (resolve_slug self o t)
  unfolding resolve_slug
  resolve_slug-Keeps o t = search (keeps_rules, free_slug-Keeps)

  series_or_raise-Keeps : (o : Option SeriesRow) → Keeps P (series_or_raise o)
  unfolding series_or_raise
  series_or_raise-Keeps none = Keeps-raise _
  series_or_raise-Keeps (some s) = Keeps-pure _

  resolve_series-Keeps : (o : Option String) → Keeps P (resolve_series o)
  unfolding resolve_series Taxonomy.get_series_by_key
  resolve_series-Keeps none = Keeps-pure none
  resolve_series-Keeps (some key) = Keeps-bind _ _ (Keeps-select _) series_or_raise-Keeps

module _ (self : BlogService) (at : Instant) {P : Db → Type 0} (k : Preserved P) where
  announce-Keeps :
      (b : Bool) (row : BlogRow) (ks : List String) → Keeps P (announce self at b row ks)
  unfolding announce
  announce-Keeps false row ks = Keeps-pure tt
  announce-Keeps true row ks = Keeps-bind _ _ (Keeps-draw _) λ i.
      k.staging at.db_now i at.clock
        (DomainEvent.blog_published row.id row.slug row.title ks row.series_id row.author_id
          at.clock)
        "blog" row.id

  store-Keeps :
      (row : BlogRow) (o : Option String) (ks : List String) (ss : List BlogSection)
      → Keeps P (store self at row o ks ss)
  unfolding store Blogs.get Blogs.one
  store-Keeps row o ks ss = Keeps-bind _ _ (resolve_series-Keeps P self o) λ s.
      Keeps-bind _ _ (k.inserting self.text _) λ d. Keeps-bind _ _ (k.filing row.id ks) λ _.
        Keeps-bind _ _ (k.sectioning self.text row.id ss)
          λ _. Keeps-bind _ _ (announce-Keeps _ _ ks) λ _. Keeps-select _

  pub publish-Keeps :
      (p : Principal) (source : List ℕ) (c : PublishBlogCommand)
      → Keeps P (publish_from_markdown self at p source c)
  unfolding publish_from_markdown
  publish-Keeps p source c = Keeps-bind _ _ (allowed_user-Keeps P Permission.publish p) λ u.
      Keeps-bind _ _ (parsed-Keeps P self (self.parse source)) λ d.
        Keeps-bind _ _ (Keeps-or_raise _ _) λ title. Keeps-bind _ _ (Keeps-draw _) λ i.
          Keeps-bind _ _ (resolve_slug-Keeps P self (or_text c.slug d.slug) title) λ slug.
            Keeps-bind _ _ (put-Keeps P self _ source) λ uri.
              Keeps-bind _ _
                (Ensures-begin (store-Keeps (new_blog self at c d u i slug title none uri) _ _ _))
                λ o. Keeps-or_raise o _

  revised-Keeps : (b : ℕ) (o : Option (List ℕ)) → Keeps P (revised self at b o)
  unfolding revised
  revised-Keeps b none = Keeps-pure none
  revised-Keeps b (some source) =
      Keeps-bind _ _ (parsed-Keeps P self (self.parse source))
        λ d. Keeps-bind _ _ (put-Keeps P self _ source) λ uri. Keeps-pure _

  refile-Keeps : (b : ℕ) (o : Option (List String)) → Keeps P (refile self at b o)
  unfolding refile
  refile-Keeps b none = Keeps-pure tt
  refile-Keeps b (some ks) = k.filing b ks

  replace_content-Keeps : (b : ℕ) (o : Option Revision) → Keeps P (replace_content self at b o)
  unfolding replace_content
  replace_content-Keeps b none = Keeps-pure tt
  replace_content-Keeps b (some r) =
      Keeps-bind _ _ (k.content at.db_now b _ _ _) λ _. k.sectioning self.text b _

  announce_update-Keeps : (b : ℕ) (fs : List String) → Keeps P (announce_update self at b fs)
  unfolding announce_update
  announce_update-Keeps b [] = Keeps-pure tt
  announce_update-Keeps b (f ∷ fs) =
      Keeps-bind _ _ (Keeps-draw _)
        λ i. k.staging at.db_now i at.clock (DomainEvent.blog_updated b (f ∷ fs) at.clock) "blog" b

  apply-Keeps : (b : ℕ) (x : UpdateBlogPatch) (o : Option Revision) → Keeps P (apply self at b x o)
  unfolding apply Blogs.get Blogs.one
  apply-Keeps b x o = Keeps-bind _ _ (Keeps-select _) λ e. Keeps-bind _ _ (Keeps-raise_if _ _) λ _.
      Keeps-bind _ _ (resolve_series-Keeps P self x.series_key) λ s.
        Keeps-bind _ _ (k.patching self.text at.db_now b (metadata_of self at x s)) λ _.
          Keeps-bind _ _ (refile-Keeps b x.category_keys) λ _.
            Keeps-bind _ _ (replace_content-Keeps b o)
              λ _. Keeps-bind _ _ (announce_update-Keeps b _) λ _. Keeps-select _

  pub update-Keeps :
      (p : Principal) (b : ℕ) (x : UpdateBlogPatch) (source : Option (List ℕ))
      → Keeps P (update self at p b x source)
  unfolding update
  update-Keeps p b x source = Keeps-bind _ _ (require_to-Keeps P Permission.edit_blog p) λ _.
      Keeps-bind _ _ (revised-Keeps b source)
        λ o. Keeps-bind _ _ (Ensures-begin (apply-Keeps b x o)) λ d. Keeps-or_raise d _

  pub archive-Keeps : (p : Principal) (b : ℕ) → Keeps P (archive self at p b)
  unfolding archive
  archive-Keeps p b = Keeps-bind _ _ (require_to-Keeps P Permission.archive_blog p) λ _.
      Ensures-begin (
        Keeps-bind _ _ (k.archiving at.db_now b at.clock) λ done.
          Keeps-bind _ _ (Keeps-raise_if (not done) _) λ _.
            Keeps-bind _ _ (Keeps-draw _)
              λ i. k.staging at.db_now i at.clock (DomainEvent.blog_archived b at.clock) "blog" b)
