-- ===== src/Content/History.antt =====
-- Histories of the articles: any sequence of publications, updates and archivals, each answered or
-- refused.
use blog_post.Base.{ℕ, ◌≡◌, refl, sym, subst, String, Option, none, some, List, [], ◌∷◌}
use blog_post.Base.Tables.{All, Unique}
use blog_post.Database.Content.{BlogRow, BlogSection, ObjectKey, FilingRow, SectionRow}
use blog_post.Database.Events.{DomainEvent, OutboxEvent}
use blog_post.Database.Tables.{Db}
use blog_post.Database.Exec.{World}
use blog_post.Database.Exec.Ensures.{Keeps, Keeps-pure, Keeps-bind, kept, keeps_rules}
use blog_post.Policy.{Principal}
use blog_post.Auth.Service.{Instant}
use blog_post.Repository.Text.{PgText}
use blog_post.Repository.Blogs
use blog_post.Repository.Blogs.{Patch}
use blog_post.Repository.Blogs.Listing as Listing
use blog_post.Repository.Sections
use blog_post.Repository.Outbox
use blog_post.Interaction.Links.{Anchored}
use blog_post.Content.{BlogService, PublishBlogCommand, publish_from_markdown}
use blog_post.Content.Updates.{UpdateBlogPatch, update, archive}
use blog_post.Content.Preserved.{Preserved, publish-Keeps, update-Keeps, archive-Keeps}
use blog_post.Content.Links.{replace_all-Anchored}
use blog_post.Content.Stamps.{
  IsStamped, Stamped, insert-Stamped, update_metadata-Stamped, update_content-Stamped,
  archive-Stamped,
}

-- The public methods that write, with their arguments.
pub data Request : Type 0 where
  issue : List ℕ → PublishBlogCommand → Request
  amend : ℕ → UpdateBlogPatch → Option (List ℕ) → Request
  retire : ℕ → Request

module _ (self : BlogService) where
  -- The world after a request of a caller, whatever it answered.
  unfoldable pub serve : Instant → Principal → Request → World → World
  serve at p (Request.issue source c) w = (publish_from_markdown self at p source c w).1
  serve at p (Request.amend b x source) w = (update self at p b x source w).1
  serve at p (Request.retire b) w = (archive self at p b w).1

  unfoldable pub serve_all : List (Instant × Principal × Request) → World → World
  unfolding serve
  serve_all [] w = w
  serve_all ((at, p, r) ∷ rest) w = serve_all rest (serve at p r w)

module _ (self : BlogService) {P : Db → Type 0} (k : Preserved P) where
  serve-Preserved :
      (at : Instant) (p : Principal) (r : Request) (w : World) → P w.db → P (serve self at p r w).db
  unfolding serve
  serve-Preserved at p (Request.issue source c) w s = kept (publish-Keeps self at k p source c) w s
  serve-Preserved at p (Request.amend b x source) w s =
      kept (update-Keeps self at k p b x source) w s
  serve-Preserved at p (Request.retire b) w s = kept (archive-Keeps self at k p b) w s

  serve_all-Preserved :
      (requests : List (Instant × Principal × Request)) (w : World)
      → P w.db
      → P (serve_all self requests w).db
  unfolding serve_all
  serve_all-Preserved [] w s = s
  serve_all-Preserved ((at, p, r) ∷ rest) w s =
      serve_all-Preserved rest (serve self at p r w) (serve-Preserved at p r w s)

-- The statements that touch neither sections nor pins.
insert-Anchored : (pg : PgText) (row : BlogRow) → Keeps Anchored (Blogs.insert pg row)
unfolding Blogs.insert Blogs.insert_row Blogs.check_row
insert-Anchored pg row = search keeps_rules depth 40

update_row-Anchored :
    (pg : PgText) (n b : ℕ) (patch : Patch) (o : Option BlogRow)
    → Keeps Anchored (Blogs.update_row pg n b patch o)
unfolding Blogs.update_row Blogs.check_row
update_row-Anchored pg n b patch none = Keeps-pure tt
update_row-Anchored pg n b patch (some row) = search keeps_rules depth 30

update_metadata-Anchored :
    (pg : PgText) (n b : ℕ) (patch : Patch) → Keeps Anchored (Blogs.update_metadata pg n b patch)
unfolding Blogs.update_metadata Blogs.get Blogs.one
update_metadata-Anchored pg n b patch = search (keeps_rules, update_row-Anchored)

update_content-Anchored :
    (n b : ℕ) (uri : ObjectKey) (sha words : ℕ)
    → Keeps Anchored (Blogs.update_content n b uri sha words)
unfolding Blogs.update_content
update_content-Anchored n b uri sha words = search keeps_rules

archive-Anchored : (n b t : ℕ) → Keeps Anchored (Blogs.archive n b t)
unfolding Blogs.archive
archive-Anchored n b t = search keeps_rules depth 10

-- What reads neither the categories of the articles nor the outbox is kept by their statements.
module _ (P : Db → Type 0)
    (filings : (db : Db) (rows : List FilingRow) → P db → P (record db { blog_categories = rows }))
    (events : (db : Db) (rows : List OutboxEvent)
      → P db
      → P (record db { outbox_events = rows })) where
  set_categories-Frame : (b : ℕ) (ks : List String) → Keeps P (Listing.set_categories b ks)
  unfolding Listing.set_categories Listing.insert_filings
  set_categories-Frame b ks = search (keeps_rules, filings) depth 20

  outbox_add-Frame :
      (n i o : ℕ) (e : DomainEvent) (t : String) (a : ℕ) → Keeps P (Outbox.add n i o e t a)
  unfolding Outbox.add
  outbox_add-Frame n i o e t a = search (keeps_rules, events) depth 10

module _ (P : Db → Type 0)
    (sections : (db : Db) (rows : List SectionRow)
      → P db
      → P (record db { blog_sections = rows })) where
  upsert_all-Frame :
      (pg : PgText) (b : ℕ) (ss : List BlogSection) → Keeps P (Sections.upsert_all pg b ss)
  unfolding Sections.upsert_all Sections.upsert
  upsert_all-Frame pg b [] = Keeps-pure tt
  upsert_all-Frame pg b (s ∷ ss) =
      Keeps-bind _ _ (search (keeps_rules, sections) depth 20) λ _. upsert_all-Frame pg b ss

  replace_all-Frame :
      (pg : PgText) (b : ℕ) (ss : List BlogSection) → Keeps P (Sections.replace_all pg b ss)
  unfolding Sections.replace_all Sections.delete_dropped
  replace_all-Frame pg b ss = search (keeps_rules, sections, upsert_all-Frame) depth 12

Anchored-Preserved : Preserved Anchored
Anchored-Preserved = record {
  inserting = insert-Anchored;
  patching = update_metadata-Anchored;
  content = update_content-Anchored;
  archiving = archive-Anchored;
  filing = set_categories-Frame Anchored (λ db rows h. h) (λ db rows h. h);
  sectioning = replace_all-Anchored;
  staging = outbox_add-Frame Anchored (λ db rows h. h) (λ db rows h. h);
}

Stamped-Preserved : Preserved Stamped
Stamped-Preserved =
    let same : (db other : Db) → other.blogs ≡ db.blogs → Stamped db → Stamped other =
      λ db other e s. record {
        unique = subst (Unique (λ b. b.id)) (sym e) s.unique;
        stamped = subst (All IsStamped) (sym e) s.stamped;
      } in
    let filed : (db : Db) (rows : List FilingRow)
        → Stamped db
        → Stamped (record db { blog_categories = rows }) =
      λ db rows. same db (record db { blog_categories = rows }) refl in
    let staged : (db : Db) (rows : List OutboxEvent)
        → Stamped db
        → Stamped (record db { outbox_events = rows }) =
      λ db rows. same db (record db { outbox_events = rows }) refl in
    record {
      inserting = insert-Stamped;
      patching = update_metadata-Stamped;
      content = update_content-Stamped;
      archiving = archive-Stamped;
      filing = set_categories-Frame Stamped filed staged;
      sectioning =
          replace_all-Frame Stamped (λ db rows. same db (record db { blog_sections = rows }) refl);
      staging = outbox_add-Frame Stamped filed staged;
    }

module _ (self : BlogService) where
  -- Every sequence of publications, updates and archivals, of whatever callers and at whatever
  -- times, answered or refused, keeps three things of the database: the ids of articles are unique;
  -- a published article has its time of publication, an archived one its time of archival, and one
  -- with a place in a series has a series; and every pin leads to a section that is there, so an
  -- update takes no heading away that a pin refers to.
  pub serve_all-Stamped :
      (requests : List (Instant × Principal × Request)) (w : World)
      → Stamped w.db
      → Anchored w.db
      → Stamped (serve_all self requests w).db × Anchored (serve_all self requests w).db
  serve_all-Stamped requests w s a = (
    serve_all-Preserved self Stamped-Preserved requests w s,
    serve_all-Preserved self Anchored-Preserved requests w a,
  )
