-- ===== src/Interaction/Saved.antt =====
-- Saving an article without naming a collection.
use blog_post.Base.{
  ℕ, ◌+◌, ◌≡◌, refl, Bool, true, false, String, Option, none, some, List, [], ◌∷◌, arith,
}
use blog_post.Base.Tables.{exists, find_first, exists-find_first}
use blog_post.Database.Content.{BlogRow}
use blog_post.Database.Interaction.{Catalog}
use blog_post.Database.Exec.{World, err, Error, ◌>>=◌, begin, raise_if, modify, or_raise}
use blog_post.Policy.{Principal, can, is_user, require}
use blog_post.Auth.Service.{Instant}
use blog_post.Repository.Text.{PgText, fits}
use blog_post.Repository.Blogs
use blog_post.Repository.Blogs.{is_published, has_blog_id, to_detail}
use blog_post.Repository.Catalogs
use blog_post.Repository.Catalogs.{is_named, is_default_of, conflicts, new_catalog}
use blog_post.Interaction.{InteractionService, require_to, user_of, allowed_user, assert_readable}
use blog_post.Interaction.Shelves.{chosen_catalog, save_to_catalog}

named-conflicts :
    (pg : PgText) (new : Catalog) (rows : List Catalog)
    → exists (is_named pg new.user_id new.name) rows ≡ true
    → exists (conflicts pg new) rows ≡ true
unfolding exists
named-conflicts pg new [] h = h
named-conflicts pg new (c ∷ rows) h = ground (arith, h, named-conflicts pg new rows)

module _ (self : InteractionService) (at : Instant) (actor_id user_id : ℕ) (admin : Bool)
    (w : World) where
  -- A reader who has a collection called like the default one, and no default, cannot save an
  -- article without naming a collection: the insertion of the default meets the name and does
  -- nothing, no default is found after it, and the call ends in a failed assertion with nothing
  -- written. The article is published, and the name of the default is one that fits.
  pub save_to_catalog-stuck :
      (blog : BlogRow) (remark : Option String)
      → find_first (has_blog_id blog.id) w.db.blogs ≡ some blog
      → is_published blog.status ≡ true
      → fits self.text 120 "Saved" ≡ true
      → exists (is_named self.text user_id "Saved") w.db.catalogs ≡ true
      → exists (is_default_of user_id) w.db.catalogs ≡ false
      → save_to_catalog self at (Principal.signed_in actor_id user_id admin) blog.id none remark w
        ≡ (err Error.assertion, record w { drawn = w.drawn + 1 })
  unfolding save_to_catalog allowed_user require_to can is_user user_of require assert_readable
      Blogs.get Blogs.one to_detail chosen_catalog Catalogs.ensure_default Catalogs.insert_unless
      ◌>>=◌ begin raise_if modify or_raise
  save_to_catalog-stuck blog remark here public fitting named no_default =
      rw
        (
          here,
          public,
          fitting,
          named-conflicts self.text
              (new_catalog at.db_now (self.new_id w.drawn) user_id "Saved" true) w.db.catalogs
              named,
          exists-find_first (is_default_of user_id) w.db.catalogs no_default,
        )
        refl
