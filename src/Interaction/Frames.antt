-- ===== src/Interaction/Frames.antt =====
-- The tables that the statements of the interaction service write, and properties that do not read
-- them.
use blog_post.Base.{ℕ, Bool, String, Option, List}
use blog_post.Database.Content.{ReferencePin}
use blog_post.Database.Interaction.{Comment, Marker, MarkerAnchor, Catalog, CatalogItem}
use blog_post.Database.Tables.{Db}
use blog_post.Database.Exec.Ensures.{Keeps, keeps_rules}
use blog_post.Repository.Text.{PgText}
use blog_post.Repository.Comments
use blog_post.Repository.Markers
use blog_post.Repository.Catalogs
use blog_post.Repository.Pins

module _ (P : Db → Type 0) where
  module _
      (stable : (db : Db) (rows : List Comment) → P db → P (record db { comments = rows })) where
    pub create_root-Frame :
        (pg : PgText) (n i b u : ℕ) (body : String) → Keeps P (Comments.create_root pg n i b u body)
    unfolding Comments.create_root Comments.insert
    create_root-Frame pg n i b u body = search (keeps_rules, stable) depth 30

    pub create_reply-Frame :
        (pg : PgText) (n i b u p : ℕ) (body : String)
        → Keeps P (Comments.create_reply pg n i b u p body)
    unfolding Comments.create_reply Comments.insert
    create_reply-Frame pg n i b u p body = search (keeps_rules, stable) depth 30

    pub update_body-Frame :
        (pg : PgText) (n i u : ℕ) (body : String) → Keeps P (Comments.update_body pg n i u body)
    unfolding Comments.update_body
    update_body-Frame pg n i u body = search (keeps_rules, stable) depth 20

    pub soft_delete-Frame :
        (n i u t : ℕ) (admin : Bool) → Keeps P (Comments.soft_delete n i u t admin)
    unfolding Comments.soft_delete
    soft_delete-Frame n i u t admin = search (keeps_rules, stable) depth 20

  module _ (stable : (db : Db) (rows : List Marker) → P db → P (record db { markers = rows })) where
    pub upsert-Frame :
        (f : ℕ → ℕ) (u b : ℕ) (a : MarkerAnchor) (r : Option ℕ) (now : ℕ)
        → Keeps P (Markers.upsert f u b a r now)
    unfolding Markers.upsert
    upsert-Frame f u b a r now = search (keeps_rules, stable) depth 20

    pub delete_marker-Frame : (u b : ℕ) → Keeps P (Markers.delete u b)
    unfolding Markers.delete
    delete_marker-Frame u b = search (keeps_rules, stable) depth 10

  module _
      (stable : (db : Db) (rows : List Catalog) → P db → P (record db { catalogs = rows })) where
    pub create_catalog-Frame :
        (pg : PgText) (n i u : ℕ) (name : String) (d : Bool)
        → Keeps P (Catalogs.create pg n i u name d)
    unfolding Catalogs.create Catalogs.insert
    create_catalog-Frame pg n i u name d = search (keeps_rules, stable) depth 30

    pub ensure_default-Frame :
        (pg : PgText) (n u i : ℕ) → Keeps P (Catalogs.ensure_default pg n u i)
    unfolding Catalogs.ensure_default Catalogs.insert_unless
    ensure_default-Frame pg n u i = search (keeps_rules, stable) depth 30

  module _
      (stable : (db : Db) (rows : List CatalogItem)
        → P db
        → P (record db { catalog_items = rows })) where
    pub add_item-Frame :
        (n c b : ℕ) (remark : Option String) → Keeps P (Catalogs.add_item n c b remark)
    unfolding Catalogs.add_item
    add_item-Frame n c b remark = search (keeps_rules, stable) depth 20

    pub remove_item-Frame : (c b : ℕ) → Keeps P (Catalogs.remove_item c b)
    unfolding Catalogs.remove_item
    remove_item-Frame c b = search (keeps_rules, stable) depth 10

  module _
      (stable : (db : Db) (rows : List ReferencePin)
        → P db
        → P (record db { reference_pins = rows })) where
    pub create_pin-Frame :
        (n i s t : ℕ) (a : String) (remark : Option String) (u : ℕ)
        → Keeps P (Pins.create n i s t a remark u)
    unfolding Pins.create Pins.insert
    create_pin-Frame n i s t a remark u = search (keeps_rules, stable) depth 40

    pub delete_pin-Frame : (i : ℕ) → Keeps P (Pins.delete i)
    unfolding Pins.delete
    delete_pin-Frame i = search (keeps_rules, stable) depth 10
