-- ===== src/Interaction/Places/Kept.antt =====
-- The statements on markers and collections, and the unique indexes.
use blog_post.Base.{ℕ, refl, Bool, String, Option, ◌≡◌}
use blog_post.Base.Tables.{Single, Single-delete, exists}
use blog_post.Database.Interaction.{MarkerAnchor, Catalog}
use blog_post.Database.Tables.{Db}
use blog_post.Database.Exec.Ensures.{
  Keeps, Ensures-bind, Ensures-select, Ensures-pure, Ensures-modify, Keeps-translating, keeps_rules,
}
use blog_post.Database.Exec.Guards.{Ensures-unless, Ensures-when}
use blog_post.Repository.Text.{PgText}
use blog_post.Repository.Markers
use blog_post.Repository.Catalogs
use blog_post.Repository.Catalogs.{is_default_of, conflicts}
use blog_post.Interaction.Places.{
  marks, files, Single-put_marker, Single-put_item, Single-catalog, Single-unless,
}

abbrev pub OnMarkers : Db → Type 0
OnMarkers db = Single marks db.markers

abbrev pub OnDefaults : Db → Type 0
OnDefaults db = Single is_default_of db.catalogs

abbrev pub OnItems : Db → Type 0
OnItems db = Single files db.catalog_items

pub upsert-Markers :
    (f : ℕ → ℕ) (u b : ℕ) (a : MarkerAnchor) (r : Option ℕ) (now : ℕ)
    → Keeps OnMarkers (Markers.upsert f u b a r now)
unfolding Markers.upsert
upsert-Markers f u b a r now = search (keeps_rules, Single-put_marker) depth 16

pub delete-Markers : (u b : ℕ) → Keeps OnMarkers (Markers.delete u b)
unfolding Markers.delete
delete-Markers u b = search (keeps_rules, Single-delete) depth 10

pub create-Defaults :
    (pg : PgText) (n i u : ℕ) (name : String) (d : Bool)
    → Keeps OnDefaults (Catalogs.create pg n i u name d)
unfolding Catalogs.create Catalogs.insert
create-Defaults pg n i u name d = Keeps-translating _ _ (
    Ensures-when _ _ (λ db s. s)
      λ _.
        Ensures-unless _ _ (λ db s. s)
          (Ensures-unless _ _ (λ db s. s.0)
            (Ensures-unless _ _ (λ db s. s.0.0)
              (Ensures-unless _ _ (λ db s. s.0.0.0)
                (Ensures-bind
                  (Ensures-modify _ λ db s. Single-catalog _ db.catalogs s.0.1 s.0.0.0.0)
                  λ _. Ensures-pure _ (λ db s. s))))))

insert_unless-Defaults :
    (pg : PgText) (row : Catalog) → Keeps OnDefaults (Catalogs.insert_unless pg row)
unfolding Catalogs.insert_unless
insert_unless-Defaults pg row =
    Ensures-when _ _ (λ db s. s)
      λ _.
        Ensures-bind {Q = λ b db. OnDefaults db × (exists (conflicts pg row) db.catalogs ≡ b)}
          (Ensures-select _ (λ db s. (s, refl)))
          λ clash.
            Ensures-unless _ _ (λ db s. s.0)
              (Ensures-modify _ λ db s. Single-unless pg row db.catalogs clash s.0.1 s.0.0)

pub ensure_default-Defaults :
    (pg : PgText) (n u i : ℕ) → Keeps OnDefaults (Catalogs.ensure_default pg n u i)
unfolding Catalogs.ensure_default
ensure_default-Defaults pg n u i = search (keeps_rules, insert_unless-Defaults) depth 10

pub add_item-Items :
    (n c b : ℕ) (remark : Option String) → Keeps OnItems (Catalogs.add_item n c b remark)
unfolding Catalogs.add_item
add_item-Items n c b remark = search (keeps_rules, Single-put_item) depth 16

pub remove_item-Items : (c b : ℕ) → Keeps OnItems (Catalogs.remove_item c b)
unfolding Catalogs.remove_item
remove_item-Items c b = search (keeps_rules, Single-delete) depth 10
