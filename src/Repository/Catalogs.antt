-- ===== src/Repository/Catalogs.antt =====
-- repository/interaction.py `SqlCatalogRepository`.
use blog_post.Base.{
  ℕ, Bool, true, String, Option, none, some, List, ◌∷◌, ◌&&◌, ◌||◌, not, ◌==◌, str_eq, coalesce,
  if◌then◌else◌, map,
}
use blog_post.Base.Tables.{
  find_first, exists, update_where, delete_where, affected, filter_rows, sort_rows,
}
use blog_post.Database.Interaction.{Catalog, CatalogItem, Page}
use blog_post.Errors.Constraint.{Constraint}
use blog_post.Database.Exec.{
  Error, Exec, pure, select, modify, raise_if, or_raise, translating, ◌>>=◌, ◌>>◌,
}
use blog_post.Repository.Text.{PgText, fits}
use blog_post.Repository.Users.{has_id}
use blog_post.Repository.Keyset.{CursorCodec, decode_optional, page_of, cursor_after}

unfoldable pub get : ℕ → Exec (Option Catalog)
get catalog_id = select (λ db. find_first (λ c. c.id == catalog_id) db.catalogs)

-- The unique index on (user_id, lower(btrim(name))).
abbrev pub is_named : PgText → ℕ → String → Catalog → Bool
is_named pg user_id name c =
    c.user_id == user_id && str_eq (pg.lower (pg.btrim c.name)) (pg.lower (pg.btrim name))

-- The unique index on user_id of the defaults.
abbrev pub is_default_of : ℕ → Catalog → Bool
is_default_of user_id c = c.user_id == user_id && c.is_default

abbrev pub new_catalog : ℕ → ℕ → ℕ → String → Bool → Catalog
new_catalog db_now catalog_id user_id name is_default = record {
  id = catalog_id;
  user_id = user_id;
  name = name;
  is_default = is_default;
  created_at = db_now;
  updated_at = db_now;
}

unfoldable pub insert : PgText → Catalog → Exec Catalog
unfolding fits
insert pg row = do
  raise_if (not (fits pg 120 row.name)) (Error.integrity Constraint.catalogs_name_check)
  raise_if (← select (λ db. exists (λ c. c.id == row.id) db.catalogs))
      (Error.integrity Constraint.catalogs_pkey)
  raise_if (← select (λ db. exists (is_named pg row.user_id row.name) db.catalogs))
      (Error.integrity Constraint.catalogs_name_per_user)
  raise_if (← select (λ db. row.is_default && exists (is_default_of row.user_id) db.catalogs))
      (Error.integrity Constraint.catalogs_one_default)
  raise_if (← select (λ db. not (exists (has_id row.user_id) db.users)))
      (Error.integrity Constraint.catalogs_user_id_fkey)
  modify (λ db. record db { catalogs = row ∷ db.catalogs })
  pure row

unfoldable pub create : PgText → ℕ → ℕ → ℕ → String → Bool → Exec Catalog
unfolding insert
create pg db_now catalog_id user_id name is_default =
    translating (λ _. none) (insert pg (new_catalog db_now catalog_id user_id name is_default))

-- Any unique index in the way: ON CONFLICT DO NOTHING names none.
abbrev pub conflicts : PgText → Catalog → Catalog → Bool
conflicts pg row c =
    c.id == row.id
    || is_named pg row.user_id row.name c
    || (row.is_default && is_default_of row.user_id c)

unfoldable pub insert_unless : PgText → Catalog → Exec Unit
unfolding fits
insert_unless pg row = do
  raise_if (not (fits pg 120 row.name)) (Error.integrity Constraint.catalogs_name_check)
  clash ← select (λ db. exists (conflicts pg row) db.catalogs)
  raise_if (← select (λ db. not clash && not (exists (has_id row.user_id) db.users)))
      (Error.integrity Constraint.catalogs_user_id_fkey)
  modify λ db. record db { catalogs = if clash then db.catalogs else row ∷ db.catalogs }

unfoldable pub ensure_default : PgText → ℕ → ℕ → ℕ → Exec Catalog
unfolding insert_unless
ensure_default pg db_now user_id catalog_id = do
  insert_unless pg (new_catalog db_now catalog_id user_id "Saved" true)
  row ← select (λ db. find_first (is_default_of user_id) db.catalogs)
  or_raise row Error.assertion

abbrev pub is_renamed : ℕ → ℕ → Catalog → Bool
is_renamed catalog_id user_id c = c.id == catalog_id && c.user_id == user_id

-- The check and the unique index for a row that is updated; the row itself is no conflict.
unfoldable pub rename : PgText → ℕ → ℕ → ℕ → String → Exec (Option Catalog)
unfolding fits
rename pg db_now catalog_id user_id name = do
  translating (λ _. none)
      (do
        hit ← select (λ db. exists (is_renamed catalog_id user_id) db.catalogs)
        raise_if (hit && not (fits pg 120 name)) (Error.integrity Constraint.catalogs_name_check)
        raise_if
            (← select (λ db.
              hit
              && exists (λ c. is_named pg user_id name c && not (c.id == catalog_id)) db.catalogs))
            (Error.integrity Constraint.catalogs_name_per_user)
        modify λ db. record db {
          catalogs =
              update_where (is_renamed catalog_id user_id)
                (λ c. record c { name = name; updated_at = db_now }) db.catalogs;
        })
  select (λ db. find_first (is_renamed catalog_id user_id) db.catalogs)

abbrev pub is_disposable : ℕ → ℕ → Catalog → Bool
is_disposable catalog_id user_id c = c.id == catalog_id && c.user_id == user_id && not c.is_default

-- The items of a catalog that goes go with it.
unfoldable pub delete : ℕ → ℕ → Exec Bool
delete catalog_id user_id = do
  n ← select (λ db. affected (is_disposable catalog_id user_id) db.catalogs)
  modify λ db. record db {
    catalogs = delete_where (is_disposable catalog_id user_id) db.catalogs;
    catalog_items =
        delete_where
          (λ i. i.catalog_id == catalog_id && exists (is_disposable catalog_id user_id) db.catalogs)
          db.catalog_items;
  }
  pure (n == 1)

-- The default first, then by lower(name).
abbrev pub listed_before : PgText → Catalog → Catalog → Bool
listed_before pg a b =
    (a.is_default && not b.is_default)
    || (not (b.is_default && not a.is_default) && pg.precedes (pg.lower a.name) (pg.lower b.name))

-- Each catalog with its `item_count`.
unfoldable pub list_for_user : PgText → ℕ → Exec (List (Catalog × ℕ))
list_for_user pg user_id = select (λ db.
    map (λ c. (c, affected (λ i. i.catalog_id == c.id) db.catalog_items))
      (sort_rows (listed_before pg) (filter_rows (λ c. c.user_id == user_id) db.catalogs)))

abbrev pub is_item : ℕ → ℕ → CatalogItem → Bool
is_item catalog_id blog_id i = i.catalog_id == catalog_id && i.blog_id == blog_id

abbrev pub put_item : CatalogItem → List CatalogItem → List CatalogItem
put_item new rows =
    if exists (is_item new.catalog_id new.blog_id) rows
    then update_where (is_item new.catalog_id new.blog_id)
        (λ i. record i { note = coalesce new.note i.note }) rows
    else new ∷ rows

-- INSERT ... ON CONFLICT DO UPDATE, RETURNING the row.
unfoldable pub add_item : ℕ → ℕ → ℕ → Option String → Exec CatalogItem
add_item db_now catalog_id blog_id note =
    let new : CatalogItem = record {
      catalog_id = catalog_id;
      blog_id = blog_id;
      added_at = db_now;
      note = note;
    } in
    do
      known ← select (λ db. exists (is_item catalog_id blog_id) db.catalog_items)
      raise_if (← select (λ db. not known && not (exists (λ c. c.id == catalog_id) db.catalogs)))
          (Error.integrity Constraint.catalog_items_catalog_id_fkey)
      raise_if (← select (λ db. not known && not (exists (λ b. b.id == blog_id) db.blogs)))
          (Error.integrity Constraint.catalog_items_blog_id_fkey)
      modify (λ db. record db { catalog_items = put_item new db.catalog_items })
      row ← select (λ db. find_first (is_item catalog_id blog_id) db.catalog_items)
      or_raise row Error.assertion

unfoldable pub remove_item : ℕ → ℕ → Exec Bool
remove_item catalog_id blog_id = do
  n ← select (λ db. affected (is_item catalog_id blog_id) db.catalog_items)
  modify
      λ db. record db { catalog_items = delete_where (is_item catalog_id blog_id) db.catalog_items }
  pure (n == 1)

unfoldable pub list_items : CursorCodec → ℕ → Option String → ℕ → Exec (Page CatalogItem)
list_items codec catalog_id cursor limit = do
  keys ← decode_optional codec cursor
  rows ← select (λ db.
      page_of (λ i. some i.added_at) (λ i. i.blog_id) (λ i. i.catalog_id == catalog_id) keys limit
        db.catalog_items)
  next_cursor ← cursor_after (λ i. some i.added_at) (λ i. i.blog_id) codec rows.next
  pure (record { items = rows.items; next_cursor = next_cursor; has_more = rows.has_more })
