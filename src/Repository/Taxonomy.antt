-- ===== src/Repository/Taxonomy.antt =====
-- repository/content.py `SqlTaxonomyRepository`. Its integrity errors are not translated.
use blog_post.Base.{ℕ, Bool, String, Option, List, ◌∷◌, ◌&&◌, not, ◌==◌, str_eq, if◌then◌else◌}
use blog_post.Base.Tables.{find_first, exists, update_where, sort_rows}
use blog_post.Errors.Constraint.{Constraint}
use blog_post.Database.Content.{CategoryRow, SeriesRow}
use blog_post.Database.Exec.{Error, Exec, select, modify, raise_if, or_raise, ◌>>=◌, ◌>>◌}
use blog_post.Repository.Text.{PgText, is_filled}

abbrev pub is_category : String → CategoryRow → Bool
is_category key c = str_eq c.key key

abbrev pub is_series : String → SeriesRow → Bool
is_series key s = str_eq s.key key

unfoldable pub list_categories : PgText → Exec (List CategoryRow)
list_categories pg = select (λ db. sort_rows (λ x y. pg.precedes x.key y.key) db.categories)

unfoldable pub get_category : String → Exec (Option CategoryRow)
get_category key = select (λ db. find_first (is_category key) db.categories)

abbrev pub put_category : CategoryRow → List CategoryRow → List CategoryRow
put_category new rows =
    if exists (is_category new.key) rows
    then update_where (is_category new.key)
        (λ c. record c { label = new.label; description = new.description }) rows
    else new ∷ rows

unfoldable pub upsert_category : PgText → String → String → Option String → Exec CategoryRow
unfolding is_filled
upsert_category pg key label description = do
  raise_if (not (pg.is_key key)) (Error.integrity Constraint.categories_key_check)
  raise_if (not (is_filled pg label)) (Error.integrity Constraint.categories_label_check)
  modify λ db. record db {
    categories =
        put_category (record { key = key; label = label; description = description }) db.categories;
  }
  row ← select (λ db. find_first (is_category key) db.categories)
  or_raise row Error.assertion

unfoldable pub list_series : PgText → Exec (List SeriesRow)
list_series pg = select (λ db. sort_rows (λ x y. pg.precedes x.key y.key) db.series)

unfoldable pub get_series_by_key : String → Exec (Option SeriesRow)
get_series_by_key key = select (λ db. find_first (is_series key) db.series)

-- The id of a series that is there already stays.
abbrev pub put_series : SeriesRow → List SeriesRow → List SeriesRow
put_series new rows =
    if exists (is_series new.key) rows
    then update_where (is_series new.key)
        (λ s. record s { title = new.title; description = new.description }) rows
    else new ∷ rows

unfoldable pub upsert_series : PgText → ℕ → String → String → Option String → Exec SeriesRow
unfolding is_filled
upsert_series pg series_id key title description = do
  raise_if (not (pg.is_key key)) (Error.integrity Constraint.series_key_check)
  raise_if (not (is_filled pg title)) (Error.integrity Constraint.series_title_check)
  raise_if
      (← select
        (λ db. not (exists (is_series key) db.series) && exists (λ s. s.id == series_id) db.series))
      (Error.integrity Constraint.series_pkey)
  modify λ db. record db {
    series =
        put_series (record { id = series_id; key = key; title = title; description = description })
          db.series;
  }
  row ← select (λ db. find_first (is_series key) db.series)
  or_raise row Error.assertion
