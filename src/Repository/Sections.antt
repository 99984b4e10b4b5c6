-- ===== src/Repository/Sections.antt =====
-- repository/content.py `SqlBlogSectionRepository`.
use blog_post.Base.{
  ℕ, Bool, String, Option, none, some, List, [], ◌∷◌, ◌&&◌, not, ltb, leb, ◌==◌, str_eq,
  if◌then◌else◌,
}
use blog_post.Base.Tables.{exists, update_where, delete_where}
use blog_post.Errors.Category.{ErrorCategory}
use blog_post.Errors.Constraint.{Constraint}
use blog_post.Database.Content.{BlogSection, SectionRow, ReferencePin}
use blog_post.Database.Tables.{Db}
use blog_post.Database.Exec.{Error, Exec, pure, select, modify, raise_if, translating, ◌>>=◌, ◌>>◌}
use blog_post.Repository.Text.{PgText}
use blog_post.Repository.Blogs.{has_blog_id, sections_of}

abbrev pub is_section : ℕ → String → SectionRow → Bool
is_section blog_id anchor s = s.blog_id == blog_id && str_eq s.section.anchor anchor

-- The row is of the article, and its anchor is none of the new ones.
abbrev pub is_dropped : ℕ → List BlogSection → SectionRow → Bool
is_dropped blog_id sections s =
    s.blog_id == blog_id && not (exists (λ n. str_eq n.anchor s.section.anchor) sections)

-- The composite foreign key of a pin.
abbrev pub pins_into : SectionRow → ReferencePin → Bool
pins_into s p = p.target_blog_id == s.blog_id && str_eq p.target_anchor s.section.anchor

abbrev pub drops_pinned : ℕ → List BlogSection → Db → Bool
drops_pinned blog_id sections db =
    exists (λ s. is_dropped blog_id sections s && exists (pins_into s) db.reference_pins)
      db.blog_sections

-- The checks on the level and on the offsets.
abbrev pub is_level : BlogSection → Bool
is_level s = leb 1 s.level && leb s.level 6

abbrev pub put : ℕ → BlogSection → List SectionRow → List SectionRow
put blog_id section rows =
    if exists (is_section blog_id section.anchor) rows
    then update_where (is_section blog_id section.anchor) (λ s. record s { section = section }) rows
    else record { blog_id = blog_id; section = section } ∷ rows

unfoldable pub upsert : PgText → ℕ → BlogSection → Exec Unit
upsert pg blog_id section = do
  raise_if (not (pg.is_key section.anchor)) (Error.integrity Constraint.blog_sections_anchor_check)
  raise_if (ltb section.char_end section.char_start)
      (Error.integrity Constraint.blog_sections_check)
  raise_if (not (is_level section)) (Error.integrity Constraint.blog_sections_level_check)
  raise_if
      (← select (λ db.
        not (exists (is_section blog_id section.anchor) db.blog_sections)
        && not (exists (has_blog_id blog_id) db.blogs)))
      (Error.integrity Constraint.blog_sections_blog_id_fkey)
  modify λ db. record db { blog_sections = put blog_id section db.blog_sections }

unfoldable pub upsert_all : PgText → ℕ → List BlogSection → Exec Unit
unfolding upsert
upsert_all pg blog_id [] = pure tt
upsert_all pg blog_id (s ∷ rest) = upsert pg blog_id s >> upsert_all pg blog_id rest

-- What the foreign key of a pin means from this side.
abbrev pub overrides : Constraint → Option ErrorCategory
overrides Constraint.reference_pins_target_blog_id_target_anchor_fkey =
    some ErrorCategory.section_referenced_by_pin
overrides _ = none

-- The DELETE is refused where a pin refers to a row of it.
unfoldable pub delete_dropped : ℕ → List BlogSection → Exec Unit
delete_dropped blog_id sections = do
  raise_if (← select (drops_pinned blog_id sections))
      (Error.integrity Constraint.reference_pins_target_blog_id_target_anchor_fkey)
  modify λ db. record db {
    blog_sections = delete_where (is_dropped blog_id sections) db.blog_sections;
  }

unfoldable pub replace_all : PgText → ℕ → List BlogSection → Exec Unit
unfolding delete_dropped upsert_all
replace_all pg blog_id sections =
    translating overrides (delete_dropped blog_id sections >> upsert_all pg blog_id sections)

unfoldable pub list_for : ℕ → Exec (List BlogSection)
unfolding sections_of
list_for blog_id = select (sections_of blog_id)

unfoldable pub section_exists : ℕ → String → Exec Bool
section_exists blog_id anchor = select (λ db. exists (is_section blog_id anchor) db.blog_sections)
