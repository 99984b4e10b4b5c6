-- ===== src/Repository/Pins.antt =====
-- repository/content.py `SqlReferencePinRepository`.
use blog_post.Base.{ℕ, Bool, String, Option, none, some, List, ◌∷◌, ◌&&◌, not, ltb, ◌==◌, str_eq}
use blog_post.Base.Tables.{exists, delete_where, affected, filter_rows, sort_rows}
use blog_post.Errors.Category.{ErrorCategory}
use blog_post.Errors.Constraint.{Constraint}
use blog_post.Database.Content.{ReferencePin}
use blog_post.Database.Exec.{Error, Exec, pure, select, modify, raise_if, translating, ◌>>=◌, ◌>>◌}
use blog_post.Repository.Users.{has_id}
use blog_post.Repository.Blogs.{has_blog_id}
use blog_post.Repository.Sections.{is_section}

-- What the foreign keys mean from the side of the pin.
abbrev pub overrides : Constraint → Option ErrorCategory
overrides Constraint.reference_pins_target_blog_id_target_anchor_fkey =
    some ErrorCategory.section_anchor_unknown
overrides Constraint.reference_pins_target_blog_id_fkey = some ErrorCategory.blog_not_found
overrides Constraint.reference_pins_source_blog_id_fkey = some ErrorCategory.blog_not_found
overrides _ = none

abbrev pub same_link : ReferencePin → ReferencePin → Bool
same_link new p =
    p.source_blog_id == new.source_blog_id
    && p.target_blog_id == new.target_blog_id
    && str_eq p.target_anchor new.target_anchor

-- INSERT: the check, the unique indexes, and the foreign keys in the order of the table.
unfoldable pub insert : ReferencePin → Exec ReferencePin
insert row = do
  raise_if (row.source_blog_id == row.target_blog_id)
      (Error.integrity Constraint.reference_pins_not_self)
  raise_if (← select (λ db. exists (λ p. p.id == row.id) db.reference_pins))
      (Error.integrity Constraint.reference_pins_pkey)
  raise_if (← select (λ db. exists (same_link row) db.reference_pins))
      (Error.integrity Constraint.reference_pins_source_blog_id_target_blog_id_target_anchor_key)
  raise_if (← select (λ db. not (exists (has_blog_id row.source_blog_id) db.blogs)))
      (Error.integrity Constraint.reference_pins_source_blog_id_fkey)
  raise_if (← select (λ db. not (exists (has_blog_id row.target_blog_id) db.blogs)))
      (Error.integrity Constraint.reference_pins_target_blog_id_fkey)
  raise_if (← select (λ db. not (exists (has_id row.created_by) db.users)))
      (Error.integrity Constraint.reference_pins_created_by_fkey)
  raise_if
      (← select
        (λ db. not (exists (is_section row.target_blog_id row.target_anchor) db.blog_sections)))
      (Error.integrity Constraint.reference_pins_target_blog_id_target_anchor_fkey)
  modify (λ db. record db { reference_pins = row ∷ db.reference_pins })
  pure row

abbrev pub new_pin : ℕ → ℕ → ℕ → ℕ → String → Option String → ℕ → ReferencePin
new_pin db_now pin_id source_blog_id target_blog_id target_anchor note created_by = record {
  id = pin_id;
  source_blog_id = source_blog_id;
  target_blog_id = target_blog_id;
  target_anchor = target_anchor;
  note = note;
  created_by = created_by;
  created_at = db_now;
}

unfoldable pub create : ℕ → ℕ → ℕ → ℕ → String → Option String → ℕ → Exec ReferencePin
unfolding insert
create db_now pin_id source_blog_id target_blog_id target_anchor note created_by =
    translating overrides
      (insert (new_pin db_now pin_id source_blog_id target_blog_id target_anchor note created_by))

unfoldable pub delete : ℕ → Exec Bool
delete pin_id = do
  n ← select (λ db. affected (λ p. p.id == pin_id) db.reference_pins)
  modify λ db. record db { reference_pins = delete_where (λ p. p.id == pin_id) db.reference_pins }
  pure (n == 1)

unfoldable pub list_where : (ReferencePin → Bool) → Exec (List ReferencePin)
list_where chosen =
    select (λ db.
      sort_rows (λ x y. ltb x.created_at y.created_at) (filter_rows chosen db.reference_pins))

unfoldable pub list_for_source : ℕ → Exec (List ReferencePin)
unfolding list_where
list_for_source blog_id = list_where (λ p. p.source_blog_id == blog_id)

unfoldable pub list_for_target : ℕ → Exec (List ReferencePin)
unfolding list_where
list_for_target blog_id = list_where (λ p. p.target_blog_id == blog_id)
