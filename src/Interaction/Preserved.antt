-- ===== src/Interaction/Preserved.antt =====
-- From what the statements of the interaction service keep to what its use cases keep.
use blog_post.Base.{ℕ, Bool, false, String, Option, none, some, List, [], ◌∷◌, not}
use blog_post.Database.Interaction.{MarkerAnchor, Catalog}
use blog_post.Database.Tables.{Db}
use blog_post.Database.Exec.{Error, pure, raise}
use blog_post.Database.Exec.Ensures.{
  Keeps, Ensures-begin, Keeps-pure, Keeps-raise, Keeps-bind, Keeps-select, Keeps-draw,
  Keeps-raise_if, Keeps-or_raise, keeps_rules,
}
use blog_post.Policy.{Principal, Permission, require, can}
use blog_post.Auth.Service.{Instant}
use blog_post.Repository.Text.{PgText}
use blog_post.Repository.Comments
use blog_post.Repository.Markers as Rows
use blog_post.Repository.Catalogs
use blog_post.Repository.Pins as PinRows
use blog_post.Repository.Blogs
use blog_post.Repository.Sections
use blog_post.Errors.Category.{ErrorCategory}
use blog_post.Interaction.{
  InteractionService, require_to, user_of, allowed_user, assert_readable, write_comment, comment,
  edit_comment, delete_comment,
}
use blog_post.Interaction.Markers.{
  assert_headings, assert_anchors_exist, headings, place_marker, delete_marker,
}
use blog_post.Interaction.Shelves.{
  owned_by, owned, chosen_catalog, save_to_catalog, create_catalog, remove_from_catalog,
}
use blog_post.Interaction.Pins.{create_pin, delete_pin}

pub record Preserved (P : Db → Type 0) : Type 0 where
  pub root : (pg : PgText) (n i b u : ℕ) (t : String) → Keeps P (Comments.create_root pg n i b u t)
  pub reply :
      (pg : PgText) (n i b u p : ℕ) (t : String) → Keeps P (Comments.create_reply pg n i b u p t)
  pub body : (pg : PgText) (n i u : ℕ) (t : String) → Keeps P (Comments.update_body pg n i u t)
  pub removal : (n i u t : ℕ) (admin : Bool) → Keeps P (Comments.soft_delete n i u t admin)
  pub placing :
      (f : ℕ → ℕ) (u b : ℕ) (a : MarkerAnchor) (r : Option ℕ) (t : ℕ)
      → Keeps P (Rows.upsert f u b a r t)
  pub lifting : (u b : ℕ) → Keeps P (Rows.delete u b)
  pub default : (pg : PgText) (n u i : ℕ) → Keeps P (Catalogs.ensure_default pg n u i)
  pub catalog :
      (pg : PgText) (n i u : ℕ) (t : String) (d : Bool) → Keeps P (Catalogs.create pg n i u t d)
  pub item : (n c b : ℕ) (t : Option String) → Keeps P (Catalogs.add_item n c b t)
  pub withdrawal : (c b : ℕ) → Keeps P (Catalogs.remove_item c b)
  pub pin :
      (n i s t : ℕ) (a : String) (o : Option String) (u : ℕ)
      → Keeps P (PinRows.create n i s t a o u)
  pub unpin : (i : ℕ) → Keeps P (PinRows.delete i)

module _ (P : Db → Type 0) where
  pub require_to-Keeps : (q : Permission) (p : Principal) → Keeps P (require_to q p)
  unfolding require_to
  require_to-Keeps q p = refused (require (can q p) p)
    where
      refused :
          (o : Option ErrorCategory)
          → Keeps P (elim o [ none ↦ pure tt | some c ↦ raise (Error.platform c) ])
      refused none = Keeps-pure tt
      refused (some c) = Keeps-raise _

  user_of-Keeps : (p : Principal) → Keeps P (user_of p)
  unfolding user_of
  user_of-Keeps (Principal.anonymous _) = Keeps-raise _
  user_of-Keeps (Principal.signed_in _ u _) = Keeps-pure u

  pub allowed_user-Keeps : (q : Permission) (p : Principal) → Keeps P (allowed_user q p)
  unfolding allowed_user
  allowed_user-Keeps q p = Keeps-bind _ _ (require_to-Keeps q p) λ _. user_of-Keeps p

  assert_readable-Keeps :
      (self : InteractionService) (at : Instant) (b : ℕ) → Keeps P (assert_readable self at b)
  unfolding assert_readable Blogs.get Blogs.one
  assert_readable-Keeps self at b = search keeps_rules

  assert_headings-Keeps : (b : ℕ) (hs : List String) → Keeps P (assert_headings b hs)
  unfolding assert_headings Sections.section_exists
  assert_headings-Keeps b [] = Keeps-pure tt
  assert_headings-Keeps b (h ∷ hs) =
      Keeps-bind _ _ (Keeps-select _)
        λ known. Keeps-bind _ _ (Keeps-raise_if (not known) _) λ _. assert_headings-Keeps b hs

  assert_anchors-Keeps : (b : ℕ) (a : MarkerAnchor) → Keeps P (assert_anchors_exist b a)
  unfolding assert_anchors_exist
  assert_anchors-Keeps b a = assert_headings-Keeps b (headings a)

  owned_by-Keeps : (u : ℕ) (o : Option Catalog) → Keeps P (owned_by u o)
  unfolding owned_by
  owned_by-Keeps u none = Keeps-raise _
  owned_by-Keeps u (some c) = search keeps_rules

  owned-Keeps : (u c : ℕ) → Keeps P (owned u c)
  unfolding owned Catalogs.get
  owned-Keeps u c = search (keeps_rules, owned_by-Keeps)

module _ (self : InteractionService) (at : Instant) {P : Db → Type 0} (k : Preserved P) where
  write_comment-Keeps :
      (u b : ℕ) (t : String) (o : Option ℕ) → Keeps P (write_comment self at u b t o)
  unfolding write_comment
  write_comment-Keeps u b t none =
      Keeps-bind _ _ (Keeps-draw _) λ i. k.root self.text at.db_now i b u t
  write_comment-Keeps u b t (some p) =
      Keeps-bind _ _ (Keeps-draw _) λ i. k.reply self.text at.db_now i b u p t

  pub comment-Keeps :
      (p : Principal) (b : ℕ) (t : String) (o : Option ℕ) → Keeps P (comment self at p b t o)
  unfolding comment
  comment-Keeps p b t o = Keeps-bind _ _ (allowed_user-Keeps P Permission.comment p) λ u.
      Ensures-begin
        (Keeps-bind _ _ (assert_readable-Keeps P self at b) λ _. write_comment-Keeps u b t o)

  pub edit_comment-Keeps :
      (p : Principal) (i : ℕ) (t : String) → Keeps P (edit_comment self at p i t)
  unfolding edit_comment
  edit_comment-Keeps p i t =
      Keeps-bind _ _ (allowed_user-Keeps P Permission.comment p) λ u.
        Keeps-bind _ _ (Ensures-begin (k.body self.text at.db_now i u t)) λ o. Keeps-or_raise o _

  pub delete_comment-Keeps : (p : Principal) (i : ℕ) → Keeps P (delete_comment self at p i)
  unfolding delete_comment
  delete_comment-Keeps p i = Keeps-bind _ _ (allowed_user-Keeps P Permission.comment p) λ u.
      Keeps-bind _ _ (Ensures-begin (k.removal at.db_now i u at.clock (can Permission.moderate p)))
        λ b. Keeps-raise_if (not b) _

  pub place_marker-Keeps :
      (p : Principal) (b : ℕ) (a : MarkerAnchor) (r : Option ℕ)
      → Keeps P (place_marker self at p b a r)
  unfolding place_marker
  place_marker-Keeps p b a r = Keeps-bind _ _ (allowed_user-Keeps P Permission.mark p) λ u.
      Ensures-begin (
        Keeps-bind _ _ (assert_readable-Keeps P self at b) λ _.
          Keeps-bind _ _ (assert_anchors-Keeps P b a) λ _. k.placing self.to_real u b a r at.clock)

  pub delete_marker-Keeps : (p : Principal) (b : ℕ) → Keeps P (delete_marker p b)
  unfolding delete_marker
  delete_marker-Keeps p b =
      Keeps-bind _ _ (allowed_user-Keeps P Permission.mark p)
        λ u. Ensures-begin (Keeps-bind _ _ (k.lifting u b) λ d. Keeps-raise_if (not d) _)

  chosen_catalog-Keeps : (u : ℕ) (o : Option ℕ) → Keeps P (chosen_catalog self at u o)
  unfolding chosen_catalog
  chosen_catalog-Keeps u none = Keeps-bind _ _ (Keeps-draw _) λ i. k.default self.text at.db_now u i
  chosen_catalog-Keeps u (some c) = owned-Keeps P u c

  pub save_to_catalog-Keeps :
      (p : Principal) (b : ℕ) (c : Option ℕ) (t : Option String)
      → Keeps P (save_to_catalog self at p b c t)
  unfolding save_to_catalog
  save_to_catalog-Keeps p b c t = Keeps-bind _ _ (allowed_user-Keeps P Permission.save p) λ u.
      Ensures-begin (
        Keeps-bind _ _ (assert_readable-Keeps P self at b)
          λ _. Keeps-bind _ _ (chosen_catalog-Keeps u c) λ row. k.item at.db_now row.id b t)

  pub create_catalog-Keeps : (p : Principal) (t : String) → Keeps P (create_catalog self at p t)
  unfolding create_catalog
  create_catalog-Keeps p t = Keeps-bind _ _ (allowed_user-Keeps P Permission.save p) λ u.
      Ensures-begin (Keeps-bind _ _ (Keeps-draw _) λ i. k.catalog self.text at.db_now i u t false)

  pub remove_from_catalog-Keeps : (p : Principal) (c b : ℕ) → Keeps P (remove_from_catalog p c b)
  unfolding remove_from_catalog
  remove_from_catalog-Keeps p c b = Keeps-bind _ _ (allowed_user-Keeps P Permission.save p) λ u.
      Ensures-begin (
        Keeps-bind _ _ (owned-Keeps P u c)
          λ row. Keeps-bind _ _ (k.withdrawal c b) λ n. Keeps-pure tt)

  pub create_pin-Keeps :
      (p : Principal) (s t : ℕ) (a : String) (o : Option String)
      → Keeps P (create_pin self at p s t a o)
  unfolding create_pin
  create_pin-Keeps p s t a o =
      Keeps-bind _ _ (allowed_user-Keeps P Permission.manage_pins p)
        λ u. Ensures-begin (Keeps-bind _ _ (Keeps-draw _) λ i. k.pin at.db_now i s t a o u)

  pub delete_pin-Keeps : (p : Principal) (i : ℕ) → Keeps P (delete_pin p i)
  unfolding delete_pin
  delete_pin-Keeps p i =
      Keeps-bind _ _ (require_to-Keeps P Permission.manage_pins p)
        λ _. Ensures-begin (Keeps-bind _ _ (k.unpin i) λ d. Keeps-raise_if (not d) _)
