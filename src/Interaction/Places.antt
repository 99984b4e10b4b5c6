-- ===== src/Interaction/Places.antt =====
-- The unique indexes of the markers, of the collections and of their items.
pub mod Kept
use blog_post.Base.{
  ℕ, ◌≡◌, refl, sym, ◌∙◌, Bool, true, false, String, Option, List, [], ◌∷◌, ◌&&◌, ◌==◌, arith,
  subst, ==→eq, Bool-cases, inl, inr, &&-left, &&-right, if◌then◌else◌,
}
use blog_post.Base.Tables.{exists, update_where, Single, Single-insert, Single-update}
use blog_post.Database.Interaction.{Marker, Catalog, CatalogItem}
use blog_post.Repository.Text.{PgText}
use blog_post.Repository.Markers
use blog_post.Repository.Markers.{is_at}
use blog_post.Repository.Catalogs
use blog_post.Repository.Catalogs.{is_default_of, is_item, conflicts}

abbrev pub marks : ℕ × ℕ → Marker → Bool
marks (user_id, blog_id) m = is_at user_id blog_id m

abbrev pub files : ℕ × ℕ → CatalogItem → Bool
files (catalog_id, blog_id) i = is_item catalog_id blog_id i

pub Single-put_marker :
    (m : Marker) (rows : List Marker) → Single marks rows → Single marks (Markers.put m rows)
unfolding Markers.put
Single-put_marker m rows s = elim (Bool-cases (exists (is_at m.user_id m.blog_id) rows)) [
  | inl there ↦ rw there (Single-update marks _ _ rows (λ i x h. h) s)
  | inr gone ↦ rw gone (
      Single-insert marks m rows
        (λ i hit.
          subst (λ u. exists (is_at u i.1) rows ≡ false) (==→eq _ _ (&&-left _ _ hit))
            (subst (λ b. exists (is_at m.user_id b) rows ≡ false) (==→eq _ _ (&&-right _ _ hit))
              gone))
        s)
]

pub Single-put_item :
    (new : CatalogItem) (rows : List CatalogItem)
    → Single files rows
    → Single files (Catalogs.put_item new rows)
Single-put_item new rows s = elim (Bool-cases (exists (is_item new.catalog_id new.blog_id) rows)) [
  | inl there ↦ rw there (Single-update files _ _ rows (λ i x h. h) s)
  | inr gone ↦ rw gone (
      Single-insert files new rows
        (λ i hit.
          subst (λ c. exists (is_item c i.1) rows ≡ false) (==→eq _ _ (&&-left _ _ hit))
            (subst (λ b. exists (is_item new.catalog_id b) rows ≡ false)
              (==→eq _ _ (&&-right _ _ hit)) gone))
        s)
]

-- A collection that is no second default.
pub Single-catalog :
    (new : Catalog) (rows : List Catalog)
    → (new.is_default && exists (is_default_of new.user_id) rows) ≡ false
    → Single is_default_of rows
    → Single is_default_of (new ∷ rows)
Single-catalog new rows alone s =
    let default : (u : ℕ) → is_default_of u new ≡ true → new.is_default ≡ true =
      λ u. &&-right _ _ in
    Single-insert is_default_of new rows
      (λ u hit.
        subst (λ v. exists (is_default_of v) rows ≡ false) (==→eq _ _ (&&-left _ _ hit))
          (rw (default u hit) at alone))
      s

-- No conflict of ON CONFLICT DO NOTHING: no second default.
no_conflict :
    (pg : PgText) (new : Catalog) (rows : List Catalog)
    → exists (conflicts pg new) rows ≡ false
    → (new.is_default && exists (is_default_of new.user_id) rows) ≡ false
unfolding exists
no_conflict pg new [] h = ground arith
no_conflict pg new (c ∷ rows) h = ground (arith, h, no_conflict pg new rows)

pub Single-unless :
    (pg : PgText) (new : Catalog) (rows : List Catalog) (clash : Bool)
    → exists (conflicts pg new) rows ≡ clash
    → Single is_default_of rows
    → Single is_default_of (if clash then rows else new ∷ rows)
Single-unless pg new rows true e s = s
Single-unless pg new rows false e s = Single-catalog new rows (no_conflict pg new rows e) s
