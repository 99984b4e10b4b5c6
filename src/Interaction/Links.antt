-- ===== src/Interaction/Links.antt =====
-- Reference pins and the sections they refer to.
use blog_post.Base.{ℕ, ◌≡◌, Bool, true, false, String, Option, List, not, ◌==◌, arith}
use blog_post.Base.Tables.{All, exists, All-delete_where}
use blog_post.Database.Content.{ReferencePin, SectionRow}
use blog_post.Database.Tables.{Db}
use blog_post.Database.Exec.Ensures.{
  Keeps, Ensures-bind, Ensures-modify, Ensures-pure, Keeps-translating, Keeps-bind, Keeps-select,
  Keeps-modify, Keeps-pure,
}
use blog_post.Database.Exec.Guards.{Ensures-unless, Ensures-when}
use blog_post.Repository.Sections.{is_section}
use blog_post.Repository.Pins

-- The pin leads to a section of another article.
abbrev pub Leads : List SectionRow → ReferencePin → Type 0
Leads sections p =
    (exists (is_section p.target_blog_id p.target_anchor) sections ≡ true)
    × ((p.source_blog_id == p.target_blog_id) ≡ false)

abbrev pub Anchored : Db → Type 0
Anchored db = All (Leads db.blog_sections) db.reference_pins

not-false : (b : Bool) → not b ≡ false → b ≡ true
not-false b h = ground arith

pub create_pin-Anchored :
    (n i s t : ℕ) (a : String) (remark : Option String) (u : ℕ)
    → Keeps Anchored (Pins.create n i s t a remark u)
unfolding Pins.create Pins.insert
create_pin-Anchored n i s t a remark u = Keeps-translating _ _ (
    Ensures-when _ _ (λ db p. p)
      λ other.
        Ensures-unless _ _ (λ db p. p)
          (Ensures-unless _ _ (λ db p. p.0)
            (Ensures-unless _ _ (λ db p. p.0.0)
              (Ensures-unless _ _ (λ db p. p.0.0.0)
                (Ensures-unless _ _ (λ db p. p.0.0.0.0)
                  (Ensures-unless _ _ (λ db p. p.0.0.0.0.0)
                    (Ensures-bind
                      (Ensures-modify _ λ db p. ((not-false _ p.1, other), p.0.0.0.0.0.0))
                      λ _. Ensures-pure _ (λ db p. p))))))))

pub delete_pin-Anchored : (i : ℕ) → Keeps Anchored (Pins.delete i)
unfolding Pins.delete
delete_pin-Anchored i = Keeps-bind _ _ (Keeps-select _) λ n.
    Keeps-bind _ _ (Keeps-modify _ λ db p. All-delete_where _ _ db.reference_pins p)
      λ _. Keeps-pure _
