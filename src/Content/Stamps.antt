-- ===== src/Content/Stamps.antt =====
-- The rows of articles: their ids, and the time that goes with a status.
use blog_post.Base.{
  ℕ, ◌≡◌, refl, sym, subst, Bool, true, false, Option, none, some, List, [], ◌∷◌, ◌==◌, arith,
  ==→eq, Bool-cases, inl, inr,
}
use blog_post.Base.Tables.{
  All, All-map, Unique, Unique-All, Unique-update_where, find_first, find_first-In, find_first-some,
  exists-false, update_where,
}
use blog_post.Database.Content.{BlogRow, ObjectKey}
use blog_post.Database.Tables.{Db}
use blog_post.Database.Exec.Ensures.{
  Ensures, Keeps, Ensures-bind, Ensures-select, Ensures-modify, Ensures-pure, Ensures-translating,
  Ensures-weaken, Ensures-raise_if, Keeps-bind, Keeps-select, Keeps-modify, Keeps-pure,
  Keeps-translating,
}
use blog_post.Database.Exec.Guards.{Ensures-unless, Ensures-when}
use blog_post.Repository.Text.{PgText}
use blog_post.Repository.Blogs
use blog_post.Repository.Blogs.{
  Patch, has_blog_id, lacks_published_at, lacks_archived_at, lacks_series, patched, is_archivable,
}

abbrev pub IsStamped : BlogRow → Type 0
IsStamped b =
    (lacks_published_at b ≡ false) × (lacks_archived_at b ≡ false) × (lacks_series b ≡ false)

pub record Stamped (db : Db) : Type 0 where
  pub unique : Unique (λ b. b.id) db.blogs
  pub stamped : All IsStamped db.blogs

check_row-Stamped :
    (P : Db → Type 0) (pg : PgText) (b : BlogRow)
    → Ensures P (Blogs.check_row pg b) (λ _ db. P db × IsStamped b) P
unfolding Blogs.check_row
check_row-Stamped P pg b =
    Ensures-when _ _ (λ db p. p)
      λ archived.
        Ensures-when _ _ (λ db p. p)
          λ published.
            Ensures-when _ _ (λ db p. p)
              λ series.
                Ensures-when _ _ (λ db p. p)
                  λ _.
                    Ensures-raise_if _ _ (λ db e p. (p, (published, archived, series))) (λ db p. p)

pub insert-Stamped : (pg : PgText) (row : BlogRow) → Keeps Stamped (Blogs.insert pg row)
unfolding Blogs.insert Blogs.insert_row
insert-Stamped pg row = Keeps-translating _ _ (
    Ensures-bind (check_row-Stamped Stamped pg row) λ _.
      Ensures-unless _ _ (λ db p. p.0)
        (Ensures-unless _ _ (λ db p. p.0.0)
          (Ensures-unless _ _ (λ db p. p.0.0.0)
            (Ensures-unless _ _ (λ db p. p.0.0.0.0)
              (Ensures-bind
                (Ensures-modify _ λ db p. record {
                  unique = (
                    All-map db.blogs (λ b miss e. ground arith)
                        (exists-false (has_blog_id row.id) db.blogs p.0.0.0.1),
                    p.0.0.0.0.0.unique,
                  );
                  stamped = (p.0.0.0.0.1, p.0.0.0.0.0.stamped);
                })
                λ _. Ensures-pure _ (λ db s. s))))))

All-update_where_each :
    (q : BlogRow → Bool) (g : BlogRow → BlogRow) (rows : List BlogRow)
    → All (λ b. q b ≡ true → IsStamped b → IsStamped (g b)) rows
    → All IsStamped rows
    → All IsStamped (update_where q g rows)
unfolding update_where
All-update_where_each q g [] f h = tt
All-update_where_each q g (b ∷ rows) f h = elim (Bool-cases (q b)) [
  | inl hit ↦ (rw hit (f.0 hit h.0), All-update_where_each q g rows f.1 h.1)
  | inr miss ↦ (rw miss h.0, All-update_where_each q g rows f.1 h.1)
]

-- An update of rows that keeps their ids and stamps.
Stamped-update :
    (q : BlogRow → Bool) (g : BlogRow → BlogRow)
    → ((b : BlogRow) → (g b).id ≡ b.id)
    → (db : Db) → All (λ b. q b ≡ true → IsStamped b → IsStamped (g b)) db.blogs
    → Stamped db
    → Stamped (record db { blogs = update_where q g db.blogs })
Stamped-update q g same_id db fine s = record {
  unique = Unique-update_where (λ b. b.id) q g db.blogs same_id s.unique;
  stamped = All-update_where_each q g db.blogs fine s.stamped;
}

every : {A : Type 0} (P : A → Type 0) (xs : List A) → ((x : A) → P x) → All P xs
every P [] f = tt
every P (x ∷ xs) f = (f x, every P xs f)

-- The rows that an update by id meets are the row that was found.
found_only :
    (b : ℕ) (g : BlogRow → BlogRow) (row : BlogRow) (db : Db)
    → Stamped db
    → find_first (has_blog_id b) db.blogs ≡ some row
    → IsStamped (g row)
    → All (λ x. has_blog_id b x ≡ true → IsStamped x → IsStamped (g x)) db.blogs
found_only b g row db s found fine =
    let own : row.id ≡ b = ==→eq _ _ (find_first-some (has_blog_id b) db.blogs row found) in
    All-map db.blogs
      (λ x only hit h.
        let same : x ≡ row = only (subst (λ i. (x.id == i) ≡ true) (sym own) hit) in
        subst (λ y. IsStamped (g y)) (sym same) fine)
      (Unique-All (λ x. x.id) db.blogs row s.unique (find_first-In _ db.blogs row found))

update_row-Stamped :
    (pg : PgText) (n b : ℕ) (patch : Patch) (o : Option BlogRow)
    → Ensures
        (λ db. Stamped db × (find_first (has_blog_id b) db.blogs ≡ o))
        (Blogs.update_row pg n b patch o)
        (λ _. Stamped)
        Stamped
unfolding Blogs.update_row patched
update_row-Stamped pg n b patch none = Ensures-pure tt (λ db p. p.0)
update_row-Stamped pg n b patch (some row) =
    Ensures-bind
      (Ensures-weaken (λ db p. p) (λ _ db p. p) (λ db p. p.0)
        (check_row-Stamped (λ db. Stamped db × (find_first (has_blog_id b) db.blogs ≡ some row)) pg
          (patched n patch row)))
      λ _.
        Ensures-unless _ _ (λ db p. p.0.0)
          (Ensures-modify _ λ db p.
            Stamped-update (has_blog_id b) (patched n patch) (λ x. refl) db
              (found_only b (patched n patch) row db p.0.0.0 p.0.0.1 p.0.1) p.0.0.0)

pub update_metadata-Stamped :
    (pg : PgText) (n b : ℕ) (patch : Patch) → Keeps Stamped (Blogs.update_metadata pg n b patch)
unfolding Blogs.update_metadata Blogs.get Blogs.one
update_metadata-Stamped pg n b patch =
    Ensures-bind {Q = λ o db. Stamped db × (find_first (has_blog_id b) db.blogs ≡ o)}
      (Ensures-select _ (λ db s. (s, refl)))
      λ o.
        Ensures-bind {Q = λ _. Stamped} (Ensures-translating _ (update_row-Stamped pg n b patch o))
          λ _. Keeps-select _

pub update_content-Stamped :
    (n b : ℕ) (uri : ObjectKey) (sha words : ℕ)
    → Keeps Stamped (Blogs.update_content n b uri sha words)
unfolding Blogs.update_content Blogs.set_content
update_content-Stamped n b uri sha words = Keeps-modify _ λ db s.
    Stamped-update (has_blog_id b) (Blogs.set_content n uri sha words) (λ x. refl) db
      (every _ db.blogs (λ x hit h. h)) s

pub archive-Stamped : (n b t : ℕ) → Keeps Stamped (Blogs.archive n b t)
unfolding Blogs.archive Blogs.set_archived
archive-Stamped n b t = Keeps-bind _ _ (Keeps-select _) λ k.
    Keeps-bind _ _
      (Keeps-modify _ λ db s.
        Stamped-update (is_archivable b) (Blogs.set_archived n t) (λ x. refl) db
          (every _ db.blogs (λ x hit h. (refl, refl, h.2))) s)
      λ _. Keeps-pure _
