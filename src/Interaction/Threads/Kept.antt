-- ===== src/Interaction/Threads/Kept.antt =====
-- The statements on comments, and the threads.
use blog_post.Base.{ℕ, ◌≡◌, refl, Bool, true, String, ◌==◌, is_none, if◌then◌else◌, arith}
use blog_post.Database.Interaction.{Comment}
use blog_post.Database.Tables.{Db}
use blog_post.Database.Exec.Ensures.{
  Keeps, Ensures-bind, Ensures-pure, Ensures-modify, Keeps-bind, Keeps-select, Keeps-raise_if,
  Keeps-modify, Keeps-translating, Keeps-pure,
}
use blog_post.Database.Exec.Guards.{Ensures-unless, Ensures-when}
use blog_post.Repository.Text.{PgText}
use blog_post.Repository.Comments
use blog_post.Interaction.Threads.{Threaded, Threaded-update, Threaded-insert}

abbrev pub OnThreads : Db → Type 0
OnThreads db = Threaded db.comments

insert-Threads :
    (pg : PgText) (row : Comment)
    → (row.depth == (if is_none row.parent_comment_id then 0 else 1)) ≡ true
    → Keeps OnThreads (Comments.insert pg row)
unfolding Comments.insert
insert-Threads pg row shape =
    Ensures-when _ _ (λ db t. t)
      λ _.
        Ensures-unless _ _ (λ db t. t)
          (Ensures-unless _ _ (λ db t. t.0)
            (Ensures-unless _ _ (λ db t. t.0.0)
              (Ensures-unless _ _ (λ db t. t.0.0.0)
                (Ensures-unless _ _ (λ db t. t.0.0.0.0)
                  (Ensures-bind
                    (Ensures-modify _ λ db t.
                      Threaded-insert row db.comments t.0.0.0.0.1 t.0.0.0.1 (rw (shape, t.1) refl)
                        t.0.0.0.0.0)
                    λ _. Ensures-pure row (λ db t. t))))))

pub create_root-Threads :
    (pg : PgText) (n i b u : ℕ) (body : String)
    → Keeps OnThreads (Comments.create_root pg n i b u body)
unfolding Comments.create_root
create_root-Threads pg n i b u body = Keeps-translating _ _ (insert-Threads pg _ refl)

pub create_reply-Threads :
    (pg : PgText) (n i b u p : ℕ) (body : String)
    → Keeps OnThreads (Comments.create_reply pg n i b u p body)
unfolding Comments.create_reply
create_reply-Threads pg n i b u p body = Keeps-translating _ _ (insert-Threads pg _ refl)

pub update_body-Threads :
    (pg : PgText) (n i u : ℕ) (body : String) → Keeps OnThreads (Comments.update_body pg n i u body)
unfolding Comments.update_body Comments.set_body
update_body-Threads pg n i u body = Keeps-bind _ _ (Keeps-select _) λ b.
    Keeps-bind _ _ (Keeps-raise_if b _) λ _.
      Keeps-bind _ _
        (Keeps-modify _ λ db t.
          Threaded-update (Comments.is_own i u) (Comments.set_body n body) (λ c. refl)
            (λ p b c. refl) (λ rows c. refl) (λ b u c h. h) db.comments t)
        λ _. Keeps-select _

pub soft_delete-Threads :
    (n i u t : ℕ) (admin : Bool) → Keeps OnThreads (Comments.soft_delete n i u t admin)
unfolding Comments.soft_delete Comments.set_deleted
soft_delete-Threads n i u now admin = Keeps-bind _ _ (Keeps-select _) λ k.
    Keeps-bind _ _ (Keeps-select _) λ b. Keeps-bind _ _ (Keeps-raise_if b _) λ _.
      Keeps-bind _ _
        (Keeps-modify _ λ db t.
          Threaded-update (Comments.is_deletable i u admin) (Comments.set_deleted n u now)
            (λ c. refl) (λ p b c. refl) (λ rows c. refl) (λ b v c h. ground (arith, h)) db.comments
            t)
        λ _. Keeps-pure _
