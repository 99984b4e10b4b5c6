-- ===== src/Interaction/Tests/Requests.antt =====
-- The theorems on the interaction service at a concrete database.
use blog_post.Base.{
  ◌≡◌, refl, false, true, none, some, List, [], ◌∷◌, inl, inr, arith, map, ◌+◌, ◌^◌,
}
use blog_post.Base.Tables.{
  exists, affected, find_first, filter_rows, sort_rows, insert_row, Single-insert,
}
use blog_post.Repository.Text.{fits}
use blog_post.Errors.Category.{ErrorCategory}
use blog_post.Database.Interaction.{MarkerAnchor}
use blog_post.Database.Exec.{ok, err, Error}
use blog_post.Policy.{Principal}
use blog_post.Auth.Service.{Instant}
use blog_post.Auth.Tests.{noon}
use blog_post.Repository.Comments.{new_comment, thread_of}
use blog_post.Repository.Keyset.{order_by, limit_or}
use blog_post.Repository.Keyset.Walk.{read_all}
use blog_post.Interaction.{comment, edit_comment, delete_comment, list_comments}
use blog_post.Interaction.Markers.{headings, place_marker, get_marker}
use blog_post.Repository.Catalogs.{is_default_of}
use blog_post.Interaction.Places.{files}
use blog_post.Interaction.Shelves.{save_to_catalog, list_catalog_items}
use blog_post.Interaction.Threads.{Threaded, Threaded-insert}
use blog_post.Interaction.History.{Request, Consistent, serve_all, serve_all-Consistent}
use blog_post.Interaction.Pages.{list_comments-all, list_catalog_items-all}
use blog_post.Interaction.Answers.{
  comment-second, comment-orphan, comment-first, edit_comment-other, delete_comment-other,
}
use blog_post.Interaction.Returns.{get_marker-place_marker}
use blog_post.Interaction.Again.{comment-delete_comment}
use blog_post.Interaction.Saved.{save_to_catalog-stuck}
use blog_post.Interaction.Tests.Cursors.{cursors-RoundTrips}
use blog_post.Interaction.Tests.{service, article, question, remark, shelf, shelved, readers, quiet}

abbrev reader : Principal
reader = Principal.signed_in 80 2 false

readers-Threaded : Threaded readers.db.comments
unfolding exists affected find_first fits
readers-Threaded = Threaded-insert question (remark ∷ []) refl refl refl (
    Threaded-insert remark [] refl refl refl
      (record { unique = tt; single = λ b u. omega arith; placed = tt }))

comment-second_example :
    comment service noon reader 7 "Again" none readers
    ≡ (err (Error.platform ErrorCategory.comment_already_exists), record readers { drawn = 1 })
unfolding exists affected find_first fits
comment-second_example =
    comment-second service noon 80 2 false readers article refl refl "Again" refl refl refl

comment-orphan_example :
    comment service noon reader 7 "Reply" (some 99) readers
    ≡ (err (Error.platform ErrorCategory.comment_depth_invalid), record readers { drawn = 1 })
unfolding exists affected find_first fits
comment-orphan_example =
    comment-orphan service noon 80 2 false readers article refl refl "Reply" refl refl 99 refl refl

comment-first_example : comment service noon reader 7 "First" none quiet ≡ (
  ok (new_comment 5000000 100 7 2 none 0 "First"),
  record quiet {
    db = record quiet.db { comments = new_comment 5000000 100 7 2 none 0 "First" ∷ remark ∷ [] };
    drawn = 1;
  },
)
unfolding exists affected find_first fits
comment-first_example =
    comment-first service noon 80 2 false quiet article refl refl "First" refl refl refl refl

edit_comment-other_example :
    edit_comment service noon reader 20 "Mine" readers
    ≡ (err (Error.platform ErrorCategory.comment_not_found), readers)
unfolding exists affected find_first fits
edit_comment-other_example =
    edit_comment-other service noon 80 2 false readers 20 "Mine"
      (inl (λ e. omega (arith, e)), (inr (inl (λ e. omega (arith, e))), tt))

delete_comment-other_example :
    delete_comment service noon reader 20 readers
    ≡ (err (Error.platform ErrorCategory.comment_not_found), readers)
unfolding exists affected find_first fits
delete_comment-other_example =
    delete_comment-other service noon 80 2 false readers 20
      (inl (λ e. omega (arith, e)), (inr (inl (refl, λ e. omega (arith, e))), tt))

abbrev half : MarkerAnchor
half = MarkerAnchor.section "top" 4

get_marker-place_marker_example :
    (get_marker reader 7
      (place_marker service noon reader 7 half (some (2 ^ 1073 + 1)) readers).1).0
    ≡ ok (record {
      user_id = 2;
      blog_id = 7;
      anchor = half;
      progress_ratio = some (2 ^ 1073);
      updated_at = 5000000;
    })
unfolding exists affected find_first fits headings
get_marker-place_marker_example =
    get_marker-place_marker service noon 80 2 false readers article refl refl half
      (some (2 ^ 1073 + 1)) (refl, tt) refl refl

comment-delete_comment_example :
    (comment service noon reader 7 "Better" none
      (delete_comment service noon reader 21 readers).1).0
    ≡ ok (new_comment 5000000 100 7 2 none 0 "Better")
unfolding exists affected find_first fits
comment-delete_comment_example =
    comment-delete_comment service noon noon 80 false question readers readers-Threaded (inl refl)
      refl refl article "Better" refl refl refl refl refl

save_to_catalog-stuck_example :
    save_to_catalog service noon reader 7 none none readers
    ≡ (err Error.assertion, record readers { drawn = 1 })
unfolding exists affected find_first fits
save_to_catalog-stuck_example =
    save_to_catalog-stuck service noon 80 2 false readers article none refl refl refl refl refl

list_comments-all_example :
    read_all (λ cursor. list_comments service 7 cursor none) 3 none readers
    ≡ (ok (map (thread_of readers.db.comments) (question ∷ remark ∷ [])), readers)
unfolding exists affected find_first fits limit_or filter_rows order_by sort_rows insert_row
list_comments-all_example =
    list_comments-all service cursors-RoundTrips none (omega arith) readers 3 7
      ((λ e. omega (arith, e), tt), (tt, tt)) (omega arith)

list_catalog_items-all_example :
    read_all (λ cursor. list_catalog_items service reader 30 cursor none) 2 none readers
    ≡ (ok readers.db.catalog_items, readers)
unfolding exists affected find_first fits limit_or filter_rows order_by sort_rows
list_catalog_items-all_example =
    list_catalog_items-all service cursors-RoundTrips none (omega arith) readers 2 80 2 false shelf
      refl refl (tt, tt) (omega arith)

readers-Consistent : Consistent readers.db
unfolding exists affected find_first fits
readers-Consistent = record {
  threads = readers-Threaded;
  markers = λ i. omega arith;
  defaults = λ u. Single-insert is_default_of shelf [] (λ v h. refl) (λ v. omega arith) u;
  items = λ i. Single-insert files shelved [] (λ j h. refl) (λ j. omega arith) i;
  pins = tt;
}

abbrev requests : List (Instant × Principal × Request)
requests =
    (noon, reader, Request.write 7 "Again" none)
    ∷ (noon, reader, Request.save 7 (some 30) none)
    ∷ (noon, Principal.signed_in 81 1 true, Request.write 7 "Because" (some 21))
    ∷ []

serve_all-Consistent_example : Consistent (serve_all service requests readers).db
unfolding exists affected find_first fits
serve_all-Consistent_example = serve_all-Consistent service requests readers readers-Consistent
