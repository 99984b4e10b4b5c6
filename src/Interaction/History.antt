-- ===== src/Interaction/History.antt =====
-- Histories of the interaction service: any sequence of requests, each answered or refused.
use blog_post.Base.{ℕ, String, Option, List, [], ◌∷◌}
use blog_post.Database.Interaction.{MarkerAnchor}
use blog_post.Database.Tables.{Db}
use blog_post.Database.Exec.{World}
use blog_post.Database.Exec.Ensures.{kept}
use blog_post.Policy.{Principal}
use blog_post.Auth.Service.{Instant}
use blog_post.Interaction.{InteractionService, comment, edit_comment, delete_comment}
use blog_post.Interaction.Markers.{place_marker, delete_marker}
use blog_post.Interaction.Shelves.{save_to_catalog, create_catalog, remove_from_catalog}
use blog_post.Interaction.Pins.{create_pin, delete_pin}
use blog_post.Interaction.Frames
use blog_post.Interaction.Preserved.{
  Preserved, comment-Keeps, edit_comment-Keeps, delete_comment-Keeps, place_marker-Keeps,
  delete_marker-Keeps, save_to_catalog-Keeps, create_catalog-Keeps, remove_from_catalog-Keeps,
  create_pin-Keeps, delete_pin-Keeps,
}
use blog_post.Interaction.Threads.{Threaded}
use blog_post.Interaction.Threads.Kept as Threading
use blog_post.Interaction.Threads.Kept.{OnThreads}
use blog_post.Interaction.Places.Kept as Placing
use blog_post.Interaction.Places.Kept.{OnMarkers, OnDefaults, OnItems}
use blog_post.Interaction.Links.{Anchored, create_pin-Anchored, delete_pin-Anchored}

-- The public methods that write, with their arguments.
pub data Request : Type 0 where
  write : ℕ → String → Option ℕ → Request
  edit : ℕ → String → Request
  erase : ℕ → Request
  place : ℕ → MarkerAnchor → Option ℕ → Request
  lift : ℕ → Request
  save : ℕ → Option ℕ → Option String → Request
  shelve : String → Request
  remove : ℕ → ℕ → Request
  pin : ℕ → ℕ → String → Option String → Request
  unpin : ℕ → Request

module _ (self : InteractionService) where
  -- The world after a request of a caller, whatever it answered.
  unfoldable pub serve : Instant → Principal → Request → World → World
  serve at p (Request.write b t o) w = (comment self at p b t o w).1
  serve at p (Request.edit i t) w = (edit_comment self at p i t w).1
  serve at p (Request.erase i) w = (delete_comment self at p i w).1
  serve at p (Request.place b a r) w = (place_marker self at p b a r w).1
  serve at p (Request.lift b) w = (delete_marker p b w).1
  serve at p (Request.save b c t) w = (save_to_catalog self at p b c t w).1
  serve at p (Request.shelve t) w = (create_catalog self at p t w).1
  serve at p (Request.remove c b) w = (remove_from_catalog p c b w).1
  serve at p (Request.pin s t a o) w = (create_pin self at p s t a o w).1
  serve at p (Request.unpin i) w = (delete_pin p i w).1

  unfoldable pub serve_all : List (Instant × Principal × Request) → World → World
  unfolding serve
  serve_all [] w = w
  serve_all ((at, p, r) ∷ rest) w = serve_all rest (serve at p r w)

module _ (self : InteractionService) {P : Db → Type 0} (k : Preserved P) where
  serve-Preserved :
      (at : Instant) (p : Principal) (r : Request) (w : World) → P w.db → P (serve self at p r w).db
  unfolding serve
  serve-Preserved at p (Request.write b t o) w s = kept (comment-Keeps self at k p b t o) w s
  serve-Preserved at p (Request.edit i t) w s = kept (edit_comment-Keeps self at k p i t) w s
  serve-Preserved at p (Request.erase i) w s = kept (delete_comment-Keeps self at k p i) w s
  serve-Preserved at p (Request.place b a r) w s = kept (place_marker-Keeps self at k p b a r) w s
  serve-Preserved at p (Request.lift b) w s = kept (delete_marker-Keeps self at k p b) w s
  serve-Preserved at p (Request.save b c t) w s = kept (save_to_catalog-Keeps self at k p b c t) w s
  serve-Preserved at p (Request.shelve t) w s = kept (create_catalog-Keeps self at k p t) w s
  serve-Preserved at p (Request.remove c b) w s =
      kept (remove_from_catalog-Keeps self at k p c b) w s
  serve-Preserved at p (Request.pin s t a o) w h = kept (create_pin-Keeps self at k p s t a o) w h
  serve-Preserved at p (Request.unpin i) w s = kept (delete_pin-Keeps self at k p i) w s

  serve_all-Preserved :
      (requests : List (Instant × Principal × Request)) (w : World)
      → P w.db
      → P (serve_all self requests w).db
  unfolding serve_all
  serve_all-Preserved [] w s = s
  serve_all-Preserved ((at, p, r) ∷ rest) w s =
      serve_all-Preserved rest (serve self at p r w) (serve-Preserved at p r w s)

-- What the database holds of the readers' side: sound threads, one marker for a reader and an
-- article, one default collection for a reader, one item for a collection and an article, and pins
-- that lead to sections of other articles.
pub record Consistent (db : Db) : Type 0 where
  pub threads : Threaded db.comments
  pub markers : OnMarkers db
  pub defaults : OnDefaults db
  pub items : OnItems db
  pub pins : Anchored db

threads-Preserved : Preserved OnThreads
threads-Preserved = record {
  root = Threading.create_root-Threads;
  reply = Threading.create_reply-Threads;
  body = Threading.update_body-Threads;
  removal = Threading.soft_delete-Threads;
  placing = Frames.upsert-Frame OnThreads (λ db rows h. h);
  lifting = Frames.delete_marker-Frame OnThreads (λ db rows h. h);
  default = Frames.ensure_default-Frame OnThreads (λ db rows h. h);
  catalog = Frames.create_catalog-Frame OnThreads (λ db rows h. h);
  item = Frames.add_item-Frame OnThreads (λ db rows h. h);
  withdrawal = Frames.remove_item-Frame OnThreads (λ db rows h. h);
  pin = Frames.create_pin-Frame OnThreads (λ db rows h. h);
  unpin = Frames.delete_pin-Frame OnThreads (λ db rows h. h);
}

markers-Preserved : Preserved OnMarkers
markers-Preserved = record {
  root = Frames.create_root-Frame OnMarkers (λ db rows h. h);
  reply = Frames.create_reply-Frame OnMarkers (λ db rows h. h);
  body = Frames.update_body-Frame OnMarkers (λ db rows h. h);
  removal = Frames.soft_delete-Frame OnMarkers (λ db rows h. h);
  placing = Placing.upsert-Markers;
  lifting = Placing.delete-Markers;
  default = Frames.ensure_default-Frame OnMarkers (λ db rows h. h);
  catalog = Frames.create_catalog-Frame OnMarkers (λ db rows h. h);
  item = Frames.add_item-Frame OnMarkers (λ db rows h. h);
  withdrawal = Frames.remove_item-Frame OnMarkers (λ db rows h. h);
  pin = Frames.create_pin-Frame OnMarkers (λ db rows h. h);
  unpin = Frames.delete_pin-Frame OnMarkers (λ db rows h. h);
}

defaults-Preserved : Preserved OnDefaults
defaults-Preserved = record {
  root = Frames.create_root-Frame OnDefaults (λ db rows h. h);
  reply = Frames.create_reply-Frame OnDefaults (λ db rows h. h);
  body = Frames.update_body-Frame OnDefaults (λ db rows h. h);
  removal = Frames.soft_delete-Frame OnDefaults (λ db rows h. h);
  placing = Frames.upsert-Frame OnDefaults (λ db rows h. h);
  lifting = Frames.delete_marker-Frame OnDefaults (λ db rows h. h);
  default = Placing.ensure_default-Defaults;
  catalog = Placing.create-Defaults;
  item = Frames.add_item-Frame OnDefaults (λ db rows h. h);
  withdrawal = Frames.remove_item-Frame OnDefaults (λ db rows h. h);
  pin = Frames.create_pin-Frame OnDefaults (λ db rows h. h);
  unpin = Frames.delete_pin-Frame OnDefaults (λ db rows h. h);
}

items-Preserved : Preserved OnItems
items-Preserved = record {
  root = Frames.create_root-Frame OnItems (λ db rows h. h);
  reply = Frames.create_reply-Frame OnItems (λ db rows h. h);
  body = Frames.update_body-Frame OnItems (λ db rows h. h);
  removal = Frames.soft_delete-Frame OnItems (λ db rows h. h);
  placing = Frames.upsert-Frame OnItems (λ db rows h. h);
  lifting = Frames.delete_marker-Frame OnItems (λ db rows h. h);
  default = Frames.ensure_default-Frame OnItems (λ db rows h. h);
  catalog = Frames.create_catalog-Frame OnItems (λ db rows h. h);
  item = Placing.add_item-Items;
  withdrawal = Placing.remove_item-Items;
  pin = Frames.create_pin-Frame OnItems (λ db rows h. h);
  unpin = Frames.delete_pin-Frame OnItems (λ db rows h. h);
}

pins-Preserved : Preserved Anchored
pins-Preserved = record {
  root = Frames.create_root-Frame Anchored (λ db rows h. h);
  reply = Frames.create_reply-Frame Anchored (λ db rows h. h);
  body = Frames.update_body-Frame Anchored (λ db rows h. h);
  removal = Frames.soft_delete-Frame Anchored (λ db rows h. h);
  placing = Frames.upsert-Frame Anchored (λ db rows h. h);
  lifting = Frames.delete_marker-Frame Anchored (λ db rows h. h);
  default = Frames.ensure_default-Frame Anchored (λ db rows h. h);
  catalog = Frames.create_catalog-Frame Anchored (λ db rows h. h);
  item = Frames.add_item-Frame Anchored (λ db rows h. h);
  withdrawal = Frames.remove_item-Frame Anchored (λ db rows h. h);
  pin = create_pin-Anchored;
  unpin = delete_pin-Anchored;
}

module _ (self : InteractionService) where
  -- From a consistent database every sequence of requests to the service, of whatever callers and at
  -- whatever times, answered or refused, ends in a consistent database: no reader has two live root
  -- comments under an article, every reply has a root of its article, the ids of comments are
  -- unique, a reader has one marker in an article at most and one default collection at most, a
  -- collection holds an article once, and every pin leads to a section that is there.
  pub serve_all-Consistent :
      (requests : List (Instant × Principal × Request)) (w : World)
      → Consistent w.db
      → Consistent (serve_all self requests w).db
  serve_all-Consistent requests w s = record {
    threads = serve_all-Preserved self threads-Preserved requests w s.threads;
    markers = serve_all-Preserved self markers-Preserved requests w s.markers;
    defaults = serve_all-Preserved self defaults-Preserved requests w s.defaults;
    items = serve_all-Preserved self items-Preserved requests w s.items;
    pins = serve_all-Preserved self pins-Preserved requests w s.pins;
  }
