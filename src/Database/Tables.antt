-- ===== src/Database/Tables.antt =====
-- The database, a table for each list; a row that is inserted comes to the front.
use blog_post.Base.{List, []}
use blog_post.Database.Identity.{
  UserRow, OAuthIdentity, OtpChallenge, RefreshToken, AnonymousActor, LoginAttempt,
}
use blog_post.Database.Events.{OutboxEvent}
use blog_post.Database.Readers.{ClaimRow, EngagementRow, RecentViewRow}
use blog_post.Database.Content.{
  BlogRow, SectionRow, CategoryRow, FilingRow, SeriesRow, ReferencePin,
}
use blog_post.Database.Interaction.{Comment, Marker, Catalog, CatalogItem}

pub record Db : Type 0 where
  pub users : List UserRow
  pub oauth_identities : List OAuthIdentity
  pub otp_challenges : List OtpChallenge
  pub refresh_tokens : List RefreshToken
  pub anonymous_actors : List AnonymousActor
  pub admin_login_attempts : List LoginAttempt
  pub series : List SeriesRow
  pub categories : List CategoryRow
  pub blogs : List BlogRow
  pub blog_categories : List FilingRow
  pub blog_sections : List SectionRow
  pub reference_pins : List ReferencePin
  pub comments : List Comment
  pub markers : List Marker
  pub catalogs : List Catalog
  pub catalog_items : List CatalogItem
  pub engagement_dedupe : List ClaimRow
  pub engagement_events : List EngagementRow
  pub recent_views : List RecentViewRow
  pub outbox_events : List OutboxEvent

abbrev pub empty : Db
empty = record {
  users = [];
  oauth_identities = [];
  otp_challenges = [];
  refresh_tokens = [];
  anonymous_actors = [];
  admin_login_attempts = [];
  series = [];
  categories = [];
  blogs = [];
  blog_categories = [];
  blog_sections = [];
  reference_pins = [];
  comments = [];
  markers = [];
  catalogs = [];
  catalog_items = [];
  engagement_dedupe = [];
  engagement_events = [];
  recent_views = [];
  outbox_events = [];
}
