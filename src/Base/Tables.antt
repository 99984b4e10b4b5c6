-- ===== src/Base/Tables.antt =====
-- Tables as lists of rows, newest first, and the statements that the repositories run on them:
-- SELECT of one row, EXISTS, UPDATE ... WHERE with its row count, ORDER BY ... DESC LIMIT 1.
mod Laws
mod Keys
mod Counts
mod Sorting
mod Indexes
mod Lookups
mod Orders
pub use Laws.*
pub use Keys.*
pub use Counts.*
pub use Sorting.*
pub use Indexes.*
pub use Lookups.*
pub use Orders.*
unfoldable pub use Laws.{
  find_first, exists, update_where, affected, delete_where, newest, filter_rows, take,
}
unfoldable pub use Sorting.{insert_row, sort_rows}
