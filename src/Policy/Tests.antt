-- ===== src/Policy/Tests.antt =====
-- The theorems about the permission matrix, applied.
use blog_post.Base.{◌≡◌, ◌↔◌, true, false, none, some}
use blog_post.Errors.Status.{status_for}
use blog_post.Policy.{Principal, Permission, can, require}
use blog_post.Policy.Laws.{
  IsGranted, refused_with, refused_status, can-IsGranted, require-IsGranted,
}

abbrev reader : Principal
reader = Principal.signed_in 1 2 false

can-IsGranted_example : (can Permission.mark reader ≡ true) ↔ IsGranted Permission.mark reader
can-IsGranted_example = can-IsGranted Permission.mark reader

require-IsGranted_example :
    ((require (can Permission.publish reader) reader ≡ none) ↔ IsGranted Permission.publish reader)
    × ((require (can Permission.publish reader) reader ≡ some (refused_with reader))
        ↔ ¬ (IsGranted Permission.publish reader))
    × (status_for (refused_with reader) ≡ refused_status reader)
require-IsGranted_example = require-IsGranted Permission.publish reader
