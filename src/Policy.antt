-- ===== src/Policy.antt =====
-- services/policy.py and the principals of contracts/identity.py.
pub mod Laws
mod Tests
use blog_post.Base.{ℕ, Bool, true, false, if◌then◌else◌, not, Option, none, some}
use blog_post.Errors.Category.{ErrorCategory}

-- Every caller has an actor id, signed in or not.
pub data Principal : Type 0 where
  anonymous : ℕ → Principal
  signed_in : ℕ → ℕ → Bool → Principal

-- `_is_admin`
unfoldable pub is_admin : Principal → Bool
is_admin (Principal.anonymous _) = false
is_admin (Principal.signed_in _ _ admin) = admin

-- `_is_user`
unfoldable pub is_user : Principal → Bool
is_user (Principal.anonymous _) = false
is_user (Principal.signed_in _ _ _) = true

-- The questions that the policy answers, one for each method of `DefaultAuthorizationPolicy`.
pub data Permission : Type 0 where
  publish edit_blog archive_blog manage_pins manage_taxonomy read_analytics : Permission
  moderate comment mark save record_engagement : Permission

unfoldable pub can : Permission → Principal → Bool
unfolding is_admin is_user
can Permission.publish p = is_admin p
can Permission.edit_blog p = is_admin p
can Permission.archive_blog p = is_admin p
can Permission.manage_pins p = is_admin p
can Permission.manage_taxonomy p = is_admin p
can Permission.read_analytics p = is_admin p
can Permission.moderate p = is_admin p
can Permission.comment p = is_user p
can Permission.mark p = is_user p
can Permission.save p = is_user p
can Permission.record_engagement p = true

refusal : Principal → ErrorCategory
refusal (Principal.anonymous _) = ErrorCategory.auth_required
refusal (Principal.signed_in _ _ admin) =
    if not admin then ErrorCategory.admin_required else ErrorCategory.access_denied

-- `none` is the return; `some` is the category raised.
unfoldable pub require : Bool → Principal → Option ErrorCategory
unfolding refusal
require allowed principal = if allowed then none else some (refusal principal)
