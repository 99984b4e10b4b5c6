-- ===== src/Policy/Laws.antt =====
-- The permission matrix of services/policy.py, and how a refusal is answered.
use blog_post.Base.{ℕ, ◌≡◌, ◌⊎◌, ◌↔◌, true, false, none, some, arith, refl}
use blog_post.Errors.Category.{ErrorCategory}
use blog_post.Errors.Status.{status_for}
use blog_post.Policy.{Principal, Permission, can, require}

-- The tiers of the documentation: what a reader is granted, and who is granted what.
abbrev pub IsReaders : Permission → Type 0
IsReaders q =
    (q ≡ Permission.comment)
    ⊎ (q ≡ Permission.mark)
    ⊎ (q ≡ Permission.save)
    ⊎ (q ≡ Permission.record_engagement)

abbrev pub IsGranted : Permission → Principal → Type 0
IsGranted q (Principal.anonymous _) = q ≡ Permission.record_engagement
IsGranted q (Principal.signed_in _ _ true) = Unit
IsGranted q (Principal.signed_in _ _ false) = IsReaders q

-- The category that a refused caller is told, and its status.
abbrev pub refused_with : Principal → ErrorCategory
refused_with (Principal.anonymous _) = ErrorCategory.auth_required
refused_with (Principal.signed_in _ _ _) = ErrorCategory.admin_required

abbrev pub refused_status : Principal → ℕ
refused_status (Principal.anonymous _) = 401
refused_status (Principal.signed_in _ _ _) = 403

-- The admin is granted everything; a reader exactly to comment, to mark, to save and to have
-- engagement recorded; an anonymous visitor exactly the last of these.
pub can-IsGranted : (q : Permission) (p : Principal) → (can q p ≡ true) ↔ IsGranted q p
unfolding can
can-IsGranted q (Principal.anonymous a) = (ground arith, ground arith)
can-IsGranted q (Principal.signed_in a u true) = (ground arith, ground arith)
can-IsGranted q (Principal.signed_in a u false) = (ground arith, ground arith)

-- A guarded use case goes on exactly for those who are granted its permission. A caller who is not
-- granted it is refused: an anonymous one is told to sign in, by 401, and a signed-in one that they
-- are no admin, by 403. So ACCESS_DENIED, the branch of `require` for a refused admin, is reached
-- through no permission of the policy.
pub require-IsGranted :
    (q : Permission) (p : Principal)
    → ((require (can q p) p ≡ none) ↔ IsGranted q p)
      × ((require (can q p) p ≡ some (refused_with p)) ↔ ¬ (IsGranted q p))
      × (status_for (refused_with p) ≡ refused_status p)
unfolding require can status_for
require-IsGranted q (Principal.anonymous a) =
    ((ground arith, ground arith), (ground arith, ground arith), refl)
require-IsGranted q (Principal.signed_in a u true) =
    ((ground arith, ground arith), (ground arith, ground arith), refl)
require-IsGranted q (Principal.signed_in a u false) =
    ((ground arith, ground arith), (ground arith, ground arith), refl)
