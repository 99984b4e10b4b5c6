-- ===== src/Repository/Users.antt =====
-- repository/identity.py `SqlUserRepository`.
use Prim.Native.String.{count}
use blog_post.Base.{
  ℕ, Bool, true, String, Option, none, some, ◌∷◌, ◌&&◌, not, leb, ◌==◌, str_eq, coalesce,
}
use blog_post.Base.Tables.{find_first, exists, update_where}
use blog_post.Database.Identity.{UserStatus, User, UserRow}
use blog_post.Errors.Constraint.{Constraint}
use blog_post.Database.Exec.{Error, Exec, pure, select, modify, raise_if, translating, ◌>>=◌, ◌>>◌}

abbrev pub to_user : Option UserRow → Option User
to_user none = none
to_user (some row) = some row.user

abbrev pub has_id : ℕ → UserRow → Bool
has_id user_id row = row.id == user_id

unfoldable pub get : ℕ → Exec (Option User)
get user_id = select (λ db. to_user (find_first (has_id user_id) db.users))

-- `email_normalized`, the generated column.
abbrev pub has_email : (String → String) → String → UserRow → Bool
has_email lower_btrim email row = str_eq (lower_btrim row.email) (lower_btrim email)

unfoldable pub get_by_email : (String → String) → String → Exec (Option User)
get_by_email lower_btrim email =
    select (λ db. to_user (find_first (has_email lower_btrim email) db.users))

abbrev fits : ℕ → ℕ → String → Bool
fits lo hi text = leb lo (count text) && leb (count text) hi

abbrev fits_opt : ℕ → Option String → Bool
fits_opt hi none = true
fits_opt hi (some text) = leb (count text) hi

new_row : ℕ → ℕ → String → Option String → Bool → Option ℕ → UserRow
new_row db_now user_id email display_name is_admin email_verified_at = record {
  user = record {
    id = user_id;
    email = email;
    display_name = display_name;
    is_admin = is_admin;
    status = UserStatus.active;
    email_verified_at = email_verified_at;
    created_at = db_now;
    updated_at = db_now;
  };
  password_hash = none;
  password_updated_at = none;
}

-- INSERT: the checks of the table, then its unique indexes in the order of their creation.
insert : (String → String) → UserRow → Exec User
insert lower_btrim row = do
  raise_if (not (fits 3 320 row.email)) (Error.integrity Constraint.users_email_check)
  raise_if (not (fits_opt 120 row.display_name))
      (Error.integrity Constraint.users_display_name_check)
  raise_if (← select (λ db. exists (has_id row.id) db.users))
      (Error.integrity Constraint.users_pkey)
  raise_if (← select (λ db. exists (has_email lower_btrim row.email) db.users))
      (Error.integrity Constraint.users_email_normalized_key)
  raise_if (← select (λ db. row.is_admin && exists (λ r. r.is_admin) db.users))
      (Error.integrity Constraint.users_single_admin)
  modify (λ db. record db { users = row ∷ db.users })
  pure row.user

unfoldable pub create :
    (String → String) → ℕ → ℕ → String → Option String → Bool → Option ℕ → Exec User
unfolding insert new_row
create lower_btrim db_now user_id email display_name is_admin email_verified_at =
    translating (λ _. none)
      (insert lower_btrim (new_row db_now user_id email display_name is_admin email_verified_at))

-- Every UPDATE of a row runs the trigger `set_updated_at`.
unfoldable pub set_status : ℕ → ℕ → UserStatus → Exec Unit
set_status db_now user_id status = modify λ db. record db {
  users =
      update_where (has_id user_id)
        (λ r. record r { user = record r.user { status = status; updated_at = db_now } }) db.users;
}

unfoldable pub mark_email_verified : ℕ → ℕ → ℕ → Exec Unit
mark_email_verified db_now user_id at = modify λ db. record db {
  users =
      update_where (has_id user_id)
        (λ r. record r {
          user = record r.user {
            email_verified_at = coalesce r.email_verified_at (some at);
            updated_at = db_now;
          };
        })
        db.users;
}

unfoldable pub get_admin : Exec (Option User)
get_admin = select (λ db. to_user (find_first (λ r. r.is_admin) db.users))

abbrev pub hash_of : Option UserRow → Option ℕ
hash_of none = none
hash_of (some row) = row.password_hash

unfoldable pub get_password_hash : ℕ → Exec (Option ℕ)
get_password_hash user_id = select (λ db. hash_of (find_first (has_id user_id) db.users))

unfoldable pub set_password : ℕ → ℕ → ℕ → ℕ → Exec Unit
set_password db_now user_id password_hash at =
    translating (λ _. none)
      (modify λ db. record db {
        users =
            update_where (λ r. has_id user_id r && r.is_admin)
              (λ r. record r {
                user = record r.user { updated_at = db_now };
                password_hash = some password_hash;
                password_updated_at = some at;
              })
              db.users;
      })
