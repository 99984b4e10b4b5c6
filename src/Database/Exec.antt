-- ===== src/Database/Exec.antt =====
-- A method call of the program: state and exceptions. The state is the database, the number of
-- draws made of the random sources (a draw is never undone), the mail handed to the provider, and
-- the objects in the store, which no transaction undoes.
-- `begin` is repository/uow.py and database/session.py `transaction`: what a block wrote is kept
-- if it ends normally, by a return too, and is gone if it raises.
pub mod Ensures
pub mod Guards
use blog_post.Base.{ℕ, ◌+◌, Bool, true, false, String, Option, none, some, List}
use blog_post.Errors.Category.{ErrorCategory}
use blog_post.Errors.Constraint.{Constraint, translate_integrity_error}
use blog_post.Database.Content.{StoredObject}
use blog_post.Database.Tables.{Db}

pub record Message : Type 0 where
  pub to : String
  pub code : String
  pub minutes : ℕ

pub record World : Type 0 where
  pub db : Db
  pub drawn : ℕ
  pub mail : List Message
  pub objects : List StoredObject

-- What a call raises: a BlogPlatformError of a category, an IntegrityError that no adapter
-- translated, another error of the database, a KeyError, an AttributeError or an
-- AssertionError.
pub data Error : Type 0 where
  platform : ErrorCategory → Error
  integrity : Constraint → Error
  -- A value that its SQL type cannot hold (DataError).
  out_of_range : Error
  key_error attribute_error unicode_error assertion : Error

pub data Result {ℓ} (A : Type ℓ) : Type ℓ where
  ok : A → Result A
  err : Error → Result A

abbrev pub Exec : Type 0 → Type 0
Exec A = World → Result A × World

module _ {A : Type 0} where
  unfoldable pub pure : A → Exec A
  pure a w = (ok a, w)

  unfoldable pub raise : Error → Exec A
  raise e w = (err e, w)

  unfoldable pub select : (Db → A) → Exec A
  select f w = (ok (f w.db), w)

  -- A fresh value of a random source.
  unfoldable pub draw : (ℕ → A) → Exec A
  draw source w = (ok (source w.drawn), record w { drawn = w.drawn + 1 })

  abbrev pub settle : World → Result A × World → Result A × World
  settle before (ok a, after) = (ok a, after)
  settle before (err e, after) = (err e, record after { db = before.db })

  unfoldable pub begin : Exec A → Exec A
  begin m w = settle w (m w)

module _ {A B : Type 0} where
  abbrev pub continue : (A → Exec B) → Result A × World → Result B × World
  continue f (ok a, w) = f a w
  continue f (err e, w) = (err e, w)

  infixl 5 ◌>>=◌
  -- Opening this opens the primitive calls too.
  unfoldable pub ◌>>=◌ : Exec A → (A → Exec B) → Exec B
  unfolding pure raise select draw
  ◌>>=◌ m f w = continue f (m w)

infixl 5 ◌>>◌
abbrev pub ◌>>◌ : {B : Type 0} → Exec Unit → Exec B → Exec B
m >> n = m >>= λ _. n

-- UPDATE or INSERT.
unfoldable pub modify : (Db → Db) → Exec Unit
modify f w = (ok tt, record w { db = f w.db })

unfoldable pub raise_if : Bool → Error → Exec Unit
raise_if true e w = (err e, w)
raise_if false e w = (ok tt, w)

module _ {A : Type 0} where
  -- The value, or the error of a missing one.
  unfoldable pub or_raise : Option A → Error → Exec A
  or_raise none e w = (err e, w)
  or_raise (some a) e w = (ok a, w)

  abbrev pub translated : (Constraint → Option ErrorCategory) → Result A × World → Result A × World
  translated overrides (ok a, w) = (ok a, w)
  translated overrides (err (Error.integrity c), w) =
      (err (Error.platform (translate_integrity_error overrides c)), w)
  translated overrides (err e, w) = (err e, w)

  -- `except errors.IntegrityError as exc: raise translate_integrity_error(exc, ...) from exc`
  unfoldable pub translating : (Constraint → Option ErrorCategory) → Exec A → Exec A
  unfolding translate_integrity_error
  translating overrides m w = translated overrides (m w)

  abbrev pub caught : A → Result A × World → Result A × World
  caught a (ok b, w) = (ok b, w)
  caught a (err (Error.platform c), w) = (ok a, w)
  caught a (err e, w) = (err e, w)

  -- `except BlogPlatformError: return a`
  unfoldable pub or_else_return : A → Exec A → Exec A
  or_else_return a m w = caught a (m w)
