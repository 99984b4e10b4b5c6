-- ===== src/Actors.antt =====
-- services/actor_service.py `ActorService`: who is calling.
pub mod Visits
mod Tests
use blog_post.Base.{ℕ, Bool, String, Option, none, some, str_eq, if◌then◌else◌}
use blog_post.Errors.Category.{ErrorCategory}
use blog_post.Database.Exec.{Error, Exec, pure, raise, draw, begin, or_else_return, ◌>>=◌, ◌>>◌}
use blog_post.Repository.Actors
use blog_post.Policy.{Principal}

-- What a codec answers: what the token says, or the category of the error it raises.
pub data Verdict (A : Type 0) : Type 0 where
  valid : A → Verdict A
  rejected : ErrorCategory → Verdict A

-- `AccessTokenClaims`, as far as it is read here.
pub record AccessTokenClaims : Type 0 where
  pub actor_id : ℕ
  pub user_id : ℕ
  pub is_admin : Bool

-- The ports of the service, and Python's `partition(" ")` (the part before and the part after),
-- `lower` and `strip`.
pub record ActorService : Type 0 where
  pub new_id : ℕ → ℕ
  pub verify_access : String → ℕ → Verdict AccessTokenClaims
  pub verify_actor : String → ℕ → Verdict ℕ
  pub issue_actor : ℕ → ℕ → String
  pub partition_space : String → String × String
  pub lower : String → String
  pub strip : String → String

pub record ResolvedCaller : Type 0 where
  pub principal : Principal
  pub issued_actor_token : Option String

-- The clock is read twice: `now` when the call comes in, `acted` when it has minted an actor or
-- touches one.
module _ (self : ActorService) (now acted db_now : ℕ) where
  -- `_bearer`
  unfoldable pub bearer : String → String
  bearer header =
      let (scheme, token) = self.partition_space header in
      if str_eq (self.lower scheme) "bearer" then self.strip token else self.strip header

  -- `_mint`
  unfoldable pub mint : Exec ResolvedCaller
  mint = do
    actor_id ← draw self.new_id
    actor ← begin (Actors.create db_now actor_id none none)
    pure (record {
      principal = Principal.anonymous actor_id;
      issued_actor_token = some (self.issue_actor actor_id acted);
    })

  -- `_touch`
  unfoldable pub touch : ℕ → Exec Unit
  touch actor_id = or_else_return tt (begin (Actors.touch actor_id acted))

  unfoldable pub signed_in : Verdict AccessTokenClaims → Exec ResolvedCaller
  signed_in (Verdict.valid claims) = pure (record {
    principal = Principal.signed_in claims.actor_id claims.user_id claims.is_admin;
    issued_actor_token = none;
  })
  signed_in (Verdict.rejected c) = raise (Error.platform c)

  unfoldable pub visiting : Verdict ℕ → Exec ResolvedCaller
  unfolding touch mint
  visiting (Verdict.valid actor_id) = do
    touch actor_id
    pure (record { principal = Principal.anonymous actor_id; issued_actor_token = none })
  visiting (Verdict.rejected c) = mint

  -- A header or a token that is empty is `none`.
  unfoldable pub resolve : Option String → Option String → Exec ResolvedCaller
  unfolding signed_in bearer visiting mint
  resolve (some authorization) _ = signed_in (self.verify_access (bearer authorization) now)
  resolve none (some actor_token) = visiting (self.verify_actor actor_token now)
  resolve none none = mint
