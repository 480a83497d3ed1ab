-- ===== src/Middleware/Users.antt =====
-- internal/middleware/user_loader.go and the loader of optional_auth.go: from an identity to its row
-- of the users table. The repository is an interface of the program (internal/repository/user.go), of
-- which the three calls are taken as parameters.
pub mod Rows
pub mod Emails
pub mod Loaders
mod Tests
use go_performance_starter.Prelude.{
  ℕ, ◌≡◌, Bool, true, false, not, ◌&&◌, Option, none, some, List, [], ◌∷◌, ◌++◌, if◌then◌else◌,
}
use go_performance_starter.Prelude.Text.{Text, codes}
use go_performance_starter.Http.{
  Result, ok, err, is_empty, AuthClaims, GoTrueUser, User, Context, Request, Response, with_context,
  http_error, Handler, unauthorized, internal_server_error, auth_claims_from_context, with_user,
}

-- The errors that the callers tell apart: repository.ErrNotFound, and all others.
pub data RepoError : Type 0 where
  entity_not_found : RepoError
  other_error : RepoError

-- database.CreateUserParams; the fields that the program leaves at their zero values are left out.
pub record CreateUserParams : Type 0 where
  pub email : Text
  pub name : Option Text
  pub auth_id : Option Text
  pub is_anonymous : Bool

-- The calls of repository.UserRepository that the loaders make.
pub record UserRepository (W : Type 0) : Type 0 where
  pub get_by_auth_id : Text → W → W × Result RepoError User
  pub set_anonymous : ℕ → Bool → W → W × Result RepoError (Unit {0})
  pub create : CreateUserParams → W → W × Result RepoError User

abbrev gotrue_email : Option GoTrueUser → Text
gotrue_email none = []
gotrue_email (some u) = u.email

abbrev non_empty_name : Option Text → Option Text
non_empty_name none = none
non_empty_name (some name) = if is_empty name then none else some name

abbrev gotrue_name : Option GoTrueUser → Option Text
gotrue_name none = none
gotrue_name (some u) = non_empty_name u.name

-- provisionUser's parameters
unfoldable pub provision_params : Request → AuthClaims → CreateUserParams
provision_params r claims = record {
  email =
      let email = gotrue_email r.context.gotrue_user in
      if is_empty email then claims.sub ++ codes "@guest.invalid" else email;
  name = gotrue_name r.context.gotrue_user;
  auth_id = some claims.sub;
  is_anonymous = claims.is_anonymous;
}

module _ {W : Type 0} (repo : UserRepository W) where
  open repo use {get_by_auth_id, set_anonymous, create}

  -- provisionUser
  unfoldable pub provision_user : Request → AuthClaims → W → W × Result RepoError User
  provision_user r claims world = create (provision_params r claims) world

  unfoldable pub healed : User → W × Result RepoError (Unit {0}) → W × Result RepoError User
  healed user (world, err e) = (world, err e)
  healed user (world, ok _) = (world, ok (record user { is_anonymous = false }))

  -- resolveUser, after the query
  unfoldable pub resolve_found :
      Request → AuthClaims → W × Result RepoError User → W × Result RepoError User
  resolve_found r claims (world, err entity_not_found) = provision_user r claims world
  resolve_found r claims (world, err other_error) = (world, err other_error)
  resolve_found r claims (world, ok user) =
      if user.is_anonymous && not claims.is_anonymous
      then healed user (set_anonymous user.id false world)
      else (world, ok user)

  -- resolveUser
  unfoldable pub resolve_user : Request → AuthClaims → W → W × Result RepoError User
  resolve_user r claims world = resolve_found r claims (get_by_auth_id claims.sub world)

  unfoldable pub load : Handler W → Request → Response → W × Result RepoError User → W × Response
  load next r w (world, err _) = (world, http_error internal_server_error w)
  load next r w (world, ok user) = next world (with_context r (with_user r.context user)) w

  -- What both loaders do, by the claims: without claims they differ.
  unfoldable pub load_claims :
      Handler W → Handler W → W → Request → Response → Option AuthClaims → W × Response
  load_claims nobody next world r w none = nobody world r w
  load_claims nobody next world r w (some claims) = load next r w (resolve_user r claims world)

  -- UserLoader
  unfoldable pub user_loader : Handler W → Handler W
  user_loader next world r w =
      load_claims (λ world' r' w'. (world', http_error unauthorized w')) next world r w
        (auth_claims_from_context r.context)

  -- OptionalUserLoader
  unfoldable pub optional_user_loader : Handler W → Handler W
  optional_user_loader next world r w =
      load_claims next next world r w (auth_claims_from_context r.context)
