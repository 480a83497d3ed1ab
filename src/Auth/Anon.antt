-- ===== src/Auth/Anon.antt =====
-- internal/auth/anon.go: anonymous sign-in, and the calls of the admin interface. The HTTP client, the
-- construction of a request and the JSON decoders are parameters; a body is a list of its bytes.
pub mod Upgrade
pub mod Listing
pub mod Calls
mod Tests
use go_performance_starter.Prelude.{
  ℕ, zero, suc, ◌*◌, ◌^◌, Bool, true, false, not, ◌&&◌, ◌||◌, Option, none, some, List, [], ◌∷◌,
  ◌++◌, ltb, ◌==◌, length, take, map, keep, if◌then◌else◌,
}
use go_performance_starter.Prelude.Text.{Text, codes, trim_right_by}
use go_performance_starter.Http.{Failure, failure, Result, ok, err, is_empty}
use go_performance_starter.Middleware.Sessions.{AnonSession}
use go_performance_starter.Jobs.Reaper.{AdminUser}

-- A request to GoTrue: its apikey, and what its Authorization carries behind "Bearer ".
pub record Call : Type 0 where
  pub method : Text
  pub url : Text
  pub key : Text
  pub bearer : Text
  pub body : Option Text

-- A response; reading its body may fail.
pub record Answer : Type 0 where
  pub status : ℕ
  pub body : Result Failure Text

-- adminUserRecord
pub record AdminUserRecord : Type 0 where
  pub id : Text
  pub created_at : ℕ
  pub is_anonymous : Bool

-- anonHTTPClient.Do with the dial and its 10 seconds, http.NewRequest's check of a URL, the decimal
-- digits of %d, and json.Unmarshal into the two types that anon.go declares.
pub record Transport (W : Type 0) : Type 0 where
  pub do_call : Call → W → W × Result Failure Answer
  pub is_url : Text → Bool
  pub digits : ℕ → Text
  pub unmarshal_session : Text → Option AnonSession
  pub unmarshal_users : Text → Option (List AdminUserRecord)

-- auth.AuthClient, without the client of gotrue-go
pub record AuthClient : Type 0 where
  pub base_url : Text
  pub anon_key : Text
  pub service_role_key : Text

-- strings.TrimRight(a.baseURL, "/") + path
unfoldable pub endpoint : AuthClient → Text → Text
endpoint a path = trim_right_by (λ c. c == b'/') a.base_url ++ path

abbrev pub post : Text
post = codes "POST"

-- HasServiceRoleKey
unfoldable pub has_service_role_key : AuthClient → Bool
has_service_role_key a = not (is_empty a.service_role_key)

-- adminListPageSize
abbrev pub admin_list_page_size : ℕ
admin_list_page_size = 1000

-- maxAdminListPages
abbrev pub max_admin_list_pages : ℕ
max_admin_list_pages = 100

-- io.LimitReader(body, 1 << 20), and 8 << 20 for the listing
abbrev pub mebibyte : ℕ
mebibyte = 1024 * 1024

module _ {W : Type 0} (net : Transport W) where
  open net use {do_call, is_url, digits, unmarshal_session, unmarshal_users}

  -- NewRequest and Do
  unfoldable pub send : Call → W → W × Result Failure Answer
  send call world = if is_url call.url then do_call call world else (world, err failure)

  abbrev checked_session : Option AnonSession → Result Failure AnonSession
  checked_session none = err failure
  checked_session (some s) = if is_empty s.access_token then err failure else ok s

  abbrev pub session_of : ℕ → Result Failure Text → Result Failure AnonSession
  session_of status (err e) = err e
  session_of status (ok body) =
      if not (status == 200)
      then err failure
      else checked_session (unmarshal_session (take mebibyte body))

  abbrev pub session_answer : W × Result Failure Answer → W × Result Failure AnonSession
  session_answer (world, err e) = (world, err e)
  session_answer (world, ok resp) = (world, session_of resp.status resp.body)

  -- SignInAnonymously
  unfoldable pub sign_in_anonymously : AuthClient → W → W × Result Failure AnonSession
  unfolding endpoint
  sign_in_anonymously a world =
      if is_empty a.base_url || is_empty a.anon_key
      then (world, err failure)
      else session_answer (
          send
            (record {
              method = post;
              url = endpoint a (codes "/auth/v1/signup");
              key = a.anon_key;
              bearer = a.anon_key;
              body = some (codes "{}");
            })
            world)

  abbrev deleted_answer : W × Result Failure Answer → W × Result Failure (Unit {0})
  deleted_answer (world, err e) = (world, err e)
  deleted_answer (world, ok resp) =
      if not (resp.status == 200) && not (resp.status == 204) && not (resp.status == 404)
      then (world, err failure)
      else (world, ok tt)

  -- AdminDeleteUser
  unfoldable pub admin_delete_user : AuthClient → Text → W → W × Result Failure (Unit {0})
  unfolding endpoint
  admin_delete_user a user_id world =
      if is_empty a.service_role_key
      then (world, err failure)
      else deleted_answer (
          send
            (record {
              method = codes "DELETE";
              url = endpoint a (codes "/auth/v1/admin/users/" ++ user_id);
              key = a.service_role_key;
              bearer = a.service_role_key;
              body = none;
            })
            world)

  abbrev decoded_users : Option (List AdminUserRecord) → Result Failure (List AdminUserRecord)
  decoded_users none = err failure
  decoded_users (some users) = ok users

  abbrev users_of : ℕ → Result Failure Text → Result Failure (List AdminUserRecord)
  users_of status (err e) = err e
  users_of status (ok body) =
      if not (status == 200)
      then err failure
      else decoded_users (unmarshal_users (take (8 * mebibyte) body))

  abbrev users_answer : W × Result Failure Answer → W × Result Failure (List AdminUserRecord)
  users_answer (world, err e) = (world, err e)
  users_answer (world, ok resp) = (world, users_of resp.status resp.body)

  -- adminListUsersPage
  unfoldable pub admin_list_users_page :
      AuthClient → ℕ → ℕ → W → W × Result Failure (List AdminUserRecord)
  unfolding endpoint
  admin_list_users_page a page per_page world = users_answer (
      send
        (record {
          method = codes "GET";
          url = endpoint a (
              codes "/auth/v1/admin/users?page="
              ++ digits page
              ++ codes "&per_page="
              ++ digits per_page);
          key = a.service_role_key;
          bearer = a.service_role_key;
          body = none;
        })
        world)

-- The records of a page that the listing keeps.
unfoldable pub anonymous_users : List AdminUserRecord → List AdminUser
anonymous_users [] = []
anonymous_users (u ∷ users) =
    let rest = anonymous_users users in
    if u.is_anonymous then record { id = u.id; created_at = u.created_at } ∷ rest else rest

module _ {W : Type 0} (fetch : ℕ → W → W × Result Failure (List AdminUserRecord))
    (per_page : ℕ) where
  -- One page of the loop of adminListAnonymousUsers; `rest` walks on from the next page.
  unfoldable pub page_walked :
      (List AdminUser → W → W × Result Failure (List AdminUser))
      → List AdminUser
      → W × Result Failure (List AdminUserRecord)
      → W × Result Failure (List AdminUser)
  page_walked rest out (world, err e) = (world, err e)
  page_walked rest out (world, ok users) =
      if ltb (length users) per_page
      then (world, ok (out ++ anonymous_users users))
      else rest (out ++ anonymous_users users) world

  -- The loop, with so many pages left to walk.
  unfoldable pub walk_pages : ℕ → ℕ → List AdminUser → W → W × Result Failure (List AdminUser)
  walk_pages zero page out world = (world, err failure)
  walk_pages (suc left) page out world =
      page_walked (walk_pages left (suc page)) out (fetch page world)

-- adminListAnonymousUsers
unfoldable pub admin_list_anonymous_users :
    {W : Type 0} → Transport W → AuthClient → ℕ → W → W × Result Failure (List AdminUser)
admin_list_anonymous_users net a per_page world =
    if is_empty a.service_role_key
    then (world, err failure)
    else walk_pages (λ page. admin_list_users_page net a page per_page) per_page
        max_admin_list_pages 1 [] world
