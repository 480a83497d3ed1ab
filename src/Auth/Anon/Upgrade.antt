-- ===== src/Auth/Anon/Upgrade.antt =====
-- internal/auth/upgrade.go and recover.go: the calls that give an anonymous identity its credentials,
-- renew a session, and exchange the token of a recovery link for one. json.Marshal of a map of texts,
-- and json.Unmarshal into the struct of one field, are parameters.
pub mod Sent
use go_performance_starter.Prelude.{
  ℕ, ◌+◌, Bool, true, false, ◌&&◌, ◌||◌, not, Option, none, some, List, [], ◌∷◌, ◌++◌, ◌==◌, leb,
  take, map, if◌then◌else◌,
}
use go_performance_starter.Prelude.Text.{Text, codes}
use go_performance_starter.Prelude.Search.{contains}
use go_performance_starter.Http.{Failure, failure, Result, ok, err, is_empty}
use go_performance_starter.Middleware.Sessions.{AnonSession}
use go_performance_starter.Auth.Anon.{
  Call, Answer, Transport, AuthClient, endpoint, post, mebibyte, send, session_answer,
}

pub record Json : Type 0 where
  pub marshal : List (Text × Text) → Option Text
  -- email_confirmed_at, empty where it is absent
  pub unmarshal_confirmed_at : Text → Option Text

-- strings.ToLower, for the letters that become ASCII
abbrev pub lower : ℕ → ℕ
lower c =
    if leb 65 c && leb c 90
    then c + 32
    else if c == 0x130
    then 105
    else if c == 0x212a
    then 107
    else c

-- The errors of UpgradeAnonymousUser that its caller tells apart: ErrEmailInUse, and all others.
pub data UpgradeError : Type 0 where
  email_in_use : UpgradeError
  upgrade_failed : UpgradeError

-- UpgradeResult
pub record UpgradeResult : Type 0 where
  pub confirmation_sent : Bool

-- What every call of the two files goes through: its payload, the check of the URL, the request.
unfoldable pub call_with :
    {W : Type 0} → Transport W → Option Text → Call → W → W × Result Failure Answer
call_with net none call world = (world, err failure)
call_with net (some payload) call world = send net (record call { body = some payload }) world

unfoldable pub unconfigured : AuthClient → Bool
unconfigured a = is_empty a.base_url || is_empty a.anon_key

module _ {W : Type 0} (json : Json) (net : Transport W) where
  abbrev pub decoded : Option Text → Result UpgradeError UpgradeResult
  decoded none = err upgrade_failed
  decoded (some confirmed_at) = ok (record { confirmation_sent = is_empty confirmed_at })

  unfoldable pub upgrade_of : ℕ → Result Failure Text → Result UpgradeError UpgradeResult
  unfolding contains
  upgrade_of status (err e) = err upgrade_failed
  upgrade_of status (ok body) =
      let read = take mebibyte body in
      if status == 422 && contains (map lower read) (codes "already been registered")
      then err email_in_use
      else if not (status == 200)
      then err upgrade_failed
      else decoded (json.unmarshal_confirmed_at read)

  unfoldable pub upgrade_answer : W × Result Failure Answer → W × Result UpgradeError UpgradeResult
  unfolding upgrade_of
  upgrade_answer (world, err e) = (world, err upgrade_failed)
  upgrade_answer (world, ok resp) = (world, upgrade_of resp.status resp.body)

  -- UpgradeAnonymousUser
  unfoldable pub upgrade_anonymous_user :
      AuthClient → (access_token email password : Text) → W → W × Result UpgradeError UpgradeResult
  unfolding unconfigured call_with endpoint upgrade_answer
  upgrade_anonymous_user a access_token email password world =
      if unconfigured a
      then (world, err upgrade_failed)
      else upgrade_answer (
          call_with net (json.marshal ((codes "email", email) ∷ (codes "password", password) ∷ []))
            (record {
              method = codes "PUT";
              url = endpoint a (codes "/auth/v1/user");
              key = a.anon_key;
              bearer = access_token;
              body = none;
            })
            world)

  -- RefreshSession
  unfoldable pub refresh_session : AuthClient → Text → W → W × Result Failure AnonSession
  unfolding unconfigured call_with endpoint
  refresh_session a refresh_token world =
      if unconfigured a
      then (world, err failure)
      else session_answer net (
          call_with net (json.marshal ((codes "refresh_token", refresh_token) ∷ []))
            (record {
              method = post;
              url = endpoint a (codes "/auth/v1/token?grant_type=refresh_token");
              key = a.anon_key;
              bearer = a.anon_key;
              body = none;
            })
            world)

  -- VerifyRecovery
  unfoldable pub verify_recovery : AuthClient → Text → W → W × Result Failure AnonSession
  unfolding unconfigured call_with endpoint
  verify_recovery a token_hash world =
      if unconfigured a
      then (world, err failure)
      else if is_empty token_hash
      then (world, err failure)
      else session_answer net (
          call_with net
            (json.marshal
              ((codes "type", codes "recovery") ∷ (codes "token_hash", token_hash) ∷ []))
            (record {
              method = post;
              url = endpoint a (codes "/auth/v1/verify");
              key = a.anon_key;
              bearer = a.anon_key;
              body = none;
            })
            world)
