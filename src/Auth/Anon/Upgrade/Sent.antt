-- ===== src/Auth/Anon/Upgrade/Sent.antt =====
-- What the outcome of an upgrade says of the call that was made.
use go_performance_starter.Prelude.{ℕ, ◌⊎◌, ◌≡◌, Bool, true, false, none, some, take, map}
use go_performance_starter.Prelude.Text.{Text, codes}
use go_performance_starter.Prelude.Search.{contains}
use go_performance_starter.Http.{Failure, Result, ok, err, is_empty}
use go_performance_starter.Auth.Anon.{Call, Answer, Transport, AuthClient, endpoint, mebibyte}
use go_performance_starter.Auth.Anon.Upgrade.{
  Json, UpgradeError, email_in_use, upgrade_failed, UpgradeResult, lower,
}

module _ {W : Type 0} (json : Json) (net : Transport W) where
  -- Whether the text that GoTrue answers, as far as it is read, says that the email is in use.
  abbrev pub says_in_use : Text → Bool
  says_in_use body = contains (map lower (take mebibyte body)) (codes "already been registered")

  -- What an answer whose text is there means: a 422 that says so, that the email is in use; a 200
  -- that decodes, a success; anything else, a failure.
  abbrev pub IsMeant : ℕ → Text → Result UpgradeError UpgradeResult → Type 0
  IsMeant status body outcome =
      ((status ≡ 422) × (says_in_use body ≡ true) × (outcome ≡ err email_in_use))
      ⊎ ((at : Text) × (status ≡ 200)
          × (json.unmarshal_confirmed_at (take mebibyte body) ≡ some at)
          × (outcome ≡ ok (record { confirmation_sent = is_empty at })))
      ⊎ ((status ≡ 422 → says_in_use body ≡ false)
          × (status ≡ 200 → json.unmarshal_confirmed_at (take mebibyte body) ≡ none)
          × (outcome ≡ err upgrade_failed))

  abbrev pub IsRead : Answer → Result UpgradeError UpgradeResult → Type 0
  IsRead resp outcome =
      ((e : Failure) × (resp.body ≡ err e) × (outcome ≡ err upgrade_failed))
      ⊎ ((body : Text) × (resp.body ≡ ok body) × IsMeant resp.status body outcome)

  -- The call was made, once, and the outcome is what its answer means; or it failed; or there is no
  -- such URL, and nothing was sent.
  abbrev pub IsAnswered : Call → W → W × Result UpgradeError UpgradeResult → Type 0
  IsAnswered call w result =
      ((resp : Answer) × (net.do_call call w ≡ (result.0, ok resp)) × IsRead resp result.1)
      ⊎ ((e : Failure) × (net.do_call call w ≡ (result.0, err e)) × (result.1 ≡ err upgrade_failed))
      ⊎ ((net.is_url call.url ≡ false) × (result.0 ≡ w) × (result.1 ≡ err upgrade_failed))

  -- The request of an upgrade: the new email and password, under the session of the guest.
  abbrev pub upgrade_call : AuthClient → Text → Text → Call
  upgrade_call a access_token payload = record {
    method = codes "PUT";
    url = endpoint a (codes "/auth/v1/user");
    key = a.anon_key;
    bearer = access_token;
    body = some payload;
  }
