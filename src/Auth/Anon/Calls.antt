-- ===== src/Auth/Anon/Calls.antt =====
-- What an anonymous sign-in returns.
use go_performance_starter.Prelude.{
  ◌≡◌, refl, true, false, ◌||◌, Option, none, some, ◌==◌, ==_iff, Bool-cases, inl, inr,
}
use go_performance_starter.Prelude.Text.{Text, codes}
use go_performance_starter.Http.{Failure, failure, Result, ok, err, is_empty}
use go_performance_starter.Middleware.Sessions.{AnonSession}
use go_performance_starter.Auth.Anon.{
  Call, Answer, Transport, AuthClient, endpoint, post, send, sign_in_anonymously, session_answer,
  session_of, checked_session,
}

module _ {W : Type 0} (net : Transport W) where
  -- A session that was given stands on an answer 200, and its access token is not empty.
  abbrev pub IsSignedIn : Call → W → W × Result Failure AnonSession → Type 0
  IsSignedIn call w (w', err e) = Unit
  IsSignedIn call w (w', ok s) =
      (resp : Answer) × (net.do_call call w ≡ (w', ok resp))
      × (resp.status ≡ 200)
      × (is_empty s.access_token ≡ false)

  checked-IsSignedIn :
      (call : Call) (w w' : W) (resp : Answer) (found : Option AnonSession)
      → net.do_call call w ≡ (w', ok resp)
      → resp.status ≡ 200
      → IsSignedIn call w (w', checked_session net found)
  checked-IsSignedIn call w w' resp none asked fine = tt
  checked-IsSignedIn call w w' resp (some s) asked fine =
      elim (Bool-cases (is_empty s.access_token)) [
        | inl e ↦ rw e tt
        | inr e ↦ rw e (resp, asked, fine, e)
      ]

  session_of-IsSignedIn :
      (call : Call) (w w' : W) (resp : Answer) (body : Result Failure Text)
      → net.do_call call w ≡ (w', ok resp)
      → IsSignedIn call w (w', session_of net resp.status body)
  session_of-IsSignedIn call w w' resp (err e) asked = tt
  session_of-IsSignedIn call w w' resp (ok body) asked = elim (Bool-cases (resp.status == 200)) [
    | inl e ↦ rw e (checked-IsSignedIn call w w' resp _ asked ((==_iff resp.status 200).0 e))
    | inr e ↦ rw e tt
  ]

  session_answer-IsSignedIn :
      (call : Call) (w : W) (answer : W × Result Failure Answer)
      → net.do_call call w ≡ answer
      → IsSignedIn call w (session_answer net answer)
  session_answer-IsSignedIn call w (w', err e) asked = tt
  session_answer-IsSignedIn call w (w', ok resp) asked =
      session_of-IsSignedIn call w w' resp resp.body asked

  send-IsSignedIn : (call : Call) (w : W) → IsSignedIn call w (session_answer net (send net call w))
  unfolding send
  send-IsSignedIn call w = elim (Bool-cases (net.is_url call.url)) [
    | inl e ↦ rw e (session_answer-IsSignedIn call w _ refl)
    | inr e ↦ rw e tt
  ]

  -- A sign-in that succeeds has posted an empty object to the sign-up of the configured server, with
  -- the anonymous key, was answered 200, and returns an access token that is not empty. Without a
  -- server or a key it fails, and posts nothing.
  pub sign_in_anonymously-IsSignedIn :
      (a : AuthClient) (w : W)
      → IsSignedIn
          (record {
            method = post;
            url = endpoint a (codes "/auth/v1/signup");
            key = a.anon_key;
            bearer = a.anon_key;
            body = some (codes "{}");
          })
          w
          (sign_in_anonymously net a w)
        × ((is_empty a.base_url || is_empty a.anon_key) ≡ true
            → sign_in_anonymously net a w ≡ (w, err failure))
  unfolding sign_in_anonymously
  sign_in_anonymously-IsSignedIn a w =
      elim (Bool-cases (is_empty a.base_url || is_empty a.anon_key)) [
        | inl e ↦ rw e (tt, λ h. refl)
        | inr e ↦ rw e (send-IsSignedIn _ w, λ h. absurd cc)
      ]
