-- ===== src/Handler/Recover/Tests.antt =====
-- Requests of the account pages, on a world that logs the calls.
use go_performance_starter.Prelude.{ℕ, ◌≡◌, refl, true, false, none, some, [], ◌∷◌}
use go_performance_starter.Prelude.Text.{codes, text_eq}
use go_performance_starter.Http.{failure, ok, err, pos, Request, Response, cookie, set_hx_redirect}
use go_performance_starter.Middleware.Sessions.{AnonSession, clear_session}
use go_performance_starter.Handler.Upgrade.{set_session_cookies}
use go_performance_starter.Handler.Recover.{
  reset_page, Forms, Accounts, auth_feedback, signed_in, auth_login_post, auth_signup_post,
  auth_logout_post, auth_recover_post, verified, auth_reset_page, password_updated, reset_with,
  auth_reset_post,
}
use go_performance_starter.Handler.Recover.Silent.{auth_recover_post_blind}

abbrev session : AnonSession
session = record { access_token = codes "a"; refresh_token = codes "r"; expires_in = pos 3600 }

-- The world counts the calls. One server has every account, the other has none.
abbrev knows_all : Accounts ℕ
knows_all = record {
  sign_in_with_email_password = λ email password n. (1, ok session);
  signup = λ email password n. (2, ok tt);
  sign_out = λ n. (3, ok tt);
  recover = λ email n. (4, ok tt);
  verify_recovery = λ token n. (5, ok session);
  update_password = λ token password n. (6, ok tt);
}

abbrev knows_none : Accounts ℕ
knows_none = record {
  sign_in_with_email_password = λ email password n. (1, err failure);
  signup = λ email password n. (2, err failure);
  sign_out = λ n. (3, err failure);
  recover = λ email n. (4, err failure);
  verify_recovery = λ token n. (5, err failure);
  update_password = λ token password n. (6, err failure);
}

abbrev forms : Forms
forms = record {
  parse_form = λ r. true;
  form_value = λ r name. r.post_form name;
  query = λ r name. codes "t";
}

abbrev request : Request
request = record {
  method = codes "POST";
  cookies = (codes "sb-access-token", codes "a") ∷ [];
  header = λ name. [];
  post_form = λ name. codes "secret";
  context = record { gotrue_user = none; claims = none; user = none; csrf_token = none };
}

abbrev no_response : Response
no_response = record { set_cookies = []; header = []; status = none }

all_of_it : Unit {0}
unfolding text_eq cookie set_hx_redirect clear_session set_session_cookies auth_feedback signed_in
    auth_login_post auth_signup_post auth_logout_post auth_recover_post verified auth_reset_page
    password_updated reset_with auth_reset_post
all_of_it = tt

account_tests :
    ((auth_login_post knows_none forms true 0 request no_response).1.0.status ≡ some 401)
    × (((auth_reset_page knows_none forms true 0 request no_response).1.1 ≡ reset_page false)
        × (((auth_reset_page knows_all forms true 0 request no_response).1.1 ≡ reset_page true)
            × ((auth_reset_post knows_all forms 0 request no_response).0 ≡ 6)))
unfolding all_of_it
account_tests = (refl, (refl, (refl, refl)))

auth_recover_post_blind_example :
    (auth_recover_post knows_all forms 0 request no_response).1
    ≡ (auth_recover_post knows_none forms 0 request no_response).1
auth_recover_post_blind_example =
    auth_recover_post_blind knows_all knows_none forms 0 0 request no_response
