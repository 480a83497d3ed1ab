-- ===== src/Handler/Upgrade/Tests.antt =====
-- Upgrades of a guest, on a world that is the list of the calls made.
use go_performance_starter.Prelude.{
  ℕ, ◌≡◌, refl, ◌⊎◌, true, none, some, List, [], ◌∷◌, if◌then◌else◌,
}
use go_performance_starter.Prelude.Text.{Text, codes, text_eq, trim_space}
use go_performance_starter.Http.{ok, err, pos, User, Request, Response, cookie, is_htmx_request}
use go_performance_starter.Middleware.Sessions.{AnonSession}
use go_performance_starter.Auth.Anon.Upgrade.{email_in_use}
use go_performance_starter.Handler.Upgrade.{
  AnonUpgrader, UserRows, FormPackage, render_upgrade_form, set_session_cookies, is_email,
  upgrade_page, refused_form, promoted, refreshed, saved, answered_upgrade, with_access,
  submit_with, submit_as, submit_for, upgrade_submit,
}
use go_performance_starter.Handler.Upgrade.Guarded.{IsKept, IsSent, upgrade_submit-IsGuarded}

abbrev World : Type 0
World = List ℕ

abbrev session : AnonSession
session = record { access_token = codes "a2"; refresh_token = codes "r2"; expires_in = pos 3600 }

abbrev guest : User
guest = record { id = 7; email = []; name = none; auth_id = some (codes "u7"); is_anonymous = true }

abbrev upgrader : AnonUpgrader World
upgrader = record {
  upgrade_anonymous_user =
      λ token email password w. (1 ∷ w, ok (record { confirmation_sent = true }));
  refresh_session = λ token w. (4 ∷ w, ok session);
}

abbrev refusing : AnonUpgrader World
refusing = record upgrader {
  upgrade_anonymous_user = λ token email password w. (1 ∷ w, err email_in_use);
}

abbrev rows : UserRows World
rows = record {
  set_anonymous = λ id b w. (2 ∷ w, ok tt);
  update_email = λ id email w. (3 ∷ w, ok guest);
}

abbrev forms : FormPackage
forms = record { parse_form = λ r. true; parse_address = λ s. some s }

abbrev value_of : Text → Text
value_of name = if text_eq name (codes "email") then codes " a@b " else codes "longenough"

abbrev request : Request
request = record {
  method = codes "POST";
  cookies = (codes "sb-access-token", codes "a1") ∷ (codes "sb-refresh-token", codes "r1") ∷ [];
  header = λ name. [];
  post_form = value_of;
  context = record { gotrue_user = none; claims = none; user = some guest; csrf_token = none };
}

abbrev no_response : Response
no_response = record { set_cookies = []; header = []; status = none }

all_of_it : Unit {0}
unfolding text_eq trim_space cookie is_htmx_request render_upgrade_form set_session_cookies is_email
    upgrade_page refused_form promoted refreshed saved answered_upgrade with_access submit_with
    submit_as submit_for upgrade_submit
all_of_it = tt

upgrade_tests :
    ((upgrade_submit upgrader (some rows) true forms [] request no_response).0 ≡ 4 ∷ 3 ∷ 2 ∷ 1 ∷ [])
    × (((upgrade_submit refusing (some rows) true forms [] request no_response).1.0.status
          ≡ some 422)
        × ((upgrade_submit refusing (some rows) true forms [] request no_response).0 ≡ 1 ∷ []))
unfolding all_of_it
upgrade_tests = (refl, (refl, refl))

upgrade_submit-IsGuarded_example :
    IsKept upgrader
      (some rows)
      true
      forms
      []
      request
      no_response
      (upgrade_submit upgrader (some rows) true forms [] request no_response)
    ⊎ IsSent upgrader
        (some rows)
        true
        forms
        []
        request
        no_response
        (upgrade_submit upgrader (some rows) true forms [] request no_response)
upgrade_submit-IsGuarded_example =
    upgrade_submit-IsGuarded upgrader (some rows) true forms [] request no_response
