-- ===== src/Auth/Anon/Tests.antt =====
-- A server with two pages of users, which counts its calls.
use go_performance_starter.Prelude.{
  ℕ, suc, ◌≡◌, ◌≤◌, ◌↔◌, refl, Bool, true, false, some, List, [], ◌∷◌, if◌then◌else◌,
}
use go_performance_starter.Prelude.Text.{Text, codes, text_eq}
use go_performance_starter.Prelude.Search.{contains}
use go_performance_starter.Http.{failure, ok, err, pos}
use go_performance_starter.Jobs.Reaper.{AdminUser}
use go_performance_starter.Auth.Anon.{
  AdminUserRecord, Transport, AuthClient, send, sign_in_anonymously, admin_list_users_page,
  anonymous_users, page_walked, walk_pages, admin_list_anonymous_users, max_admin_list_pages,
}
use go_performance_starter.Auth.Anon.Upgrade.{
  Json, call_with, unconfigured, upgrade_of, upgrade_answer, upgrade_anonymous_user,
  refresh_session, verify_recovery, email_in_use,
}
use go_performance_starter.Auth.Anon.Listing.{Pages, admin_list_anonymous_users-Pages}

abbrev user : Text → Bool → AdminUserRecord
user id anonymous = record { id = id; created_at = 1; is_anonymous = anonymous }

-- A body is the number of its page, which the server takes from the number of calls before.
abbrev two_pages : Transport ℕ
two_pages = record {
  do_call = λ call n. (suc n, ok (record { status = 200; body = ok (n ∷ []) }));
  is_url = λ url. true;
  digits = λ n. n ∷ [];
  unmarshal_session =
      λ body. some (record { access_token = body; refresh_token = []; expires_in = pos 1 });
  unmarshal_users = λ body.
      if text_eq body (0 ∷ [])
      then some (user (codes "a") true ∷ user (codes "b") false ∷ [])
      else some (user (codes "c") true ∷ []);
}

abbrev client : AuthClient
client = record { base_url = codes "http://h/"; anon_key = codes "k"; service_role_key = codes "s" }

abbrev both : List AdminUser
both = record { id = codes "a"; created_at = 1 } ∷ record { id = codes "c"; created_at = 1 } ∷ []

all_of_it : Unit {0}
unfolding text_eq contains send sign_in_anonymously admin_list_users_page anonymous_users
    page_walked call_with unconfigured upgrade_of upgrade_answer upgrade_anonymous_user
    refresh_session verify_recovery walk_pages admin_list_anonymous_users
all_of_it = tt

listing_tests :
    (admin_list_anonymous_users two_pages client 2 0 ≡ (2, ok both))
    × (admin_list_anonymous_users two_pages client 3 0
        ≡ (1, ok (record { id = codes "a"; created_at = 1 } ∷ [])))
    × (admin_list_anonymous_users two_pages client 1 0 ≡ (100, err failure))
unfolding all_of_it
listing_tests = (refl, refl, refl)

admin_list_anonymous_users-Pages_example :
    (admin_list_anonymous_users two_pages client 2 0 ≡ (2, ok both)) ↔ (
      (n : ℕ) × (users : List AdminUserRecord) × (n ≤ max_admin_list_pages)
      × Pages (λ page. admin_list_users_page two_pages client page 2) 2 n 1 0 2 users
      × (both ≡ anonymous_users users))
admin_list_anonymous_users-Pages_example =
    admin_list_anonymous_users-Pages two_pages client 2 0 2 both refl

abbrev any_json : Json
any_json = record { marshal = λ pairs. some (codes "{}"); unmarshal_confirmed_at = λ body. some [] }

abbrev taken : Transport ℕ
taken = record two_pages {
  do_call = λ call n.
      (suc n, ok (record { status = 422; body = ok (codes "Email has ALREADY been registered") }));
}

upgrade_tests :
    (upgrade_anonymous_user any_json taken client (codes "t") (codes "e") (codes "p") 0
      ≡ (1, err email_in_use))
    × (refresh_session any_json taken client (codes "r") 0 ≡ (1, err failure))
    × (verify_recovery any_json two_pages client [] 0 ≡ (0, err failure))
unfolding all_of_it
upgrade_tests = (refl, refl, refl)
