-- ===== src/Middleware/Csrf/Tests.antt =====
-- Tokens of concrete requests. The random source is one that counts, and then one that fails.
use go_performance_starter.Prelude.{
  ℕ, suc, ◌≡◌, refl, ◌⊎◌, true, Option, none, some, List, [], ◌∷◌, subst, ap, some-injective, zero,
  length-replicate, replicate, length, arith,
}
use go_performance_starter.Prelude.Text.{Text, codes, text_eq}
use go_performance_starter.Http.{Request, Response, cookie, Handler}
use go_performance_starter.Middleware.Csrf.{
  csrf, issue_token, with_token, check_sent, cookie_token, sent_token, with_csrf_token,
  is_valid_token_format, is_safe_method, csrf_cookie_name, encode_to_string, decode_string,
  hex_digit, digit_value,
}
use go_performance_starter.Middleware.Csrf.Hex.{IsBytes, decode_string-encode_to_string}
use go_performance_starter.Middleware.Csrf.Guard.{
  IsCalled, IsForbidden, IsOutOfTokens, GivesBytes, csrf-IsGuarded,
}

abbrev steady : ℕ → ℕ → ℕ × Option (List ℕ)
steady n world = (suc world, some (replicate n 171))

abbrev token : Text
token = codes "abababababababababababababababababababababababababababababababab"

abbrev request : Text → List (Text × Text) → Text → Request
request method jar sent = record {
  method = method;
  cookies = jar;
  header = λ name. sent;
  post_form = λ name. [];
  context = record { gotrue_user = none; claims = none; user = none; csrf_token = none };
}

abbrev no_response : Response
no_response = record { set_cookies = []; header = []; status = none }

abbrev page : Handler ℕ
page world r w = (world, record w { status = some 200 })

all_of_it : Unit {0}
unfolding text_eq cookie csrf issue_token with_token check_sent cookie_token sent_token
    with_csrf_token is_valid_token_format is_safe_method encode_to_string decode_string hex_digit
    digit_value
all_of_it = tt

csrf_tests :
    ((csrf steady true page 0 (request (codes "GET") [] []) no_response).1.status ≡ some 200)
    × ((csrf steady true page 0 (request (codes "POST") [] token) no_response).1.status ≡ some 403)
    × ((csrf steady true page 0
          (request (codes "POST") ((csrf_cookie_name, token) ∷ []) token)
          no_response).1.status
        ≡ some 200)
    × ((csrf steady true page 0
          (request (codes "POST") ((csrf_cookie_name, token) ∷ []) [])
          no_response).1.status
        ≡ some 403)
unfolding all_of_it
csrf_tests = (refl, refl, refl, refl)

replicate-IsBytes : (n : ℕ) → IsBytes (replicate n 171)
replicate-IsBytes zero = tt
replicate-IsBytes (suc n) = (omega arith, replicate-IsBytes n)

steady-GivesBytes : GivesBytes steady
steady-GivesBytes n world after buf e =
    subst (λ b. IsBytes b × (length b ≡ n)) (some-injective (ap (λ p. p.1) e))
      (replicate-IsBytes n, length-replicate n 171)

csrf-IsGuarded_example :
    IsCalled steady
      (λ next. csrf steady true next 0 (request (codes "GET") [] []) no_response)
      true
      0
      (request (codes "GET") [] [])
      no_response
    ⊎ IsForbidden steady
        (λ next. csrf steady true next 0 (request (codes "GET") [] []) no_response)
        true
        0
        (request (codes "GET") [] [])
        no_response
    ⊎ IsOutOfTokens steady
        (λ next. csrf steady true next 0 (request (codes "GET") [] []) no_response)
        0
        no_response
csrf-IsGuarded_example =
    csrf-IsGuarded steady true 0 (request (codes "GET") [] []) no_response steady-GivesBytes

decode_string-encode_to_string_example :
    decode_string (encode_to_string (171 ∷ 5 ∷ [])) ≡ some (171 ∷ 5 ∷ [])
decode_string-encode_to_string_example =
    decode_string-encode_to_string (171 ∷ 5 ∷ []) (omega arith, (omega arith, tt))
