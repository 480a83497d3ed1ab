-- ===== src/Middleware/Csrf.antt =====
-- internal/middleware/csrf.go: the double-submit cookie. A token is a text of hexadecimal digits; the
-- random source is a parameter. A text with a character beyond ASCII is longer in bytes than here, and
-- has the format neither way.
pub mod Hex
pub mod Guard
mod Tests
use go_performance_starter.Prelude.{
  ℕ, ◌+◌, ◌-◌, ◌*◌, ◌/◌, ◌%◌, ◌≡◌, Bool, true, false, not, ◌&&◌, ◌||◌, Option, none, some, List, [],
  ◌∷◌, ◌==◌, leb, length, if◌then◌else◌,
}
use go_performance_starter.Prelude.Text.{Text, codes, text_eq}
use go_performance_starter.Http.{
  pos, is_empty, Cookie, Context, Request, Response, cookie, with_context, set_cookie, http_error,
  Handler, forbidden, internal_server_error,
}

-- CSRFCookieName, and CSRFFormField
abbrev pub csrf_cookie_name : Text
csrf_cookie_name = codes "csrf_token"

-- CSRFHeaderName
abbrev pub csrf_header_name : Text
csrf_header_name = codes "X-CSRF-Token"

-- csrfTokenBytes
abbrev pub csrf_token_bytes : ℕ
csrf_token_bytes = 32

-- csrfTokenHexChars
abbrev pub csrf_token_hex_chars : ℕ
csrf_token_hex_chars = csrf_token_bytes * 2

-- csrfCookieMaxAge
abbrev pub csrf_cookie_max_age : ℕ
csrf_cookie_max_age = 12 * 60 * 60

-- The digits of encoding/hex: its table, and the value of a digit in either case.
unfoldable pub hex_digit : ℕ → ℕ
hex_digit v = if leb v 9 then b'0' + v else b'a' + (v - 10)

unfoldable pub digit_value : ℕ → Option ℕ
digit_value c =
    if leb b'0' c && leb c b'9'
    then some (c - b'0')
    else if leb b'a' c && leb c b'f'
    then some (c - b'a' + 10)
    else if leb b'A' c && leb c b'F'
    then some (c - b'A' + 10)
    else none

-- hex.EncodeToString
unfoldable pub encode_to_string : List ℕ → Text
encode_to_string [] = []
encode_to_string (v ∷ buf) = hex_digit (v / 16) ∷ hex_digit (v % 16) ∷ encode_to_string buf

abbrev byte_of : Option ℕ → Option ℕ → Option (List ℕ) → Option (List ℕ)
byte_of (some high) (some low) (some rest) = some ((high * 16 + low) ∷ rest)
byte_of _ _ _ = none

-- hex.DecodeString; `none` is an error
unfoldable pub decode_string : Text → Option (List ℕ)
decode_string [] = some []
decode_string (a ∷ []) = none
decode_string (a ∷ b ∷ s) = byte_of (digit_value a) (digit_value b) (decode_string s)

abbrev succeeds : Option (List ℕ) → Bool
succeeds none = false
succeeds (some _) = true

-- isValidTokenFormat
unfoldable pub is_valid_token_format : Text → Bool
is_valid_token_format token =
    if not (length token == csrf_token_hex_chars) then false else succeeds (decode_string token)

-- The methods that CSRF lets through.
unfoldable pub is_safe_method : Text → Bool
is_safe_method method =
    text_eq method (codes "GET")
    || text_eq method (codes "HEAD")
    || text_eq method (codes "OPTIONS")
    || text_eq method (codes "TRACE")

-- The token that an unsafe request submits: the header, or else the form field.
unfoldable pub sent_token : Request → Text
sent_token r =
    let sent = r.header csrf_header_name in
    if is_empty sent then r.post_form csrf_cookie_name else sent

-- The token of the cookie, if it has the format; the empty text otherwise.
unfoldable pub cookie_token : Option Text → Text
cookie_token none = []
cookie_token (some v) = if is_valid_token_format v then v else []

abbrev csrf_cookie : Bool → Text → Cookie
csrf_cookie secure token = record {
  name = csrf_cookie_name;
  value = token;
  path = codes "/";
  max_age = pos csrf_cookie_max_age;
  http_only = true;
  secure = secure;
}

-- webutil.WithCSRFToken
unfoldable pub with_csrf_token : Context → Text → Context
with_csrf_token ctx token = record ctx { csrf_token = some token }

module _ {W : Type 0} (read_random : ℕ → W → W × Option (List ℕ)) where
  -- CSRF's check of an unsafe request, by the cookie that the browser sent
  unfoldable pub check_sent : Handler W → W → Request → Response → Option Text → W × Response
  check_sent next world r w none = (world, http_error forbidden w)
  check_sent next world r w (some v) =
      if not (is_valid_token_format v)
      then (world, http_error forbidden w)
      else if not (text_eq v (sent_token r))
      then (world, http_error forbidden w)
      else next world r w

  -- CSRF, once it has a token
  unfoldable pub with_token : Handler W → W → Request → Response → Text → W × Response
  with_token next world r w token =
      let r' = with_context r (with_csrf_token r.context token) in
      if is_safe_method r.method
      then next world r' w
      else check_sent next world r' w (cookie csrf_cookie_name r'.cookies)

  unfoldable pub issue_token :
      Bool → Handler W → Request → Response → W × Option (List ℕ) → W × Response
  issue_token secure next r w (world, none) = (world, http_error internal_server_error w)
  issue_token secure next r w (world, some buf) =
      let token = encode_to_string buf in
      with_token next world r (set_cookie (csrf_cookie secure token) w) token

  -- CSRF
  unfoldable pub csrf : Bool → Handler W → Handler W
  csrf secure next world r w =
      let token = cookie_token (cookie csrf_cookie_name r.cookies) in
      if is_empty token
      then issue_token secure next r w (read_random csrf_token_bytes world)
      else with_token next world r w token
