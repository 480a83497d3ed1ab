-- ===== src/Writers.antt =====
-- The http.ResponseWriter that the two wrappers of the program stand on (internal/server/server.go and
-- internal/middleware/metrics.go), and what a handler does to one. A write always succeeds here: what a
-- broken connection does is not modelled.
use go_performance_starter.Prelude.{
  ℕ, Bool, not, ◌&&◌, String, Option, none, some, List, ◌++◌, ◌==◌, leb, if◌then◌else◌,
}
use go_performance_starter.Prelude.Dict.{Dict, insert}
use go_performance_starter.Prelude.Text.{Text}

-- The headers as they stand, what was sent of them with which status, and the body.
pub record Writer : Type 0 where
  pub header : Dict Text
  pub sent : Option (ℕ × Dict Text)
  pub body : List ℕ

-- The statuses 1xx but 101 are sent at once, and the response is still to come.
abbrev pub is_informational : ℕ → Bool
is_informational status = leb 100 status && leb status 199 && not (status == 101)

abbrev pub send_first : Option (ℕ × Dict Text) → ℕ → Dict Text → Option (ℕ × Dict Text)
send_first none status header = some (status, header)
send_first (some s) status header = some s

-- WriteHeader of net/http: the first one sends the headers.
unfoldable pub write_header : Writer → ℕ → Writer
write_header w status =
    if is_informational status then w else record w { sent = send_first w.sent status w.header }

-- Write of net/http: it sends status 200 if nothing was sent.
unfoldable pub write : Writer → List ℕ → Writer
write w bytes = record w { sent = send_first w.sent 200 w.header; body = w.body ++ bytes }

-- Header().Set
abbrev pub set_header : Writer → String → Text → Writer
set_header w name value = record w { header = insert name value w.header }

-- The calls that a handler makes.
pub data Act : Type 0 where
  sets_header : String → Text → Act
  writes_header : ℕ → Act
  writes : List ℕ → Act
