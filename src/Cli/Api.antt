-- ===== src/Cli/Api.antt =====
-- cli/src/api.rs: the HTTP interface of the daemon. What the network brings is a list of events.
pub mod Laws
mod Tests
use dest.Base.{◌+◌, Bool, true, false, ◌&&◌, List, [], ◌∷◌, ◌++◌, length, ◌==◌, if◌then◌else◌}
use dest.Base.Text.{Text}
use dest.Base.Decimal.{to_decimal}

abbrev pub starts_with : Text → Text → Bool
starts_with [] t = true
starts_with (p ∷ ps) [] = false
starts_with (p ∷ ps) (c ∷ cs) = p == c && starts_with ps cs

-- `str::contains`
abbrev pub contains : Text → Text → Bool
contains pattern [] = starts_with pattern []
contains pattern (c ∷ cs) = if starts_with pattern (c ∷ cs) then true else contains pattern cs

-- "GET /api/v1/status" and
-- {"status":"running","version":"0.1.0"}
abbrev pub status_path : Text
status_path =
    b'G' ∷ b'E' ∷ b'T' ∷ b' ' ∷ b'/' ∷ b'a' ∷ b'p' ∷ b'i' ∷ b'/' ∷ b'v' ∷ b'1' ∷ b'/' ∷ b's' ∷ b't'
    ∷ b'a' ∷ b't' ∷ b'u' ∷ b's' ∷ []

abbrev pub status_response : Text
status_response =
    b'{' ∷ 34 ∷ b's' ∷ b't' ∷ b'a' ∷ b't' ∷ b'u' ∷ b's' ∷ 34 ∷ b':' ∷ 34 ∷ b'r' ∷ b'u' ∷ b'n' ∷ b'n'
    ∷ b'i' ∷ b'n' ∷ b'g' ∷ 34 ∷ b',' ∷ 34 ∷ b'v' ∷ b'e' ∷ b'r' ∷ b's' ∷ b'i' ∷ b'o' ∷ b'n' ∷ 34
    ∷ b':' ∷ 34 ∷ b'0' ∷ b'.' ∷ b'1' ∷ b'.' ∷ b'0' ∷ 34 ∷ b'}' ∷ []

-- "GET /api/v1/balance" and
-- {"balance":"0.00","currency":"RUB","status":"active"}
abbrev pub balance_path : Text
balance_path =
    b'G' ∷ b'E' ∷ b'T' ∷ b' ' ∷ b'/' ∷ b'a' ∷ b'p' ∷ b'i' ∷ b'/' ∷ b'v' ∷ b'1' ∷ b'/' ∷ b'b' ∷ b'a'
    ∷ b'l' ∷ b'a' ∷ b'n' ∷ b'c' ∷ b'e' ∷ []

abbrev pub balance_response : Text
balance_response =
    b'{' ∷ 34 ∷ b'b' ∷ b'a' ∷ b'l' ∷ b'a' ∷ b'n' ∷ b'c' ∷ b'e' ∷ 34 ∷ b':' ∷ 34 ∷ b'0' ∷ b'.' ∷ b'0'
    ∷ b'0' ∷ 34 ∷ b',' ∷ 34 ∷ b'c' ∷ b'u' ∷ b'r' ∷ b'r' ∷ b'e' ∷ b'n' ∷ b'c' ∷ b'y' ∷ 34 ∷ b':' ∷ 34
    ∷ b'R' ∷ b'U' ∷ b'B' ∷ 34 ∷ b',' ∷ 34 ∷ b's' ∷ b't' ∷ b'a' ∷ b't' ∷ b'u' ∷ b's' ∷ 34 ∷ b':' ∷ 34
    ∷ b'a' ∷ b'c' ∷ b't' ∷ b'i' ∷ b'v' ∷ b'e' ∷ 34 ∷ b'}' ∷ []

-- "GET /api/v1/peers" and
-- {"peers":[],"count":0}
abbrev pub peers_path : Text
peers_path =
    b'G' ∷ b'E' ∷ b'T' ∷ b' ' ∷ b'/' ∷ b'a' ∷ b'p' ∷ b'i' ∷ b'/' ∷ b'v' ∷ b'1' ∷ b'/' ∷ b'p' ∷ b'e'
    ∷ b'e' ∷ b'r' ∷ b's' ∷ []

abbrev pub peers_response : Text
peers_response =
    b'{' ∷ 34 ∷ b'p' ∷ b'e' ∷ b'e' ∷ b'r' ∷ b's' ∷ 34 ∷ b':' ∷ b'[' ∷ b']' ∷ b',' ∷ 34 ∷ b'c' ∷ b'o'
    ∷ b'u' ∷ b'n' ∷ b't' ∷ 34 ∷ b':' ∷ b'0' ∷ b'}' ∷ []

-- "GET /api/v1/chunks" and
-- {"chunks":[],"count":0}
abbrev pub chunks_path : Text
chunks_path =
    b'G' ∷ b'E' ∷ b'T' ∷ b' ' ∷ b'/' ∷ b'a' ∷ b'p' ∷ b'i' ∷ b'/' ∷ b'v' ∷ b'1' ∷ b'/' ∷ b'c' ∷ b'h'
    ∷ b'u' ∷ b'n' ∷ b'k' ∷ b's' ∷ []

abbrev pub chunks_response : Text
chunks_response =
    b'{' ∷ 34 ∷ b'c' ∷ b'h' ∷ b'u' ∷ b'n' ∷ b'k' ∷ b's' ∷ 34 ∷ b':' ∷ b'[' ∷ b']' ∷ b',' ∷ 34 ∷ b'c'
    ∷ b'o' ∷ b'u' ∷ b'n' ∷ b't' ∷ 34 ∷ b':' ∷ b'0' ∷ b'}' ∷ []

-- {"error":"not_found"}
abbrev pub not_found : Text
not_found =
    b'{' ∷ 34 ∷ b'e' ∷ b'r' ∷ b'r' ∷ b'o' ∷ b'r' ∷ 34 ∷ b':' ∷ 34 ∷ b'n' ∷ b'o' ∷ b't' ∷ b'_' ∷ b'f'
    ∷ b'o' ∷ b'u' ∷ b'n' ∷ b'd' ∷ 34 ∷ b'}' ∷ []

-- The body, by the first of the four paths that the request contains.
abbrev pub response_body : Text → Text
response_body request =
    if contains status_path request
    then status_response
    else if contains balance_path request
    then balance_response
    else if contains peers_path request
    then peers_response
    else if contains chunks_path request
    then chunks_response
    else not_found

-- The status line and the headers before the length, and after it.
abbrev pub head : Text
head =
    b'H' ∷ b'T' ∷ b'T' ∷ b'P' ∷ b'/' ∷ b'1' ∷ b'.' ∷ b'1' ∷ b' ' ∷ b'2' ∷ b'0' ∷ b'0' ∷ b' ' ∷ b'O'
    ∷ b'K' ∷ 13 ∷ 10 ∷ b'C' ∷ b'o' ∷ b'n' ∷ b't' ∷ b'e' ∷ b'n' ∷ b't' ∷ b'-' ∷ b'T' ∷ b'y' ∷ b'p'
    ∷ b'e' ∷ b':' ∷ b' ' ∷ b'a' ∷ b'p' ∷ b'p' ∷ b'l' ∷ b'i' ∷ b'c' ∷ b'a' ∷ b't' ∷ b'i' ∷ b'o'
    ∷ b'n' ∷ b'/' ∷ b'j' ∷ b's' ∷ b'o' ∷ b'n' ∷ 13 ∷ 10 ∷ b'C' ∷ b'o' ∷ b'n' ∷ b't' ∷ b'e' ∷ b'n'
    ∷ b't' ∷ b'-' ∷ b'L' ∷ b'e' ∷ b'n' ∷ b'g' ∷ b't' ∷ b'h' ∷ b':' ∷ b' ' ∷ []

abbrev pub tail : Text
tail =
    13 ∷ 10 ∷ b'C' ∷ b'o' ∷ b'n' ∷ b'n' ∷ b'e' ∷ b'c' ∷ b't' ∷ b'i' ∷ b'o' ∷ b'n' ∷ b':' ∷ b' '
    ∷ b'c' ∷ b'l' ∷ b'o' ∷ b's' ∷ b'e' ∷ 13 ∷ 10 ∷ 13 ∷ 10 ∷ []

-- The `format!`.
abbrev pub respond : Text → Text
respond body = head ++ (to_decimal (length body) ++ (tail ++ body))

pub handle_request : Text → Text
handle_request request = respond (response_body request)

-- What becomes of an answer: it is written or not, and then the stream is shut down or not.
pub data Sending : Type 0 where
  unwritten unclosed closed : Sending

-- A round of the loop: a connection that fails, one whose read ends or fails, or a request, of at most
-- 4096 bytes.
pub data Event : Type 0 where
  accept_failed unread : Event
  request : Text → Sending → Event

-- The answers written, from the first round on; the loop ends at an error, which ends `run_api_server`.
pub serve : List Event → List Text
serve [] = []
serve (Event.accept_failed ∷ events) = []
serve (Event.unread ∷ events) = serve events
serve (Event.request r Sending.unwritten ∷ events) = []
serve (Event.request r Sending.unclosed ∷ events) = handle_request r ∷ []
serve (Event.request r Sending.closed ∷ events) = handle_request r ∷ serve events
