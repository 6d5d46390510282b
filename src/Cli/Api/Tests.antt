-- ===== src/Cli/Api/Tests.antt =====
-- The theorems on cli/src/api.rs at small inputs.
use dest.Base.{true, some, List, [], ◌∷◌, map, length, ◌≡◌}
use dest.Base.Text.{Text}
use dest.Cli.Api.{handle_request, response_body, starts_with, Sending, Event, serve}
use dest.Cli.Api.Laws.{
  ok_line, content_length, body, handle_request-framed, rounds, answered, serve-rounds,
}

-- "GET /api/v1/peers HTTP/1.1"
abbrev get_peers : Text
get_peers =
    b'G' ∷ b'E' ∷ b'T' ∷ b' ' ∷ b'/' ∷ b'a' ∷ b'p' ∷ b'i' ∷ b'/' ∷ b'v' ∷ b'1' ∷ b'/' ∷ b'p' ∷ b'e'
    ∷ b'e' ∷ b'r' ∷ b's' ∷ b' ' ∷ b'H' ∷ b'T' ∷ b'T' ∷ b'P' ∷ b'/' ∷ b'1' ∷ b'.' ∷ b'1' ∷ []

handle_request-framed_example :
    let answer = handle_request get_peers in
    (starts_with ok_line answer ≡ true)
    × (content_length answer ≡ some (length (response_body get_peers)))
    × (body answer ≡ some (response_body get_peers))
handle_request-framed_example = handle_request-framed get_peers

-- The second answer cannot be written.
abbrev events : List Event
events =
    Event.request get_peers Sending.closed
    ∷ Event.unread
    ∷ Event.request [] Sending.unwritten
    ∷ Event.request get_peers Sending.closed
    ∷ []

serve-rounds_example : serve events ≡ map handle_request (answered (rounds events))
serve-rounds_example = serve-rounds events
