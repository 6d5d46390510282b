-- ===== src/Cli/Api/Laws.antt =====
-- The answers of the interface are well formed.
use dest.Base.{
  ℕ, Bool, true, false, Option, none, some, List, [], ◌∷◌, length, drop, map, if◌then◌else◌, ◌≡◌,
  refl, ap,
}
use dest.Base.Text.{Text}
use dest.Base.Decimal.{scan}
use dest.Cli.Api.{
  starts_with, contains, response_body, respond, handle_request, Sending, Event, serve,
  status_response, balance_response, peers_response, chunks_response, not_found, status_path,
  balance_path, peers_path, chunks_path,
}

-- What follows the first occurrence of a pattern.
abbrev pub after : Text → Text → Option Text
after pattern [] = none
after pattern (c ∷ cs) =
    if starts_with pattern (c ∷ cs) then some (drop (length pattern) (c ∷ cs)) else after pattern cs

-- "Content-Length: "
abbrev pub length_header : Text
length_header =
    b'C' ∷ b'o' ∷ b'n' ∷ b't' ∷ b'e' ∷ b'n' ∷ b't' ∷ b'-' ∷ b'L' ∷ b'e' ∷ b'n' ∷ b'g' ∷ b't' ∷ b'h'
    ∷ b':' ∷ b' ' ∷ []

-- The empty line.
abbrev pub blank_line : Text
blank_line = 13 ∷ 10 ∷ 13 ∷ 10 ∷ []

-- "HTTP/1.1 200 OK"
abbrev pub ok_line : Text
ok_line =
    b'H' ∷ b'T' ∷ b'T' ∷ b'P' ∷ b'/' ∷ b'1' ∷ b'.' ∷ b'1' ∷ b' ' ∷ b'2' ∷ b'0' ∷ b'0' ∷ b' ' ∷ b'O'
    ∷ b'K' ∷ []

abbrev number : Option Text → Option ℕ
number none = none
number (some t) = some (scan 0 t).0

-- How a client reads an answer: the length it announces, and its body.
pub content_length : Text → Option ℕ
content_length t = number (after length_header t)

pub body : Text → Option Text
body t = after blank_line t

IsFramed : Text → Type 0
IsFramed b =
    (starts_with ok_line (respond b) ≡ true)
    × (content_length (respond b) ≡ some (length b))
    × (body (respond b) ≡ some b)

if-elim : (P : Text → Type 0) (b : Bool) (s t : Text) → P s → P t → P (if b then s else t)
if-elim P true s t p q = p
if-elim P false s t p q = q

-- Whatever the request, the answer has status 200, the length it announces is that of its body, and a
-- client that reads on from the empty line finds the body chosen for the request.
pub handle_request-framed :
    (request : Text)
    → let answer = handle_request request in
      (starts_with ok_line answer ≡ true)
      × (content_length answer ≡ some (length (response_body request)))
      × (body answer ≡ some (response_body request))
unfolding handle_request IsFramed content_length body scan
handle_request-framed request =
    if-elim IsFramed (contains status_path request) status_response _ (refl, refl, refl)
      (if-elim IsFramed (contains balance_path request) balance_response _ (refl, refl, refl)
        (if-elim IsFramed (contains peers_path request) peers_response _ (refl, refl, refl)
          (if-elim IsFramed (contains chunks_path request) chunks_response not_found
            (refl, refl, refl) (refl, refl, refl))))

-- Whether the loop goes on after a round.
abbrev goes_on : Event → Bool
goes_on Event.unread = true
goes_on (Event.request r Sending.closed) = true
goes_on _ = false

-- The rounds of the loop: the events up to the first after which it does not go on.
pub rounds : List Event → List Event
rounds [] = []
rounds (e ∷ events) = e ∷ (let rest = rounds events in if goes_on e then rest else [])

-- The requests whose answer was written, in their order.
pub answered : List Event → List Text
answered [] = []
answered (Event.accept_failed ∷ events) = answered events
answered (Event.unread ∷ events) = answered events
answered (Event.request r Sending.unwritten ∷ events) = answered events
answered (Event.request r Sending.unclosed ∷ events) = r ∷ answered events
answered (Event.request r Sending.closed ∷ events) = r ∷ answered events

-- The server writes one answer, that of `handle_request`, for each request of its rounds whose answer can be written, in the order of the requests and no other; and its rounds end with the first connection that fails, answer that cannot be written or stream that cannot be shut down.
pub serve-rounds :
    (events : List Event) → serve events ≡ map handle_request (answered (rounds events))
unfolding serve rounds answered
serve-rounds [] = refl
serve-rounds (Event.accept_failed ∷ events) = refl
serve-rounds (Event.unread ∷ events) = serve-rounds events
serve-rounds (Event.request r Sending.unwritten ∷ events) = refl
serve-rounds (Event.request r Sending.unclosed ∷ events) = refl
serve-rounds (Event.request r Sending.closed ∷ events) =
    ap (λ ts. handle_request r ∷ ts) (serve-rounds events)
