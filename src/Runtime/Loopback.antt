-- ===== src/Runtime/Loopback.antt =====
-- adapters/sync-runtime/src/loopback.rs: the listener that waits for the browser's callback. What the
-- sockets answer is an argument, and the parser of a query string is a parameter.
pub mod Callbacks
use tersa_app.Prelude.{
  ℕ, zero, suc, ◌+◌, ◌≡◌, ◌<◌, ◌≤◌, refl, ap, sym, ◌∙◌, Bool, true, false, not, ◌&&◌, ◌||◌, Option,
  none, some, List, [], ◌∷◌, ◌++◌, take, all, length, is_empty, in_range, leb, if◌then◌else◌, arith,
  Bool-cases, Option-cases, inl, inr,
}
use tersa_app.Prelude.Result.{Result, ok, err}
use tersa_app.Prelude.Text.{Text, codes, bytes, text_eq}
use tersa_app.Prelude.Utf8.{from_utf8_lossy}
use tersa_app.Presentation.Mailbox.Search.{find, contains, drop, is_prefix}

abbrev pub max_request_head : ℕ
max_request_head = 8192

abbrev pub max_connections : ℕ
max_connections = 32

pub data LoopbackError : Type 0 where
  io : LoopbackError
  timed_out : LoopbackError
  too_many_connections : LoopbackError

-- `std::str::from_utf8(…).ok()`: the bytes that are the encoding of a text
unfoldable pub from_utf8 : List ℕ → Option Text
unfolding from_utf8_lossy
from_utf8 bs = if text_eq (bytes (from_utf8_lossy bs)) bs then some (from_utf8_lossy bs) else none

abbrev put_first : ℕ → List Text → List Text
put_first c [] = (c ∷ []) ∷ []
put_first c (part ∷ parts) = (c ∷ part) ∷ parts

-- `line.split(' ')`
unfoldable pub split_spaces : Text → List Text
split_spaces [] = [] ∷ []
split_spaces (c ∷ line) =
    let rest = split_spaces line in
    if text_eq (c ∷ []) (b' ' ∷ []) then [] ∷ rest else put_first c rest

abbrev pub is_target : Text → Bool
is_target target = is_prefix (codes "/") target && all (in_range 0x21 0x7E) (bytes target)

abbrev pub request_target : List Text → Option Text
request_target (method ∷ target ∷ version ∷ []) =
    if not (text_eq method (codes "GET")) || not (is_prefix (codes "HTTP/1.") version)
    then none
    else if not (is_target target)
    then none
    else some target
request_target _ = none

abbrev pub target_of_line : Option Text → Option Text
target_of_line none = none
target_of_line (some line) = request_target (split_spaces line)

abbrev pub line_at : List ℕ → Option ℕ → Option Text
line_at head none = none
line_at head (some line_end) = target_of_line (from_utf8 (take line_end head))

unfoldable pub parse_request_target : List ℕ → Option Text
unfolding from_utf8 split_spaces find
parse_request_target head = line_at head (find (codes "\r\n") head)

-- the head so far and what is still to be read; `none` is a failed read, and the end of the list is
-- the read timeout
unfoldable pub read_request_head : List ℕ → List (Option (List ℕ)) → Option (List ℕ)
unfolding find
read_request_head head [] = if contains (codes "\r\n\r\n") head then some head else none
read_request_head head (none ∷ reads) = if contains (codes "\r\n\r\n") head then some head else none
read_request_head head (some chunk ∷ reads) =
    let more = read_request_head (head ++ chunk) reads in
    if contains (codes "\r\n\r\n") head
    then some head
    else if leb max_request_head (length head)
    then none
    else if is_empty chunk
    then none
    else more

abbrev pub target_of_head : Option (List ℕ) → Option Text
target_of_head none = none
target_of_head (some head) = parse_request_target head

unfoldable pub read_request_target : List (Option (List ℕ)) → Option Text
unfolding read_request_head parse_request_target
read_request_target reads = target_of_head (read_request_head [] reads)

-- an accepted connection: whether its peer is the loopback, and its reads
pub data Accepted : Type 0 where
  failed : Accepted
  accepted : Bool → List (Option (List ℕ)) → Accepted

module _ (parse_query : Text → List (Text × Text)) where
  abbrev one_state : Text → List (Text × Text) → Bool
  one_state expected ((name, value) ∷ []) = text_eq value expected
  one_state expected _ = false

  abbrev states : List (Text × Text) → List (Text × Text)
  states [] = []
  states ((name, value) ∷ pairs) =
      let rest = states pairs in if text_eq name (codes "state") then (name, value) ∷ rest else rest

  unfoldable pub is_matching_callback : Text → Text → Bool
  is_matching_callback target expected =
      is_prefix (codes "/?") target && one_state expected (states (parse_query (drop 2 target)))

  -- the callback URL, on the listener's port in decimal
  abbrev pub callback_url : Text → Text → Text
  callback_url port target = codes "http://127.0.0.1:" ++ (port ++ target)

  abbrev pub answer :
      Text → Text → Result LoopbackError Text → Option Text → Result LoopbackError Text
  answer port expected rest none = rest
  answer port expected rest (some target) =
      if is_matching_callback target expected then ok (callback_url port target) else rest

  abbrev pub respond :
      Text → Text → Result LoopbackError Text → Accepted → Result LoopbackError Text
  respond port expected rest failed = err io
  respond port expected rest (accepted false reads) = rest
  respond port expected rest (accepted true reads) =
      answer port expected rest (read_request_target reads)

  -- the loop of `serve`: the connections that are left, and the number of the next one
  unfoldable pub serve_connections :
      Text → Text → (ℕ → Accepted) → ℕ → ℕ → Result LoopbackError Text
  unfolding is_matching_callback read_request_target
  serve_connections port expected accept zero next = err too_many_connections
  serve_connections port expected accept (suc remaining) next =
      respond port expected (serve_connections port expected accept remaining (next + 1))
        (accept next)

  unfoldable pub serve : Text → Text → (ℕ → Accepted) → Result LoopbackError Text
  unfolding serve_connections
  serve port expected accept = serve_connections port expected accept max_connections 0
