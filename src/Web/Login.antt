-- ===== src/Web/Login.antt =====
-- web/src/features/auth/LoginForm.tsx as a machine: the fields, the attempt with its lock, the answer
-- of the server, and the seconds to wait after too many attempts.
pub mod Laws
pub mod Tests
use helio.Prelude.{
  ℕ, ◌+◌, ◌-◌, ◌/◌, ◌%◌, Bool, true, false, ◌||◌, ◌==◌, Option, none, some, List, [], ◌∷◌, ◌++◌,
  if◌then◌else◌, or_else, leb, ltb,
}
use helio.Js.Text.{Text, codes, trim}
use helio.Web.Fields.{numeral, pad_two}

-- What `message` says: nothing, that the name or password is wrong, that the server failed, or that it
-- was not reached.
pub data Message : Type 0 where
  no_message wrong_password server_failed not_reached : Message

pub record Login : Type 0 where
  pub username : Text
  pub password : Text
  -- the seconds to wait
  pub remaining : ℕ
  pub message : Message
  -- `submissionStarted.current`
  pub submission_started : Bool
  -- the requests that were sent, and how many of them have no answer yet
  pub sent : List (Text × Text)
  pub pending : ℕ
  -- the CSRF token that `authMemory` and the cached session have after a success
  pub session : Option Text

unfoldable pub start : Login
start = record {
  username = codes "Admin";
  password = [];
  remaining = 0;
  message = no_message;
  submission_started = false;
  sent = [];
  pending = 0;
  session = none;
}

-- How a request ends: with a session, with an `ApiError` (its status and `retryAfterSeconds`), or with
-- another error.
pub data Answer : Type 0 where
  opened : Text → Answer
  refused : ℕ → Option ℕ → Answer
  failed : Answer

-- `onError` of an `ApiError`
abbrev pub refuse : ℕ → Option ℕ → Login → Login
refuse status retry_after s =
    if status == 429
    then record s { remaining = or_else retry_after 60 }
    else if status == 401
    then record s { message = wrong_password }
    else if leb 500 status
    then record s { message = server_failed }
    else record s { message = not_reached }

-- `onSuccess` and `onError` of the mutation
abbrev pub conclude : Answer → Login → Login
conclude (opened token) s = record s { session = some token }
conclude (refused status retry_after) s = refuse status retry_after s
conclude failed s = record s { message = not_reached }

-- The answer to a request, with `onSettled`.
unfoldable pub settle : Answer → Login → Login
settle answer s = conclude answer (record s { pending = s.pending - 1; submission_started = false })

-- The submit event of the form.
unfoldable pub submit : Login → Login
submit s =
    if s.submission_started || ltb 0 s.remaining
    then record s { message = no_message }
    else record s {
      message = no_message;
      submission_started = true;
      sent = s.sent ++ (trim s.username, s.password) ∷ [];
      pending = s.pending + 1;
    }

-- The countdown `m:ss` of the seconds to wait.
unfoldable pub countdown : ℕ → Text
countdown remaining = numeral (remaining / 60) ++ b':' ∷ pad_two (numeral (remaining % 60))

pub data Event : Type 0 where
  types_username types_password : Text → Event
  submits : Event
  -- the interval of a second
  ticks : Event
  answers : Answer → Event

-- The interval runs while there are seconds to wait, and an answer needs a request. The button is
-- disabled in both cases where `submit` sends nothing, which the model does not rely on.
unfoldable pub is_possible : Event → Login → Bool
is_possible (types_username t) s = true
is_possible (types_password t) s = true
is_possible submits s = true
is_possible ticks s = ltb 0 s.remaining
is_possible (answers answer) s = ltb 0 s.pending

unfoldable pub handle : Event → Login → Login
handle (types_username t) s = record s { username = t }
handle (types_password t) s = record s { password = t }
handle submits s = submit s
handle ticks s = record s { remaining = s.remaining - 1 }
handle (answers answer) s = settle answer s

-- Events in their order; those that cannot happen are left out.
unfoldable pub run : List Event → Login → Login
run [] s = s
run (event ∷ events) s =
    let happened = run events (handle event s) in
    let skipped = run events s in if is_possible event s then happened else skipped
