-- ===== src/Shared/HttpClient.antt =====
-- internal/shared/httpclient/httpclient.go: the retries of a request and its way through the circuit
-- breaker. Whether a request can be built, what the transport replies to each attempt, and whether the
-- context is done after it, are arguments; the delays are left out, since nothing is read after them but
-- the context. PostJSON and GetJSON differ only in the request that they build.
pub mod Retries
mod Examples
use summer_project.Prelude.{
  ℕ, zero, suc, ltb, leb, ◌==◌, Bool, true, false, not, ◌&&◌, ◌||◌, if◌then◌else◌, Option, none,
  some, List, [], ◌∷◌, String,
}
use summer_project.Prelude.Int.{ℤ, pos, negsuc}
use summer_project.Prelude.Text.{sprint, show_ℕ, show_ℤ}
use summer_project.Shared.Breaker.{CircuitBreaker, Response, circuit_open, called, execute}

-- What comes of one request: no response; a response of a status, whose body cannot be read; or a
-- response of a status, whose body is read, with whether it is empty, and what is wrong with it as JSON.
pub data Reply : Type 0 where
  no_response : String → Reply
  unreadable : ℕ → String → Reply
  read : ℕ → Bool → Option String → Reply

-- What one attempt returns: the status, 0 if there is none, and the error.
pub record Answer : Type 0 where
  pub status : ℕ
  pub error : Option String

-- What happens in one call, by the number of the attempt: the error of building the request, the reply,
-- and the context's error after it. The caller may want no body.
pub record Network : Type 0 where
  pub build : ℕ → Option String
  pub reply : ℕ → Reply
  pub wants_body : Bool
  pub cancelled : ℕ → Option String

-- What a call returns, and how many requests it sent.
pub record Sent : Type 0 where
  pub status : ℕ
  pub error : Option String
  pub requests : ℕ

pub is_retryable : ℕ → Bool
is_retryable status = status == 0

pub is_retryable_status : ℕ → Bool
is_retryable_status status =
    status == 429 || (status == 500 || (status == 502 || (status == 503 || status == 504)))

-- After an attempt: return, or go on with the last status and error.
pub data Next : Type 0 where
  stop : Sent → Next
  retry : ℕ → String → Next

abbrev pub sent : ℕ → Option String → ℕ → Sent
sent status error requests = record { status = status; error = error; requests = requests }

decoded : String → ℕ → Option String → Answer
decoded url status none = record { status = status; error = none }
decoded url status (some e) = record {
  status = status;
  error = some (sprint ("decode response from " ∷ url ∷ ": " ∷ e ∷ []));
}

-- The client's `execute`.
pub answer_of : String → Bool → Reply → Answer
unfolding decoded
answer_of url wants (no_response e) = record {
  status = 0;
  error = some (sprint ("execute request to " ∷ url ∷ ": " ∷ e ∷ []));
}
answer_of url wants (unreadable status e) = record {
  status = status;
  error = some (sprint ("read response body: " ∷ e ∷ []));
}
answer_of url wants (read status empty problem) =
    if wants && not empty
    then decoded url status problem
    else record { status = status; error = none }

abbrev pub attempts_of : ℤ → ℕ
attempts_of (pos n) = n
attempts_of (negsuc n) = 0

interrupted : ℕ → ℕ → String → Option String → Next
interrupted k status e (some done) = stop (sent status (some done) k)
interrupted k status e none = retry status e

-- The client's address and path, and its `MaxAttempts`.
module _ (base_url path : String) (most : ℤ) (net : Network) where
  -- An attempt that failed: the last one ends the loop, and else the context is asked.
  failed_attempt : ℕ → ℕ → ℕ → String → Next
  unfolding interrupted
  failed_attempt left k status e =
      if left == 0 then retry status e else interrupted k status e (net.cancelled k)

  judge : ℕ → ℕ → ℕ → Option String → Next
  unfolding is_retryable is_retryable_status failed_attempt
  judge left k status (some e) = failed_attempt left k status e
  judge left k status none =
      if not (is_retryable status)
      then stop (sent status none k)
      else if not (is_retryable_status status)
      then stop (sent status none k)
      else failed_attempt left k status
          (sprint ("HTTP " ∷ show_ℕ status ∷ " from " ∷ base_url ∷ path ∷ []))

  exhausted : ℕ → ℕ → String → Sent
  exhausted k status e =
      sent status
        (some
          (sprint ("all " ∷ show_ℤ most ∷ " attempts failed calling " ∷ base_url ∷ ": " ∷ e ∷ [])))
        k

  -- One turn of the loop: a request that cannot be built ends the call.
  attempt : ℕ → ℕ → Option String → Next
  unfolding judge answer_of
  attempt left k (some e) = stop (sent 0 (some (sprint ("build request: " ∷ e ∷ []))) k)
  attempt left k none =
      let a = answer_of (sprint (base_url ∷ path ∷ [])) net.wants_body (net.reply (suc k)) in
      judge left (suc k) a.status a.error

  -- The loop, over the number of attempts that are left and the number of those made.
  loop : ℕ → ℕ → Next → Sent
  unfolding attempt exhausted
  loop left k (stop s) = s
  loop zero k (retry status e) = exhausted k status e
  loop (suc left) k (retry status e) = loop left (suc k) (attempt left k (net.build (suc k)))

  -- `doWithRetry`; with no attempt the error wraps nil.
  unfoldable pub do_with_retry : Sent
  unfolding loop
  do_with_retry = loop (attempts_of most) 0 (retry 0 "%!w(<nil>)")

status_error : ℕ → Option String → Option String
status_error status (some e) = some e
status_error status none =
    if leb 500 status || status == 429
    then some (sprint ("HTTP status error: " ∷ show_ℕ status ∷ []))
    else none

-- What the breaker is told: an error, or a status that speaks of the infrastructure, is a failure.
unfoldable pub operation_error : Sent → Option String
unfolding status_error
operation_error s = status_error s.status s.error

reported : Sent → CircuitBreaker × Response → CircuitBreaker × Sent
reported s (cb, circuit_open) = (cb, sent 0 (some "circuit breaker is open") 0)
reported s (cb, called result) = (cb, s)

-- `PostJSON` with a breaker: the operation is run only if the breaker lets it through.
unfoldable pub post_json :
    ℤ → ℤ → ℤ → String → String → ℤ → Network → CircuitBreaker → CircuitBreaker × Sent
unfolding reported
post_json now later end base_url path most net cb =
    let s = do_with_retry base_url path most net in
    reported s (execute now later end (operation_error s) cb)
