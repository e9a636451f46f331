-- ===== src/Shared/HttpClient/Retries.antt =====
-- When a request is sent again.
use summer_project.Prelude.{
  ℕ, zero, suc, ◌+◌, ◌≤◌, ◌<◌, ◌==◌, ◌≡◌, refl, ap, inl, inr, ◌⊎◌, Bool, true, false, [], ◌∷◌,
  Option, none, some, String, arith, Bool-cases, Option-cases,
}
use summer_project.Prelude.Text.{sprint}
use summer_project.Prelude.Int.{ℤ, ◌-ℤ◌, ◌≤ℤ◌}
use summer_project.Shared.Breaker.{CircuitBreaker, open_state}
use summer_project.Shared.Breaker.Interleavings.{execute_open}
use summer_project.Shared.HttpClient.{
  Reply, no_response, unreadable, read, Network, Sent, sent, stop, answer_of, decoded, attempt,
  retry, attempts_of, is_retryable, is_retryable_status, interrupted, failed_attempt, judge,
  exhausted, loop, do_with_retry, operation_error, reported, post_json,
}

-- The reply makes an attempt fail: there is no response, its body cannot be read, or it is wanted, there
-- and no JSON of the form that is wanted.
abbrev pub Fails : Bool → Reply → Type 0
Fails wants (no_response e) = Unit
Fails wants (unreadable status e) = Unit
Fails wants (read status empty problem) =
    (wants ≡ true) × (empty ≡ false) × ((e : String) × (problem ≡ some e))

-- The reply delivers the status: its body is read, and decoded where it is wanted and there.
abbrev pub Delivers : Bool → Reply → ℕ → Type 0
Delivers wants (no_response e) status = ⊥
Delivers wants (unreadable code e) status = ⊥
Delivers wants (read code empty problem) status =
    (code ≡ status) × ((wants ≡ false) ⊎ ((empty ≡ true) ⊎ (problem ≡ none)))

-- Every attempt up to the k-th failed.
abbrev pub AllFailed : Network → ℕ → Type 0
AllFailed net k = (j : ℕ) → 1 ≤ j → j ≤ k → Fails net.wants_body (net.reply j)

-- How a call may come out: the first reply that delivers a status gives it, whatever it is; or a request
-- cannot be built; or the context stops the call after a failed attempt; or all attempts failed.
pub data RetryOutcome (net : Network) (most : ℕ) (s : Sent) : Type 0 where
  answered :
      (k status : ℕ)
      → suc k ≤ most
      → AllFailed net k
      → net.build (suc k) ≡ none
      → Delivers net.wants_body (net.reply (suc k)) status
      → s ≡ sent status none (suc k)
      → RetryOutcome net most s
  not_built :
      (k : ℕ) (e : String)
      → suc k ≤ most
      → AllFailed net k
      → net.build (suc k) ≡ some e
      → s ≡ sent 0 (some (sprint ("build request: " ∷ e ∷ []))) k
      → RetryOutcome net most s
  stopped :
      (k : ℕ) (e : String)
      → k < most
      → AllFailed net k
      → net.cancelled k ≡ some e
      → s.error ≡ some e
      → s.requests ≡ k
      → RetryOutcome net most s
  all_failed :
      (e : String)
      → AllFailed net most
      → s.error ≡ some e
      → s.requests ≡ most
      → RetryOutcome net most s

failed_reply :
    (url : String) (wants : Bool) (r : Reply) (e : String)
    → (answer_of url wants r).error ≡ some e
    → Fails wants r
unfolding answer_of decoded
failed_reply url wants (no_response e') e h = tt
failed_reply url wants (unreadable status e') e h = tt
failed_reply url true (read status false (some e')) e h = (refl, refl, (e', refl))
failed_reply url true (read status false none) e h = cc
failed_reply url true (read status true problem) e h = cc
failed_reply url false (read status empty problem) e h = cc

delivered_reply :
    (url : String) (wants : Bool) (r : Reply)
    → (answer_of url wants r).error ≡ none
    → Delivers wants r (answer_of url wants r).status
unfolding answer_of decoded
delivered_reply url wants (no_response e') h = cc
delivered_reply url wants (unreadable status e') h = cc
delivered_reply url true (read status false (some e')) h = cc
delivered_reply url true (read status false none) h = (refl, inr (inr refl))
delivered_reply url true (read status true problem) h = (refl, inr (inl refl))
delivered_reply url false (read status empty problem) h = (refl, inl refl)

none_failed : (net : Network) → AllFailed net 0
none_failed net j low high = absurd (omega (arith, low, high))

one_more_failed :
    (net : Network) (k : ℕ)
    → Fails net.wants_body (net.reply (suc k))
    → AllFailed net k
    → AllFailed net (suc k)
one_more_failed net k h v j low high = elim (Bool-cases (j == suc k)) [
  | inl last ↦ let it : j ≡ suc k = ground (arith, last) in rw it h
  | inr before ↦ v j low (ground (arith, before, high))
]

module _ (base_url path : String) (most : ℤ) (net : Network) where
  -- A transport that answers stops the loop, whatever the status.
  judge_answered :
      (left k status : ℕ)
      → judge base_url path most net left k status none ≡ stop (sent status none k)
  unfolding judge is_retryable is_retryable_status
  judge_answered left k status = ground arith

  -- One attempt more, if the rest goes on well from its failure.
  judge-RetryOutcome :
      (total left k status : ℕ) (err : Option String)
      → suc k + left ≡ total
      → net.build (suc k) ≡ none
      → (err ≡ none → Delivers net.wants_body (net.reply (suc k)) status)
      → ((e : String) → err ≡ some e → Fails net.wants_body (net.reply (suc k)))
      → AllFailed net k
      → ((s : ℕ) (e : String)
          → AllFailed net (suc k)
          → RetryOutcome net total (loop base_url path most net left (suc k) (retry s e)))
      → RetryOutcome net total (
          loop base_url path most net left
            (suc k)
            (judge base_url path most net left (suc k) status err))
  unfolding loop judge failed_attempt
  judge-RetryOutcome total left k status none t built delivers fails v rest =
      rw (judge_answered left (suc k) status)
        (answered k status (omega (arith, t)) v built (delivers refl) refl)
  judge-RetryOutcome total left k status (some err) t built delivers fails v rest =
      let failed = one_more_failed net k (fails err refl) v in
      elim (Bool-cases (left == 0)) [
        | inl last ↦ rw last (rest status err failed)
        | inr not_last ↦ elim (Option-cases (net.cancelled (suc k))) [
          | inl on ↦ rw (not_last, on, interrupted) (rest status err failed)
          | inr (done, off) ↦
              rw (not_last, off, interrupted)
                (stopped (suc k) done (ground (arith, t, not_last)) failed off refl refl)
        ]
      ]

  attempt-RetryOutcome :
      (total left k : ℕ) (built : Option String)
      → suc k + left ≡ total
      → net.build (suc k) ≡ built
      → AllFailed net k
      → ((s : ℕ) (e : String)
          → AllFailed net (suc k)
          → RetryOutcome net total (loop base_url path most net left (suc k) (retry s e)))
      → RetryOutcome net total
          (loop base_url path most net left (suc k) (attempt base_url path most net left k built))
  unfolding loop attempt
  attempt-RetryOutcome total left k (some e) t built v rest =
      not_built k e (omega (arith, t)) v built refl
  attempt-RetryOutcome total left k none t built v rest =
      let url = sprint (base_url ∷ path ∷ []) in
      let r = net.reply (suc k) in
      judge-RetryOutcome total left k _ _ t built (delivered_reply url net.wants_body r)
        (failed_reply url net.wants_body r) v rest

  loop-RetryOutcome :
      (total left k status : ℕ) (e : String)
      → k + left ≡ total
      → AllFailed net k
      → RetryOutcome net total (loop base_url path most net left k (retry status e))
  unfolding loop exhausted
  loop-RetryOutcome total zero k status e t v =
      let it : k ≡ total = omega (arith, t) in all_failed _ (rw (← it) v) refl it
  loop-RetryOutcome total (suc left) k status e t v =
      attempt-RetryOutcome total left k _ (omega (arith, t)) refl v
        (λ s e'. loop-RetryOutcome total left (suc k) s e' (omega (arith, t)))

  -- A call sends its request again only after an attempt that got no response, whose body could not be
  -- read, or whose body, wanted and not empty, could not be decoded: it returns the status of the first
  -- attempt of another kind, whatever the status is, with as many requests sent; or it fails at a request
  -- that cannot be built; or it is stopped by its context after a failed attempt; or it fails after exactly
  -- the configured number of requests, all of which failed so.
  pub do_with_retry-RetryOutcome :
      RetryOutcome net (attempts_of most) (do_with_retry base_url path most net)
  unfolding do_with_retry
  do_with_retry-RetryOutcome =
      loop-RetryOutcome (attempts_of most) (attempts_of most) 0 0 _ (omega arith) (none_failed net)

-- While the breaker is open and its recovery interval has not passed, no request is sent, the call
-- fails, and the breaker is left alone.
pub post_json_open :
    (now later end : ℤ) (base_url path : String) (most : ℤ) (net : Network) (cb : CircuitBreaker)
    → cb.state ≡ open_state
    → now -ℤ cb.last_state_change ≤ℤ cb.cfg.recovery_interval
    → post_json now later end base_url path most net cb
      ≡ (cb, sent 0 (some "circuit breaker is open") 0)
unfolding post_json reported
post_json_open now later end base_url path most net cb opened recent =
    let s = do_with_retry base_url path most net in
    ap (reported s) (execute_open now later end (operation_error s) cb opened recent)
