-- ===== src/Sources/Http/Retry.antt =====
-- The retry loop against the answers that the server gives.
use job_aggregator.Prelude.{
  ℕ, zero, suc, ◌+◌, ◌*◌, ◌≤◌, ◌<◌, max, true, ◌⊎◌, inl, inr, none, some, [], ◌∷◌, ◌≡◌, refl, arith,
  is_some, length, total, Option-cases,
}
use job_aggregator.Sources.Http.{
  Answer, pause, settle, attempts, request_with_retry, backoff, retry_delay, max_retry_after,
}

module _ (respond : ℕ → Answer) where
  attempts-settles :
      (left attempt j : ℕ)
      → j ≤ left
      → ((i : ℕ) → i < j → is_some (pause (respond (attempt + i)) (attempt + i)) ≡ true)
      → (j ≡ left) ⊎ (pause (respond (attempt + j)) (attempt + j) ≡ none)
      → ((attempts respond left attempt).0 ≡ settle (respond (attempt + j)))
        × (length (attempts respond left attempt).1 ≡ j)
  unfolding attempts
  attempts-settles zero attempt zero le retried stops =
      let e : attempt + 0 ≡ attempt = omega arith in rw e (refl, refl)
  attempts-settles zero attempt (suc j) le retried stops = absurd (omega arith)
  attempts-settles (suc left) attempt zero le retried stops =
      let e : attempt + 0 ≡ attempt = omega arith in
      elim stops [
        | inl same ↦ absurd (omega arith)
        | inr last ↦
            let here : pause (respond attempt) attempt ≡ none = rw e at last in ground (arith, e)
      ]
  attempts-settles (suc left) attempt (suc j) le retried stops =
      let e : attempt + 0 ≡ attempt = omega arith in
      let f : attempt + suc j ≡ (attempt + 1) + j = omega arith in
      let here : is_some (pause (respond attempt) attempt) ≡ true =
        rw e at (retried 0 (omega arith)) in
      let rest =
        attempts-settles left (attempt + 1) j (omega arith)
          (λ i h.
            let g : attempt + suc i ≡ (attempt + 1) + i = omega arith in
            rw g at (retried (suc i) (omega arith)))
          (elim stops [ inl same ↦ inl (omega arith) | inr last ↦ inr (rw f at last) ]) in
      rw f (ground (arith, rest))

  -- The first answer that is not retried, or the answer to the last attempt, decides what is
  -- returned or raised, and one delay was slept for each attempt before it.
  pub request_with_retry-settles :
      (max_retries j : ℕ)
      → j ≤ max_retries
      → ((i : ℕ) → i < j → is_some (pause (respond i) i) ≡ true)
      → (j ≡ max_retries) ⊎ (pause (respond j) j ≡ none)
      → ((request_with_retry respond max_retries).0 ≡ settle (respond j))
        × (length (request_with_retry respond max_retries).1 ≡ j)
  unfolding request_with_retry
  request_with_retry-settles max_retries j le retried stops =
      let z : 0 + j ≡ j = omega arith in
      rw z at (
        attempts-settles max_retries 0 j le
          (λ i h. let g : 0 + i ≡ i = omega arith in rw g (retried i h)) (rw z stops))

  backoff-le : (m n : ℕ) → m ≤ n → backoff m ≤ backoff n
  unfolding backoff
  backoff-le zero zero h = omega arith
  backoff-le zero (suc n) h = omega (arith, backoff-le zero n (omega arith))
  backoff-le (suc m) zero h = absurd (omega arith)
  backoff-le (suc m) (suc n) h = omega (arith, backoff-le m n (omega arith))

  pause-le :
      (answer : Answer) (attempt d : ℕ)
      → pause answer attempt ≡ some d
      → d ≤ max max_retry_after (backoff attempt)
  unfolding pause retry_delay
  pause-le answer attempt d h = ground arith

  attempts-total :
      (left attempt bound : ℕ)
      → max max_retry_after (backoff (attempt + left)) ≤ bound
      → total (λ d. d) (attempts respond left attempt).1 ≤ left * bound
  unfolding attempts
  attempts-total zero attempt bound h = omega arith
  attempts-total (suc left) attempt bound h =
      let f : (attempt + 1) + left ≡ attempt + suc left = omega arith in
      let rest = attempts-total left (attempt + 1) bound (rw f h) in
      elim (Option-cases (pause (respond attempt) attempt)) [
        | inl e ↦
            let none_slept : (attempts respond (suc left) attempt).1 ≡ [] = rw (e, attempts) in
            rw none_slept (omega arith)
        | inr (d, e) ↦
            let slept : (attempts respond (suc left) attempt).1
                ≡ d ∷ (attempts respond left (attempt + 1)).1 =
              rw (e, attempts) in
            rw slept (
              omega (
                arith,
                rest,
                pause-le (respond attempt) attempt d e,
                backoff-le attempt (attempt + suc left) (omega arith),
              ))
      ]

  -- However the server answers, the delays of one request add up to at most 30 seconds, or the
  -- longest backoff, for each retry.
  pub request_with_retry-total :
      (max_retries : ℕ)
      → total (λ d. d) (request_with_retry respond max_retries).1
        ≤ max_retries * max max_retry_after (backoff max_retries)
  unfolding request_with_retry
  request_with_retry-total max_retries =
      attempts-total max_retries 0 (max max_retry_after (backoff max_retries))
        (let z : 0 + max_retries ≡ max_retries = omega arith in rw z (omega arith))
