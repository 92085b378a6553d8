-- ===== src/Indexer/Upload/Retry.antt =====
-- When the upload is tried again, and what the caller gets.
use logos_whistleblower.Common.{
  ℕ, zero, suc, ◌+◌, ◌*◌, ◌≡◌, ◌≢◌, ◌<◌, refl, sym, ◌∙◌, ap, Str, Bytes, Outcome, ok, err, panicked,
  ◌⊎◌, inl, inr, Outcome-cases, arith,
}
use logos_whistleblower.Common.Effects.{Action}
use logos_whistleblower.Indexer.Types.{Error, IndexerConfig}
use logos_whistleblower.Indexer.Host.{Crates, Host}
use logos_whistleblower.Indexer.Upload.{after_attempt, retry_loop, upload_once, upload_with_retry}

module _ {W : Type 0} (sleep : ℕ → W → W) (upload : Action W Error Str) where
  -- The world in which attempt `n + 1` starts, if `n` attempts fail: after attempt `i` the code
  -- sleeps for `delay * 2 ^ (i - 1)` milliseconds.
  pub before_attempt : ℕ → ℕ → W → W
  before_attempt delay zero w = w
  before_attempt delay (suc n) w = before_attempt (delay * 2) n (sleep delay (upload w).1)

  -- The first `n` attempts fail with an error.
  abbrev pub FirstFail : ℕ → ℕ → W → Type 0
  FirstFail delay zero w = Unit
  FirstFail delay (suc n) w =
      ((e : Error) × ((upload w).0 ≡ err e)) × FirstFail (delay * 2) n (sleep delay (upload w).1)

  -- Attempt `n + 1` of `rounds` ends the loop: it succeeds, or it is the last and fails.
  abbrev pub EndsAt : ℕ → ℕ → Outcome Error Str → Type 0
  EndsAt n rounds r =
      ((cid : Str) × (r ≡ ok cid)) ⊎ ((suc n ≡ rounds) × ((e : Error) × (r ≡ err e)))

  -- How a run of at most `rounds` attempts from `w` ends: attempt `n + 1` gives its result, after
  -- `n` failures; it succeeds, or it is the last attempt and fails.
  abbrev pub Ends : ℕ → ℕ → W → Outcome Error Str × W → Type 0
  Ends rounds delay w result =
      (n : ℕ) × (n < rounds)
      × FirstFail delay n w
      × (result ≡ upload (before_attempt delay n w))
      × EndsAt n rounds result.0

  later_end :
      (n rounds : ℕ) (r s : Outcome Error Str)
      → r ≡ s
      → EndsAt n rounds s
      → EndsAt (suc n) (suc rounds) r
  later_end n rounds r s same (inl (cid, e)) = inl (cid, same ∙ e)
  later_end n rounds r s same (inr (last, (x, e))) = inr (ap suc last, (x, same ∙ e))

  module _ (max_attempts rounds attempt delay : ℕ) (w : W) where
    abbrev loop_here : Outcome Error Str × W
    loop_here = retry_loop sleep upload max_attempts (suc rounds) attempt delay w

    abbrev loop_next : Outcome Error Str × W
    loop_next =
        retry_loop sleep upload max_attempts rounds (attempt + 1) (delay * 2)
          (sleep delay (upload w).1)

    abbrev after : Outcome Error Str → Outcome Error Str × W
    after r =
        after_attempt sleep upload max_attempts attempt delay r (upload w).1
          (retry_loop sleep upload max_attempts rounds (attempt + 1) (delay * 2))

    stops_ok : (cid : Str) → (upload w).0 ≡ ok cid → loop_here ≡ upload w
    unfolding retry_loop
    stops_ok cid e = ap after e ∙ ap (λ r. (r, (upload w).1)) (sym e)

    stops_err : (e : Error) → (upload w).0 ≡ err e → attempt ≡ max_attempts → loop_here ≡ upload w
    unfolding retry_loop
    stops_err x e last = ap after e ∙ (ground arith) ∙ ap (λ r. (r, (upload w).1)) (sym e)

    goes_on : (e : Error) → (upload w).0 ≡ err e → attempt < max_attempts → loop_here ≡ loop_next
    unfolding retry_loop
    goes_on x e more = ap after e ∙ (ground arith)

    Ends-ok : (cid : Str) → (upload w).0 ≡ ok cid → Ends (suc rounds) delay w loop_here
    unfolding before_attempt
    Ends-ok cid e =
        let stop = stops_ok cid e in
        (zero, omega arith, tt, stop, inl (cid, ap (λ (r : Outcome Error Str × W). r.0) stop ∙ e))

  module _ (max_attempts : ℕ) (calm : (w : W) → (upload w).0 ≢ panicked) where
    retry_loop-Ends :
        (rounds attempt delay : ℕ) (w : W)
        → attempt + rounds ≡ max_attempts
        → Ends
            (suc rounds)
            delay
            w
            (retry_loop sleep upload max_attempts (suc rounds) attempt delay w)
    unfolding before_attempt
    retry_loop-Ends zero attempt delay w h = elim (Outcome-cases (upload w).0) [
      | inl (cid, e) ↦ Ends-ok max_attempts zero attempt delay w cid e
      | inr (inl (x, e)) ↦
          let stop = stops_err max_attempts zero attempt delay w x e (omega arith) in
          (
            zero,
            omega arith,
            tt,
            stop,
            inr (refl, (x, ap (λ (r : Outcome Error Str × W). r.0) stop ∙ e)),
          )
      | inr (inr p) ↦ absurd (calm w p)
    ]
    retry_loop-Ends (suc rounds) attempt delay w h = elim (Outcome-cases (upload w).0) [
      | inl (cid, e) ↦ Ends-ok max_attempts (suc rounds) attempt delay w cid e
      | inr (inl (x, e)) ↦
          let on = goes_on max_attempts (suc rounds) attempt delay w x e (omega arith) in
          let (n, lt, fails, stop, how) =
            retry_loop-Ends rounds (attempt + 1) (delay * 2) (sleep delay (upload w).1)
              (omega arith) in
          let same = ap (λ (r : Outcome Error Str × W). r.0) on in
          (suc n, omega arith, ((x, e), fails), on ∙ stop, later_end n (suc rounds) _ _ same how)
      | inr (inr p) ↦ absurd (calm w p)
    ]

-- The upload is tried `max_attempts` times at most: the first attempt that succeeds gives its
-- result, after an error of each attempt before it; if all fail, the error of the last is given.
-- After failure `i` but for the last the code sleeps for `200 * 2 ^ (i - 1)` milliseconds. This
-- supposes at least one attempt, and uploads that do not panic.
pub upload_with_retry-Ends :
    (K : Crates) (H : Host) (config : IndexerConfig) (contents : Bytes) (max_attempts : ℕ)
    (w : H.World)
    → 0 < max_attempts
    → ((v : H.World) → (upload_once K H config contents v).0 ≢ panicked)
    → Ends H.sleep
        (upload_once K H config contents)
        max_attempts
        200
        w
        (upload_with_retry K H config contents max_attempts w)
unfolding upload_with_retry
upload_with_retry-Ends K H config contents zero w h calm = absurd (omega arith)
upload_with_retry-Ends K H config contents (suc rounds) w h calm =
    retry_loop-Ends H.sleep (upload_once K H config contents) (suc rounds) calm rounds 1 200 w
      (omega arith)
