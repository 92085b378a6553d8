-- ===== src/BatchAnchor/Delivery/Source.antt =====
-- The address of the bridge in an `http:` source.
use logos_whistleblower.Common.{
  ℕ, zero, suc, ◌+◌, ◌≤◌, ◌<◌, ◌≡◌, refl, ◌∙◌, ap, ◌++◌, to_string, none, some, [], ◌∷◌, Str,
  length, strip_prefix, arith, Option-cases, inl, inr, codes,
}
use logos_whistleblower.Common.Effects.{pure, continue-world}
use logos_whistleblower.Indexer.Host.{Crates}
use logos_whistleblower.BatchAnchor.Types.{Outside}
use logos_whistleblower.BatchAnchor.Delivery.{
  trim_start_matches, poll_http, poll_delivery, read_messages, messages_of,
}

length-strip_prefix : (p s r : Str) → strip_prefix p s ≡ some r → length p + length r ≡ length s
unfolding strip_prefix
length-strip_prefix [] s r h = ground arith
length-strip_prefix (c ∷ p) [] r h = cc
length-strip_prefix (c ∷ p) (d ∷ s) r h = ground (arith, length-strip_prefix p s r)

-- A text with the prefix `n` times in front of it.
abbrev pub prefixed : Str → ℕ → Str → Str
prefixed p zero url = url
prefixed p (suc n) url = p ++ prefixed p n url

strip_prefix-some : (p s r : Str) → strip_prefix p s ≡ some r → s ≡ p ++ r
unfolding strip_prefix
strip_prefix-some [] s r h = ground arith
strip_prefix-some (c ∷ p) [] r h = cc
strip_prefix-some (c ∷ p) (d ∷ s) r h = ground (arith, strip_prefix-some p s r)

-- What is taken off is the prefix, some number of times.
trim_start_matches-prefixed :
    (p s : Str) (fuel : ℕ) → (n : ℕ) × (s ≡ prefixed p n (trim_start_matches p fuel s))
unfolding trim_start_matches
trim_start_matches-prefixed p s zero = (0, refl)
trim_start_matches-prefixed p s (suc fuel) = elim (Option-cases (strip_prefix p s)) [
  | inl done ↦ (0, rw (done, trim_start_matches) refl)
  | inr (rest, more) ↦
      let (n, e) = trim_start_matches-prefixed p rest fuel in
      (suc n, rw (more, trim_start_matches) (strip_prefix-some p s rest more ∙ ap (λ l. p ++ l) e))
]

strip_prefix-nil : (p : Str) → 0 < length p → strip_prefix p [] ≡ none
unfolding strip_prefix
strip_prefix-nil [] h = absurd (omega arith)
strip_prefix-nil (c ∷ p) h = refl

-- With fuel for every character, what is left does not begin with the prefix.
strip_prefix-trim_start_matches :
    (p s : Str) (fuel : ℕ)
    → 0 < length p
    → length s ≤ fuel
    → strip_prefix p (trim_start_matches p fuel s) ≡ none
unfolding trim_start_matches
strip_prefix-trim_start_matches p [] zero hp hs = strip_prefix-nil p hp
strip_prefix-trim_start_matches p (c ∷ s) zero hp hs = absurd (omega arith)
strip_prefix-trim_start_matches p s (suc fuel) hp hs = elim (Option-cases (strip_prefix p s)) [
  | inl done ↦ rw (done, trim_start_matches) done
  | inr (rest, more) ↦
      rw (more, trim_start_matches)
        (strip_prefix-trim_start_matches p rest fuel hp
          (omega (arith, length-strip_prefix p s rest more)))
]

-- The address of the messages of a topic behind `after`, at most `limit` of them.
abbrev pub asked : Str → Str → ℕ → ℕ → Str
asked url topic after limit =
    url
    ++ (codes "/messages/"
        ++ (topic
            ++ (codes "?after=" ++ (to_string after ++ (codes "&limit=" ++ to_string limit)))))

poll_http-world :
    (K : Crates) (O : Outside) (url topic : Str) (after limit : ℕ) (w : O.World)
    → (poll_http K O url topic after limit w).1 ≡ (O.http_get (asked url topic after limit) w).1
poll_http-world K O url topic after limit w =
    continue-world (O.http_get (asked url topic after limit) w).0
      (λ body. pure (read_messages K (messages_of K body)))
      (O.http_get (asked url topic after limit) w).1 (λ body v. refl)

-- A source that begins with `http:` and not with `file:` is polled by one request of the bridge,
-- whatever the answer, at the path of the topic with the cursor and the limit, on the base address
-- that is the source without all its leading `http:`s.
pub poll_delivery-http :
    (K : Crates) (O : Outside) (source rest topic : Str) (after limit : ℕ) (w : O.World)
    → strip_prefix (codes "file:") source ≡ none
    → strip_prefix (codes "http:") source ≡ some rest
    → (n : ℕ) × (url : Str) × (source ≡ prefixed (codes "http:") n url)
      × (strip_prefix (codes "http:") url ≡ none)
      × ((poll_delivery K O source topic after limit w).1
          ≡ (O.http_get (asked url topic after limit) w).1)
      × (poll_delivery K O source topic after limit w ≡ poll_http K O url topic after limit w)
unfolding poll_delivery
poll_delivery-http K O source rest topic after limit w no_file bridge = (
  (trim_start_matches-prefixed (codes "http:") source (length source)).0,
  trim_start_matches (codes "http:") (length source) source,
  (trim_start_matches-prefixed (codes "http:") source (length source)).1,
  strip_prefix-trim_start_matches (codes "http:") source (length source) (omega arith)
      (omega arith),
  rw (no_file, bridge) (poll_http-world K O _ topic after limit w),
  rw (no_file, bridge) refl,
)
