-- ===== src/Indexer/Broadcast/Expression.antt =====
-- The expression that is handed to `logoscore`: nothing in it breaks out of its two literals.
use logos_whistleblower.Common.{
  ℕ, ◌≤◌, ◌<◌, ◌≡◌, ◌≢◌, ◌⊎◌, inl, inr, refl, ◌∙◌, List, [], ◌∷◌, ◌++◌, Bool, true, false, ◌&&◌,
  none, Str, codes, as_bytes, utf8_char, all, ok, err, panicked, arith, Bool-cases, split,
  split-append, split-of_Lacks, Lacks, Lacks-append, All, Outcome-cases,
}
use logos_whistleblower.Common.Effects.{continue-world}
use logos_whistleblower.Indexer.Types.{message, BroadcastPayload, Error, IndexerConfig}
use logos_whistleblower.Indexer.Host.{Crates, Host, IsHexDigit, HexIsLawful}
use logos_whistleblower.Indexer.Upload.{ensure-world}
use logos_whistleblower.Indexer.Broadcast.{
  allowed, topic_is_safe, send_expr, send_args, broadcast_via_logoscore,
}

all-append : (p : ℕ → Bool) (xs ys : List ℕ) → all p (xs ++ ys) ≡ (all p xs && all p ys)
unfolding all
all-append p [] ys = refl
all-append p (x ∷ xs) ys = ground (arith, all-append p xs ys)

-- The two characters that could end a literal, or change where it ends.
Breaks : ℕ → Type 0
Breaks q = (q ≡ b'"') ⊎ (q ≡ 0x5C)

passed-ne : (q c : ℕ) (s : Str) → Breaks q → all allowed (as_bytes (c ∷ s)) ≡ true → c ≢ q
unfolding Breaks all allowed as_bytes
passed-ne q c s b h = λ e. ground arith

tail_allowed :
    (c : ℕ) (s : Str) → all allowed (as_bytes (c ∷ s)) ≡ true → all allowed (as_bytes s) ≡ true
unfolding as_bytes
tail_allowed c s h = ground (arith, all-append allowed (utf8_char c) (as_bytes s))

allowed-Lacks : (q : ℕ) (s : Str) → Breaks q → all allowed (as_bytes s) ≡ true → Lacks q s
allowed-Lacks q [] b h = tt
allowed-Lacks q (c ∷ s) b h = (passed-ne q c s b h, allowed-Lacks q s b (tail_allowed c s h))

topic-Lacks : (q : ℕ) (topic : Str) → Breaks q → topic_is_safe topic ≡ true → Lacks q topic
unfolding topic_is_safe
topic-Lacks q topic b h = allowed-Lacks q topic b (ground arith)

-- What a topic may consist of.
abbrev IsTopicChar : ℕ → Type 0
IsTopicChar c =
    ((b'0' ≤ c) × (c ≤ b'9'))
    ⊎ (((b'A' ≤ c) × (c ≤ b'Z'))
        ⊎ (((b'a' ≤ c) × (c ≤ b'z')) ⊎ ((c ≡ b'/') ⊎ ((c ≡ b'.') ⊎ ((c ≡ b'-') ⊎ (c ≡ b'_'))))))

abbrev pub IsSafe : Str → Type 0
IsSafe topic = (topic ≢ []) × All IsTopicChar topic

hex-Lacks : (q : ℕ) (s : Str) → Breaks q → All IsHexDigit s → Lacks q s
unfolding Breaks
hex-Lacks q [] b _ = tt
hex-Lacks q (c ∷ s) b (h, hs) = ((λ e. ground arith), hex-Lacks q s b hs)

allowed-of_char : (c : ℕ) → IsTopicChar c → (c < 128) × (allowed c ≡ true)
unfolding allowed
allowed-of_char c h = (ground arith, ground arith)

topic_chars_pass : (s : Str) → All IsTopicChar s → all allowed (as_bytes s) ≡ true
unfolding all as_bytes
topic_chars_pass [] _ = refl
topic_chars_pass (c ∷ s) (h, hs) = ground (arith, allowed-of_char c h, topic_chars_pass s hs)

unsafe-of_test : (topic : Str) → topic_is_safe topic ≡ false → ¬ IsSafe topic
unfolding topic_is_safe
unsafe-of_test [] h = λ (p, _). p refl
unsafe-of_test (c ∷ s) h = λ (_, chars). ground (arith, topic_chars_pass (c ∷ s) chars)

quote : Breaks b'"'
unfolding Breaks
quote = inl refl

backslash : Breaks 0x5C
unfolding Breaks
backslash = inr refl

-- No backslash is in the expression if none is in its two literals.
send_expr-Lacks :
    (topic payload : Str)
    → Lacks 0x5C topic
    → Lacks 0x5C payload
    → Lacks 0x5C (send_expr topic payload)
unfolding send_expr
send_expr-Lacks topic payload ht hp = Lacks-append 0x5C (codes "send(\"") _ (omega arith) (
    Lacks-append 0x5C topic _ ht (
      Lacks-append 0x5C (codes "\", \"") _ (omega arith)
        (Lacks-append 0x5C payload (codes "\")") hp (omega arith))))

-- Cut at its quotes, the expression has the topic and the payload as its two literals.
send_expr-literals :
    (topic payload : Str)
    → Lacks b'"' topic
    → Lacks b'"' payload
    → split b'"' (send_expr topic payload)
      ≡ codes "send(" ∷ topic ∷ codes ", " ∷ payload ∷ codes ")" ∷ []
unfolding send_expr
send_expr-literals topic payload ht hp =
    split-append b'"' (codes "send(") _ (omega arith)
    ∙ rw (split-append b'"' topic _ ht) (
        rw (split-append b'"' (codes ", ") (payload ++ codes "\")") (omega arith)) (
          rw (split-append b'"' payload (codes ")") hp)
            (rw (split-of_Lacks b'"' (codes ")") (omega arith)))))

module _ (K : Crates) (H : Host) (config : IndexerConfig) (p : BroadcastPayload) (bin dir : Str)
    (w : H.World) where
  -- The broadcast ran `logoscore` on this expression, and on nothing else.
  abbrev pub RanWith : Str → Type 0
  RanWith expr =
      (broadcast_via_logoscore K H config p bin dir w).1
      ≡ (H.command bin (send_args dir expr) none w).1

  broadcast_unsafe :
      topic_is_safe config.delivery_topic ≡ false
      → (e : Error) × (broadcast_via_logoscore K H config p bin dir w ≡ (err e, w))
  unfolding broadcast_via_logoscore
  broadcast_unsafe bad = (message (codes "delivery_topic must be [A-Za-z0-9._/-]+"), rw bad refl)

  broadcast_safe :
      (json : Str)
      → topic_is_safe config.delivery_topic ≡ true
      → K.payload_to_string p ≡ ok json
      → RanWith (send_expr config.delivery_topic (K.hex (as_bytes json)))
  unfolding broadcast_via_logoscore
  broadcast_safe json safe e =
      rw (safe, e)
        (continue-world (H.command bin (send_args dir expr) none w).0 _
          (H.command bin (send_args dir expr) none w).1 (λ out v. ensure-world out.success _ v))
    where
      expr : Str
      expr = send_expr config.delivery_topic (K.hex (as_bytes json))

  broadcast_unprinted :
      (e : Error)
      → topic_is_safe config.delivery_topic ≡ true
      → K.payload_to_string p ≡ err e
      → broadcast_via_logoscore K H config p bin dir w ≡ (err e, w)
  unfolding broadcast_via_logoscore
  broadcast_unprinted e safe bad = rw (safe, bad) refl

-- Where `hex` prints hexadecimal digits and `serde_json` does not panic, a broadcast through
-- `logoscore` either fails and leaves the world as it was, which it does only where the topic is
-- empty or has a character that is no ASCII letter or digit and none of `/.-_`, or where the
-- envelope does not print, or it leaves the world of one command,
-- whose expression has no backslash and, between its quotes, exactly the topic and the hexadecimal
-- print of the envelope: no topic and no document metadata breaks out of the two literals.
pub broadcast_via_logoscore-literals :
    (K : Crates) (H : Host) (config : IndexerConfig) (p : BroadcastPayload) (bin dir : Str)
    (w : H.World)
    → HexIsLawful K
    → K.payload_to_string p ≢ panicked
    → ((e : Error) × (broadcast_via_logoscore K H config p bin dir w ≡ (err e, w))
        × ((¬ IsSafe config.delivery_topic) ⊎ (K.payload_to_string p ≡ err e)))
      ⊎ ((json : Str) × (expr : Str) × (K.payload_to_string p ≡ ok json)
          × RanWith K H config p bin dir w expr
          × Lacks 0x5C expr
          × (split b'"' expr
              ≡ codes "send("
                ∷ config.delivery_topic
                ∷ codes ", "
                ∷ K.hex (as_bytes json)
                ∷ codes ")"
                ∷ []))
broadcast_via_logoscore-literals K H config p bin dir w hex calm =
    elim (Bool-cases (topic_is_safe config.delivery_topic)) [
      | inr bad ↦
          let (e, refused) = broadcast_unsafe K H config p bin dir w bad in
          inl (e, refused, inl (unsafe-of_test config.delivery_topic bad))
      | inl safe ↦ elim (Outcome-cases (K.payload_to_string p)) [
        | inl (json, e) ↦ inr (
          json,
          send_expr config.delivery_topic (K.hex (as_bytes json)),
          e,
          broadcast_safe K H config p bin dir w json safe e,
          send_expr-Lacks config.delivery_topic (K.hex (as_bytes json))
              (topic-Lacks 0x5C config.delivery_topic backslash safe)
              (hex-Lacks 0x5C _ backslash (hex (as_bytes json))),
          send_expr-literals config.delivery_topic (K.hex (as_bytes json))
              (topic-Lacks b'"' config.delivery_topic quote safe)
              (hex-Lacks b'"' _ quote (hex (as_bytes json))),
        )
        | inr (inl (e, bad)) ↦
            inl (e, broadcast_unprinted K H config p bin dir w e safe bad, inr bad)
        | inr (inr bad) ↦ absurd (calm bad)
      ]
    ]
