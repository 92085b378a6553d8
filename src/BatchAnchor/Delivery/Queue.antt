-- ===== src/BatchAnchor/Delivery/Queue.antt =====
-- What polls of a queue file give, one after another.
use logos_whistleblower.Common.{
  ℕ, zero, suc, ◌-◌, ◌≤◌, ◌<◌, max, min, ◌≡◌, refl, sym, ◌∙◌, ap, List, [], ◌∷◌, ◌++◌, true, false,
  Str, as_bytes, lines, trim, length, take, drop, leb, if◌then◌else◌, Outcome, ok, arith,
  Bool-cases, inl, inr, length-take,
}
use logos_whistleblower.Indexer.Types.{Error}
use logos_whistleblower.Indexer.Host.{Crates}
use logos_whistleblower.BatchAnchor.Types.{DeliveryMsg}
use logos_whistleblower.BatchAnchor.Delivery.{
  seq_of, payload_of, read_lines, keep, poll_file, insert_by_seq, sort_by_seq,
}
use logos_whistleblower.BatchAnchor.Submit.{advance}

le→leb : (a b : ℕ) → a ≤ b → leb a b ≡ true
le→leb a b h = ground arith

lt→leb-false : (a b : ℕ) → b < a → leb a b ≡ false
lt→leb-false a b h = ground arith

-- The lines of a file that is well-formed, with the messages that they hold.
pub data Holds (K : Crates) : List Str → List DeliveryMsg → Type 0 where
  no_lines : Holds K [] []
  blank_line :
      {line : Str} {more : List Str} {ms : List DeliveryMsg}
      → trim line ≡ []
      → Holds K more ms
      → Holds K (line ∷ more) ms
  full_line :
      {line : Str} {more : List Str} {m : DeliveryMsg} {ms : List DeliveryMsg} (c : ℕ) (cs : Str)
      (v : K.Json)
      → trim line ≡ c ∷ cs
      → K.from_slice (as_bytes (c ∷ cs)) ≡ ok v
      → seq_of K v ≡ m.seq
      → payload_of K v ≡ ok m.payload
      → Holds K more ms
      → Holds K (line ∷ more) (m ∷ ms)

-- The messages behind the cursor.
unfoldable pub pending : ℕ → List DeliveryMsg → List DeliveryMsg
pending after [] = []
pending after (m ∷ ms) = let rest = pending after ms in if leb m.seq after then rest else m ∷ rest

module _ (K : Crates) (after limit : ℕ) where
  -- A line that is kept, when the limit leaves room for `k` more.
  keep-take :
      (k kept : ℕ) (m : DeliveryMsg) (ms : List DeliveryMsg)
      (rest : Outcome Error (List DeliveryMsg))
      → max 1 (limit - kept) ≡ suc k
      → ((j : ℕ) → k ≡ suc j → rest ≡ ok (take (suc j) ms))
      → keep K limit kept m.payload m.seq rest ≡ ok (m ∷ take k ms)
  keep-take zero kept m ms rest e _ = rw (le→leb limit (suc kept) (omega arith))
  keep-take (suc k) kept m ms rest e later =
      rw (lt→leb-false limit (suc kept) (omega arith), later k refl)

  read_lines-take :
      (k kept : ℕ) {ls : List Str} {ms : List DeliveryMsg}
      → Holds K ls ms
      → max 1 (limit - kept) ≡ suc k
      → read_lines K after limit kept ls ≡ ok (take (suc k) (pending after ms))
  unfolding read_lines pending
  read_lines-take k kept no_lines e = refl
  read_lines-take k kept (blank_line t h) e = rw (t, read_lines) (read_lines-take k kept h e)
  read_lines-take k kept {ms = m ∷ ms} (full_line {more = more} c cs v t j s p h) e =
      rw (t, read_lines)
        (rw j (
          rw s (elim (Bool-cases (leb m.seq after)) [
            | inl old ↦ rw old (read_lines-take k kept h e)
            | inr new ↦ rw new (
                rw p (
                  keep-take k kept m (pending after ms) (read_lines K after limit (suc kept) more) e
                    (λ i q. read_lines-take i (suc kept) h (omega arith))))
          ])))

-- Sequence numbers that rise, the first above `a`.
abbrev pub Chain : ℕ → List DeliveryMsg → Type 0
Chain a [] = Unit
Chain a (m ∷ ms) = (a < m.seq) × Chain m.seq ms

abbrev pub Rising : List DeliveryMsg → Type 0
Rising [] = Unit
Rising (m ∷ ms) = Chain m.seq ms

Chain-Rising : (a : ℕ) (ms : List DeliveryMsg) → Chain a ms → Rising ms
Chain-Rising a [] h = tt
Chain-Rising a (m ∷ ms) h = h.1

Chain-take : (n a : ℕ) (ms : List DeliveryMsg) → Chain a ms → Chain a (take n ms)
Chain-take zero a ms h = tt
Chain-take (suc n) a [] h = tt
Chain-take (suc n) a (m ∷ ms) h = (h.0, Chain-take n m.seq ms h.1)

pending_of_Chain :
    (after a : ℕ) (ms : List DeliveryMsg) → after ≤ a → Chain a ms → pending after ms ≡ ms
unfolding pending
pending_of_Chain after a [] le h = refl
pending_of_Chain after a (m ∷ ms) le (lt, h) =
    ground (arith, pending_of_Chain after m.seq ms (omega arith) h)

pub Chain-pending : (after : ℕ) (ms : List DeliveryMsg) → Rising ms → Chain after (pending after ms)
unfolding pending
Chain-pending after [] h = tt
Chain-pending after (m ∷ ms) h = elim (Bool-cases (leb m.seq after)) [
  | inl old ↦ rw old (Chain-pending after ms (Chain-Rising m.seq ms h))
  | inr new ↦ rw new (rw (pending_of_Chain after m.seq ms (ground arith) h) ((ground arith), h))
]

pub advance-append :
    (a : ℕ) (xs ys : List DeliveryMsg) → advance a (xs ++ ys) ≡ advance (advance a xs) ys
unfolding advance
advance-append a [] ys = refl
advance-append a (x ∷ xs) ys = advance-append (max a x.seq) xs ys

pub le-advance : (a : ℕ) (ms : List DeliveryMsg) → a ≤ advance a ms
unfolding advance
le-advance a [] = omega arith
le-advance a (m ∷ ms) = omega (arith, le-advance (max a m.seq) ms)

pub pending-advance :
    (n a : ℕ) (ms : List DeliveryMsg) → Chain a ms → pending (advance a (take n ms)) ms ≡ drop n ms
unfolding pending advance
pending-advance zero a ms h = pending_of_Chain a a ms (omega arith) h
pending-advance (suc n) a [] h = refl
pending-advance (suc n) a (m ∷ ms) (lt, h) =
    let last : max a m.seq ≡ m.seq = omega arith in
    ap (λ c. pending (advance c (take n ms)) (m ∷ ms)) last
    ∙ ground (arith, le-advance m.seq (take n ms), pending-advance n m.seq ms h)

pub pending-pending :
    (a b : ℕ) (ms : List DeliveryMsg) → a ≤ b → pending b (pending a ms) ≡ pending b ms
unfolding pending
pending-pending a b [] le = refl
pending-pending a b (m ∷ ms) le = ground (arith, pending-pending a b ms le)

sort_by_seq_of_Chain : (a : ℕ) (ms : List DeliveryMsg) → Chain a ms → sort_by_seq ms ≡ ms
unfolding sort_by_seq
sort_by_seq_of_Chain a [] h = refl
sort_by_seq_of_Chain a (m ∷ ms) (lt, h) = rw (sort_by_seq_of_Chain m.seq ms h) (in_front m ms h)
  where
    in_front :
        (x : DeliveryMsg) (xs : List DeliveryMsg) → Chain x.seq xs → insert_by_seq x xs ≡ x ∷ xs
    in_front x [] _ = refl
    in_front x (y ∷ ys) (less, _) = rw (le→leb x.seq y.seq (omega arith))

take-drop {ℓ} : {A : Type ℓ} (n : ℕ) (xs : List A) → xs ≡ take n xs ++ drop n xs
take-drop zero xs = refl
take-drop (suc n) [] = refl
take-drop (suc n) (x ∷ xs) = ap (λ l. x ∷ l) (take-drop n xs)

-- In a queue file whose lines hold messages with rising sequence numbers, a poll succeeds and gives
-- the first messages behind the cursor: `limit` of them (one, if `limit` is 0), or all if there are
-- fewer. What lies behind the cursor that is advanced over them is exactly the rest:
-- a later poll loses no message and gives none again.
pub poll_file-pending :
    (K : Crates) (after limit : ℕ) (contents : Str) (ms : List DeliveryMsg)
    → Holds K (lines contents) ms
    → Rising ms
    → (batch : List DeliveryMsg) × (poll_file K after limit contents ≡ ok batch)
      × (pending after ms ≡ batch ++ pending (advance after batch) ms)
      × (length batch ≡ min (max 1 limit) (length (pending after ms)))
unfolding poll_file
poll_file-pending K after limit contents ms h r =
    let k = max 1 limit - 1 in
    let ahead = pending after ms in
    let batch = take (suc k) ahead in
    let chain = Chain-pending after ms r in
    (
      batch,
      rw (read_lines-take K after limit k 0 h (omega arith))
          (ap ok (sort_by_seq_of_Chain after batch (Chain-take (suc k) after ahead chain))),
      take-drop (suc k) ahead
          ∙ ap (λ l. batch ++ l)
              (sym (pending-advance (suc k) after ahead chain)
                ∙ pending-pending after (advance after batch) ms (le-advance after batch)),
      omega (arith, length-take (suc k) ahead),
    )
