-- ===== src/BatchAnchor/Delivery/Drain.antt =====
-- Polls of a queue file, one after another, until there is nothing left.
use logos_whistleblower.Common.{
  ℕ, zero, suc, ◌≤◌, ◌≡◌, refl, sym, ap, List, [], ◌∷◌, ◌++◌, Str, lines, length, length-append,
  Outcome, ok, ◌>>=◌, arith,
}
use logos_whistleblower.Indexer.Types.{Error}
use logos_whistleblower.Indexer.Host.{Crates}
use logos_whistleblower.BatchAnchor.Types.{DeliveryMsg}
use logos_whistleblower.BatchAnchor.Delivery.{poll_file}
use logos_whistleblower.BatchAnchor.Delivery.Queue.{Holds, Rising, pending, poll_file-pending}
use logos_whistleblower.BatchAnchor.Submit.{advance}

-- What `n` polls give, each from the cursor that the poll before it advanced.
pub polls : (K : Crates) → ℕ → Str → ℕ → ℕ → Outcome Error (List DeliveryMsg)
polls K limit contents zero after = ok []
polls K limit contents (suc n) after = poll_file K after limit contents >>= λ batch.
    polls K limit contents n (advance after batch) >>= λ rest. ok (batch ++ rest)

pub length-nil {ℓ} : {A : Type ℓ} (xs : List A) → length xs ≤ 0 → xs ≡ []
length-nil [] h = refl
length-nil (x ∷ xs) h = absurd (omega arith)

-- In a queue file whose lines hold messages with rising sequence numbers, as many polls as there
-- are messages behind the cursor give all of them, each once and in order, whatever the limit is.
pub polls-pending :
    (K : Crates) (limit n after : ℕ) (contents : Str) (ms : List DeliveryMsg)
    → Holds K (lines contents) ms
    → Rising ms
    → length (pending after ms) ≤ n
    → polls K limit contents n after ≡ ok (pending after ms)
unfolding polls
polls-pending K limit zero after contents ms holds rising h =
    ap ok (sym (length-nil (pending after ms) h))
polls-pending K limit (suc n) after contents ms holds rising h =
    let (batch, read, split, size) = poll_file-pending K after limit contents ms holds rising in
    let rest = pending (advance after batch) ms in
    let shorter : length rest ≤ n =
      omega (arith, ap length split, length-append batch rest, size) in
    rw read (
      rw (polls-pending K limit n (advance after batch) contents ms holds rising shorter)
        (ap ok (sym split)))
