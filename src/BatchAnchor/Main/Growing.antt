-- ===== src/BatchAnchor/Main/Growing.antt =====
-- A queue file to which messages are appended between the invocations of the tool.
use logos_whistleblower.Common.{
  ℕ, ◌≡◌, refl, sym, ◌∙◌, ap, subst, List, [], ◌∷◌, ◌++◌, append_assoc, All, take, drop, length,
  take-append, drop-append, some, Str, lines, Outcome, ok, arith,
}
use logos_whistleblower.Indexer.Types.{Error}
use logos_whistleblower.Indexer.Host.{Crates, U64IsLawful}
use logos_whistleblower.BatchAnchor.Types.{Sqlite, Outside, Machine, DeliveryMsg, text}
use logos_whistleblower.BatchAnchor.Store.{load_cursor, open_db}
use logos_whistleblower.BatchAnchor.Store.Laws.{IsLawful}
use logos_whistleblower.BatchAnchor.Store.Opening.{OpenIsLawful, open_db-At}
use logos_whistleblower.BatchAnchor.Delivery.Queue.{
  Holds, Rising, pending, pending-advance, pending-pending, Chain-pending, le-advance,
}
use logos_whistleblower.BatchAnchor.Submit.{advance}
use logos_whistleblower.BatchAnchor.Run.Connected.{run-At}
use logos_whistleblower.BatchAnchor.Run.Anchors.{Settled}
use logos_whistleblower.BatchAnchor.Main.{Cli, cfg_of, main}
use logos_whistleblower.BatchAnchor.Main.History.{main-keeps}
use logos_whistleblower.BatchAnchor.Main.Lasting.{
  ReadsFile, Progressed, Progressed-open_db, run-Progressed,
}

-- The messages of a queue file and a database, and what becomes of them: messages are appended whose
-- sequence numbers go on rising, and the tool is invoked while the file stays as it is, in a world of
-- its own, on the database of `file`.
pub data Growth (K : Crates) (S : Sqlite) (file path : Str)
    : List DeliveryMsg → S.Db → List DeliveryMsg → S.Db → Type 1 where
  idle : {ms : List DeliveryMsg} {db : S.Db} → Growth K S file path ms db ms db
  appended :
      {ms ms' : List DeliveryMsg} {db db' : S.Db} (new : List DeliveryMsg)
      → Rising (ms ++ new)
      → Growth K S file path (ms ++ new) db ms' db'
      → Growth K S file path ms db ms' db'
  invoked :
      {ms ms' : List DeliveryMsg} {db db' : S.Db} (O : Outside) (contents : Str) (fuel : ℕ)
      (cli : Cli) (w : O.World) (r : Outcome Error (Unit {0})) (m : Machine S O)
      → ReadsFile file path cli
      → ((v : O.World) → O.read_to_string v path ≡ text contents)
      → Holds K (lines contents) ms
      → main K S O fuel cli (record { db = db; world = w }) ≡ some (r, m)
      → Growth K S file path ms m.db ms' db'
      → Growth K S file path ms db ms' db'

pending-append :
    (after : ℕ) (xs ys : List DeliveryMsg)
    → pending after (xs ++ ys) ≡ pending after xs ++ pending after ys
unfolding pending
pending-append after [] ys = refl
pending-append after (x ∷ xs) ys = ground (arith, pending-append after xs ys)

-- What was appended lies behind the cursor.
pending-grown :
    (start : ℕ) (ms new seen : List DeliveryMsg)
    → Rising (ms ++ new)
    → pending start ms ≡ seen ++ pending (advance start seen) ms
    → pending start (ms ++ new) ≡ seen ++ pending (advance start seen) (ms ++ new)
pending-grown start ms new seen rising split =
    let c = advance start seen in
    let rest = pending c ms ++ pending start new in
    let all : pending start (ms ++ new) ≡ seen ++ rest =
      pending-append start ms new
      ∙ ap (λ l. l ++ pending start new) split
      ∙ append_assoc seen (pending c ms) (pending start new) in
    let behind : pending c (ms ++ new) ≡ rest =
      sym (pending-pending start c (ms ++ new) (le-advance start seen))
      ∙ ap (λ l. pending (advance start l) (pending start (ms ++ new)))
          (sym (ap (take (length seen)) all ∙ take-append seen rest))
      ∙ pending-advance (length seen) start (pending start (ms ++ new))
          (Chain-pending start (ms ++ new) rising)
      ∙ ap (drop (length seen)) all
      ∙ drop-append seen rest in
    all ∙ ap (λ l. seen ++ l) (sym behind)

-- Where SQLite keeps its laws and sequence numbers are `u64`s, for a queue file whose messages have
-- rising sequence numbers and to which more are appended between the invocations: after any
-- invocations of the tool on the database of one file, each of which ends, with success or not, reads
-- that queue file and is no dry run, the messages behind the cursor before them are some whose CIDs are all anchored or do not decode,
-- followed by exactly those behind the cursor after them, which is the cursor before them advanced over
-- the former. So no message is lost, whenever a run was stopped.
pub Growth-Progressed :
    (K : Crates) (S : Sqlite) (file path : Str) (ms ms' : List DeliveryMsg) (db db' : S.Db)
    (start : ℕ) (opening : OpenIsLawful S file)
    → IsLawful S
    → U64IsLawful K
    → opening.At db
    → Rising ms
    → load_cursor S db ≡ ok start
    → Growth K S file path ms db ms' db'
    → (c : ℕ) × (seen : List DeliveryMsg) × (load_cursor S db' ≡ ok c)
      × (c ≡ advance start seen)
      × (pending start ms' ≡ seen ++ pending c ms')
      × All (Settled K S db') seen
unfolding advance
Growth-Progressed K S file path ms ms' db db' start opening L u64 at rising loaded growth =
    (go growth rising (at, (start, [], loaded, refl, refl, tt))).1
  where
    Kept : List DeliveryMsg → S.Db → Type 0
    Kept ns d = opening.At d × Progressed K S ns start d

    go :
        {ns ns' : List DeliveryMsg} {d d' : S.Db}
        → Growth K S file path ns d ns' d'
        → Rising ns
        → Kept ns d
        → Kept ns' d'
    go idle up p = p
    go {ns} (appended new up' rest) up (here, (c, seen, at', reached, split, settled)) =
        go rest up' (
          here,
          (
            c,
            seen,
            at',
            reached,
            subst (λ a. pending start (ns ++ new) ≡ seen ++ pending a (ns ++ new)) (sym reached)
                (pending-grown start ns new seen up'
                  (subst (λ a. pending start ns ≡ seen ++ pending a ns) reached split)),
            settled,
          ),
        )
    go {ns} (invoked O contents fuel cli w r m reads still holds h rest) up p = go rest up (
        main-keeps K S O (ReadsFile file path) (Kept ns)
          (λ cli' (uses, _, _) d (here, q).
            subst (λ f. Kept ns (open_db S f d).1) (sym uses)
              (
                open_db-At S file opening d here,
                Progressed-open_db K S ns start file opening d here q,
              ))
          (λ cli' (_, source, real) args fuel' v v' r' (here, q) e ran. (
            run-At K S O (cfg_of cli') args file opening fuel' v v' r' here ran,
            run-Progressed K S ns start O cli' args path contents fuel' v v' r' L u64 (real args e)
                source still holds up q ran,
          ))
          fuel cli _ m r reads p h)
