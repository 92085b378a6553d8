-- ===== src/BatchAnchor/Delivery/Bounds.antt =====
-- What every poll of a queue file keeps to, whatever the file holds.
use logos_whistleblower.Common.{
  ℕ, suc, ◌-◌, ◌≤◌, ◌<◌, max, ◌≡◌, refl, subst, List, [], ◌∷◌, codes, Option, none, some, Str,
  as_bytes, lines, trim, length, All, leb, if◌then◌else◌, u64_mod, Outcome, ok, ◌>>=◌, arith,
  Bool-cases, Outcome-cases, inl, inr, >>=-eq-ok, ok-injective,
}
use logos_whistleblower.Common.Effects.{pure, >>=-result}
use logos_whistleblower.Indexer.Types.{Error, unwrap_or}
use logos_whistleblower.Indexer.Host.{Crates, U64IsLawful}
use logos_whistleblower.BatchAnchor.Types.{
  DeliveryMsg, Outside, FileText, text, not_found, io_error,
}
use logos_whistleblower.BatchAnchor.Delivery.{
  from_text, messages_of, poll_by, seq_of, payload_of, with_context, read_lines, read_messages,
  poll_delivery, keep, poll_file, insert_by_seq, sort_by_seq,
}

unwrap_or-lt : (o : Option ℕ) → ((n : ℕ) → o ≡ some n → n < u64_mod) → unwrap_or o 0 < u64_mod
unwrap_or-lt none h = omega arith
unwrap_or-lt (some n) h = h n refl

abbrev pub AllFit : List DeliveryMsg → Type 0
AllFit = All (λ m. m.seq < u64_mod)

module _ (K : Crates) (u64 : U64IsLawful K) where
  pub seq_of-lt : (v : K.Json) → seq_of K v < u64_mod
  seq_of-lt v = unwrap_or-lt (K.as_u64 (K.get v (codes "seq"))) (u64 (K.get v (codes "seq")))

  read_messages-AllFit : (vs : List K.Json) → AllFit (read_messages K vs)
  unfolding read_messages
  read_messages-AllFit [] = tt
  read_messages-AllFit (v ∷ vs) = elim (Outcome-cases (payload_of K v)) [
    | inl (p, e) ↦ rw (e, read_messages) (seq_of-lt v, read_messages-AllFit vs)
    | inr (inl (x, e)) ↦ rw (e, read_messages) (read_messages-AllFit vs)
    | inr (inr e) ↦ rw (e, read_messages) (read_messages-AllFit vs)
  ]

module _ (K : Crates) (u64 : U64IsLawful K) (after limit : ℕ) where
  -- A message behind the cursor.
  pub record IsAhead (m : DeliveryMsg) : Type 0 where
    pub above : after < m.seq
    pub fits : m.seq < u64_mod

  abbrev Good : ℕ → List DeliveryMsg → Type 0
  Good room out = All IsAhead out × (length out ≤ max 1 room)

  keep-Good :
      (kept : ℕ) (m : DeliveryMsg) (rest : Outcome Error (List DeliveryMsg))
      (out : List DeliveryMsg)
      → IsAhead m
      → ((later : List DeliveryMsg) → rest ≡ ok later → Good (limit - suc kept) later)
      → keep K limit kept m.payload m.seq rest ≡ ok out
      → Good (limit - kept) out
  keep-Good kept m rest out ahead later h = elim (Bool-cases (leb limit (suc kept))) [
    | inl full ↦
        subst (Good (limit - kept)) (ok-injective (rw full at h)) ((ahead, tt), omega arith)
    | inr room ↦
        let (more, e, p) = >>=-eq-ok rest _ (rw room at h) in
        let (all, small) = later more e in
        subst (Good (limit - kept)) (ok-injective p) ((ahead, all), ground arith)
  ]

  -- One line, given what the lines behind it give.
  line-Good :
      (kept : ℕ) (trimmed : Str) (skip rest : Outcome Error (List DeliveryMsg))
      (out : List DeliveryMsg)
      → ((later : List DeliveryMsg) → skip ≡ ok later → Good (limit - kept) later)
      → ((later : List DeliveryMsg) → rest ≡ ok later → Good (limit - suc kept) later)
      → elim trimmed [
        | [] ↦ skip
        | c ∷ cs ↦
            with_context (codes "malformed delivery line") (K.from_slice (as_bytes (c ∷ cs)))
            >>= λ v.
                if leb (seq_of K v) after
                then skip
                else with_context (codes "malformed envelope payload") (payload_of K v)
                  >>= λ payload. keep K limit kept payload (seq_of K v) rest
      ]
        ≡ ok out
      → Good (limit - kept) out
  line-Good kept [] skip rest out hs hr h = hs out h
  line-Good kept (c ∷ cs) skip rest out hs hr h =
      let (v, _, h') =
        >>=-eq-ok
          (with_context (codes "malformed delivery line") (K.from_slice (as_bytes (c ∷ cs)))) _ h in
      elim (Bool-cases (leb (seq_of K v) after)) [
        | inl old ↦ hs out (rw old at h')
        | inr new ↦
            let (payload, _, h'') =
              >>=-eq-ok (with_context (codes "malformed envelope payload") (payload_of K v)) _
                (rw new at h') in
            keep-Good kept (record { seq = seq_of K v; payload = payload }) rest out
              (record { above = ground arith; fits = seq_of-lt K u64 v }) hr h''
      ]

  read_lines-Good :
      (kept : ℕ) (ls : List Str) (out : List DeliveryMsg)
      → read_lines K after limit kept ls ≡ ok out
      → Good (limit - kept) out
  unfolding read_lines
  read_lines-Good kept [] out h = subst (Good (limit - kept)) (ok-injective h) (tt, omega arith)
  read_lines-Good kept (line ∷ more) out h =
      line-Good kept (trim line) (read_lines K after limit kept more)
        (read_lines K after limit (suc kept) more) out (read_lines-Good kept more)
        (read_lines-Good (suc kept) more) h

  insert-IsAhead :
      (m : DeliveryMsg) (ms : List DeliveryMsg)
      → IsAhead m
      → All IsAhead ms
      → All IsAhead (insert_by_seq m ms)
  unfolding insert_by_seq
  insert-IsAhead m [] h _ = (h, tt)
  insert-IsAhead m (x ∷ xs) h (hx, hs) = elim (Bool-cases (leb m.seq x.seq)) [
    | inl first ↦ rw first (h, (hx, hs))
    | inr behind ↦ rw behind (hx, insert-IsAhead m xs h hs)
  ]

  length-insert :
      (m : DeliveryMsg) (ms : List DeliveryMsg) → length (insert_by_seq m ms) ≡ suc (length ms)
  unfolding insert_by_seq
  length-insert m [] = refl
  length-insert m (x ∷ xs) = ground (arith, length-insert m xs)

  sort-IsAhead : (ms : List DeliveryMsg) → All IsAhead ms → All IsAhead (sort_by_seq ms)
  unfolding sort_by_seq
  sort-IsAhead [] _ = tt
  sort-IsAhead (m ∷ ms) (h, hs) = insert-IsAhead m (sort_by_seq ms) h (sort-IsAhead ms hs)

  length-sort : (ms : List DeliveryMsg) → length (sort_by_seq ms) ≡ length ms
  unfolding sort_by_seq
  length-sort [] = refl
  length-sort (m ∷ ms) = omega (arith, length-insert m (sort_by_seq ms), length-sort ms)

  -- Where `as_u64` gives a `u64`: whatever the file holds, a poll that succeeds gives only messages
  -- behind the cursor, with sequence numbers that fit a `u64`, and at most `limit` of them (one, if
  -- `limit` is 0).
  pub poll_file-IsAhead :
      (contents : Str) (out : List DeliveryMsg)
      → poll_file K after limit contents ≡ ok out
      → All IsAhead out × (length out ≤ max 1 limit)
  unfolding poll_file
  poll_file-IsAhead contents out h =
      let (read, e, p) = >>=-eq-ok (read_lines K after limit 0 (lines contents)) _ h in
      let good = read_lines-Good 0 (lines contents) read e in
      subst (λ o. All IsAhead o × (length o ≤ max 1 limit)) (ok-injective p)
        (sort-IsAhead read good.0, omega (arith, length-sort read, good.1))

  AllFit-of_IsAhead : (ms : List DeliveryMsg) → All IsAhead ms → AllFit ms
  AllFit-of_IsAhead [] _ = tt
  AllFit-of_IsAhead (m ∷ ms) (h, hs) = (h.fits, AllFit-of_IsAhead ms hs)

  from_text-AllFit :
      (O : Outside) (f : FileText) (out : List DeliveryMsg)
      → from_text K O after limit f ≡ ok out
      → AllFit out
  from_text-AllFit O (text contents) out h =
      AllFit-of_IsAhead out (poll_file-IsAhead contents out h).0
  from_text-AllFit O not_found out h = subst AllFit (ok-injective h) tt
  from_text-AllFit O (io_error e) out h = cc

  poll_by-AllFit :
      (O : Outside) (source topic : Str) (file bridge : Option Str) (w : O.World)
      (out : List DeliveryMsg)
      → (poll_by K O source topic after limit file bridge w).0 ≡ ok out
      → AllFit out
  poll_by-AllFit O source topic (some path) bridge w out h =
      from_text-AllFit O (O.read_to_string w path) out h
  poll_by-AllFit O source topic none (some _) w out h =
      let (body, _, p) =
        >>=-result (O.http_get _) (λ body. pure (read_messages K (messages_of K body))) w h in
      subst AllFit (ok-injective p) (read_messages-AllFit K u64 (messages_of K body))
  poll_by-AllFit O source topic none none w out h = cc

  -- The sequence numbers that any source gives fit a `u64`.
  pub poll_delivery-AllFit :
      (O : Outside) (source topic : Str) (w : O.World) (out : List DeliveryMsg)
      → (poll_delivery K O source topic after limit w).0 ≡ ok out
      → AllFit out
  unfolding poll_delivery
  poll_delivery-AllFit O source topic w out h = poll_by-AllFit O source topic _ _ w out h
