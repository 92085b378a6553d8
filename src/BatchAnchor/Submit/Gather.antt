-- ===== src/BatchAnchor/Submit/Gather.antt =====
-- Which messages become entries of a batch.
use logos_whistleblower.Common.{
  ◌≤◌, ◌≡◌, refl, ap, subst, ◌∙◌, ◌⊎◌, inl, inr, List, [], ◌∷◌, map, Bool, true, false, Option,
  none, some, Str, Bytes, length, All, contains, bytes_eq_refl, if◌then◌else◌, Outcome, ok, err,
  panicked, ok-injective, >>=-eq-ok, arith, ◌>>=◌ as ◌>>?◌,
}
use logos_whistleblower.Indexer.Types.{Error, BroadcastPayload}
use logos_whistleblower.Indexer.Host.{Crates}
use logos_whistleblower.Indexer.Cid.{decode_cid}
use logos_whistleblower.BatchAnchor.Types.{Sqlite, DeliveryMsg}
use logos_whistleblower.BatchAnchor.Store.{is_anchored}
use logos_whistleblower.BatchAnchor.Submit.{
  BatchEntry, onto, entry_from, metadata_hash_from_payload, gather,
}

abbrev pub cid_texts : List BatchEntry → List Str
cid_texts = map (λ e. e.cid_text)

module _ (K : Crates) (S : Sqlite) (db : S.Db) where
  -- An entry whose CID was not anchored, with the bytes that its text stands for.
  pub record IsFresh (e : BatchEntry) : Type 0 where
    pub absent : is_anchored S db e.cid_text ≡ ok false
    pub decoded : decode_cid K e.cid_text ≡ ok e.cid

  -- What becomes of a message: its CID is anchored already, or does not decode, or is submitted.
  abbrev pub Covered : List BatchEntry → DeliveryMsg → Type 0
  Covered entries m =
      (is_anchored S db m.payload.cid ≡ ok true)
      ⊎ ((e : Error) × (decode_cid K m.payload.cid ≡ err e))
      ⊎ (contains (cid_texts entries) m.payload.cid ≡ true)

  Covered-cons :
      (e : BatchEntry) (entries : List BatchEntry) (m : DeliveryMsg)
      → Covered entries m
      → Covered (e ∷ entries) m
  unfolding contains
  Covered-cons e entries m (inl old) = inl old
  Covered-cons e entries m (inr (inl bad)) = inr (inl bad)
  Covered-cons e entries m (inr (inr listed)) = inr (inr (ground arith))

  All-Covered-cons :
      (e : BatchEntry) (entries : List BatchEntry) (ms : List DeliveryMsg)
      → All (Covered entries) ms
      → All (Covered (e ∷ entries)) ms
  All-Covered-cons e entries [] _ = tt
  All-Covered-cons e entries (m ∷ ms) (h, hs) =
      (Covered-cons e entries m h, All-Covered-cons e entries ms hs)

  -- The entries and the messages that a list of entries answers.
  abbrev pub Answers : List DeliveryMsg → List BatchEntry → Type 0
  Answers ms entries = All IsFresh entries × All (Covered entries) ms × (length entries ≤ length ms)

  -- What the choice of an entry tells.
  abbrev Chosen : BroadcastPayload → Outcome Error Bytes → Option BatchEntry → Type 0
  Chosen payload r none = (e : Error) × (r ≡ err e)
  Chosen payload r (some e) = (e.cid_text ≡ payload.cid) × (r ≡ ok e.cid)

  entry_from-Chosen :
      (payload : BroadcastPayload) (r : Outcome Error Bytes) (entry : Option BatchEntry)
      → entry_from K payload r ≡ ok entry
      → Chosen payload r entry
  entry_from-Chosen payload (ok c) none h =
      cc (>>=-eq-ok (metadata_hash_from_payload K payload) _ h).2
  entry_from-Chosen payload (ok c) (some e) h =
      let (_, _, p) = >>=-eq-ok (metadata_hash_from_payload K payload) _ h in (cc p, cc p)
  entry_from-Chosen payload (err x) none h = (x, refl)
  entry_from-Chosen payload (err x) (some e) h = cc
  entry_from-Chosen payload panicked entry h = cc

  -- An entry for the first message, in front of the entries for the others.
  Answers-onto :
      (m : DeliveryMsg) (ms : List DeliveryMsg) (entries : List BatchEntry)
      (entry : Option BatchEntry)
      → is_anchored S db m.payload.cid ≡ ok false
      → Chosen m.payload (decode_cid K m.payload.cid) entry
      → Answers ms entries
      → Answers (m ∷ ms) (onto entry entries)
  Answers-onto m ms entries none fresh bad (fs, cs, small) = (fs, (inr (inl bad), cs), omega arith)
  Answers-onto m ms entries (some e) fresh (same, d) (fs, cs, small) = (
    (
      record { absent = ap (is_anchored S db) same ∙ fresh; decoded = ap (decode_cid K) same ∙ d },
      fs,
    ),
    (
      inr (inr (unfold contains in ground (arith, same, bytes_eq_refl m.payload.cid))),
      All-Covered-cons e entries ms cs,
    ),
    omega arith,
  )

  -- One round of the loop, given what the later rounds answer.
  Answers-round :
      (m : DeliveryMsg) (ms : List DeliveryMsg) (rest : Outcome Error (List BatchEntry))
      (known : Bool) (entries : List BatchEntry)
      → is_anchored S db m.payload.cid ≡ ok known
      → ((es : List BatchEntry) → rest ≡ ok es → Answers ms es)
      → (if known
          then rest
          else entry_from K m.payload (decode_cid K m.payload.cid) >>? λ entry.
              rest >>? λ es. ok (onto entry es))
        ≡ ok entries
      → Answers (m ∷ ms) entries
  Answers-round m ms rest true entries k later h =
      let (fs, cs, small) = later entries h in (fs, (inl k, cs), omega arith)
  Answers-round m ms rest false entries k later h =
      let (entry, e, h') = >>=-eq-ok (entry_from K m.payload (decode_cid K m.payload.cid)) _ h in
      let (es, g, p) = >>=-eq-ok rest _ h' in
      subst (Answers (m ∷ ms)) (ok-injective p)
        (Answers-onto m ms es entry k (entry_from-Chosen m.payload _ entry e) (later es g))

  -- The entries of a batch are exactly what there is to submit: every entry has a CID that was not
  -- anchored and that decodes to the bytes of the entry, there are at most as many entries as
  -- messages, and every message has its CID among the entries unless that was anchored already or
  -- does not decode.
  pub gather-Answers :
      (ms : List DeliveryMsg) (entries : List BatchEntry)
      → gather K S db ms ≡ ok entries
      → Answers ms entries
  unfolding gather
  gather-Answers [] entries h = rw (← ok-injective h) (tt, tt, omega arith)
  gather-Answers (m ∷ ms) entries h =
      let (known, k, h') = >>=-eq-ok (is_anchored S db m.payload.cid) _ h in
      Answers-round m ms (gather K S db ms) known entries k (gather-Answers ms) h'
