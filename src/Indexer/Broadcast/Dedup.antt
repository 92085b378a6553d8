-- ===== src/Indexer/Broadcast/Dedup.antt =====
-- Repeated and failed broadcasts.
use logos_whistleblower.Common.{
  ◌≡◌, sym, ◌∙◌, ap, List, [], ◌∷◌, true, false, Str, contains, remove, remove_of_absent,
  bytes_eq_refl, Distinct, Outcome, ok, err, panicked, arith, Bool-cases, inl, inr,
}
use logos_whistleblower.Common.Effects.{Action}
use logos_whistleblower.Indexer.Types.{BroadcastPayload, Error}
use logos_whistleblower.Indexer.Broadcast.{Session, settle, broadcast_with}

-- A failed claim is undone.
settle_err :
    (cid : Str) (e : Error) (seen : List Str)
    → contains seen cid ≡ false
    → settle cid (err e) (cid ∷ seen) ≡ seen
unfolding settle remove
settle_err cid e seen fresh = rw (bytes_eq_refl cid) (remove_of_absent seen cid fresh)

module _ {W : Type 0} (send : BroadcastPayload → Action W Error (Unit {0}))
    (p : BroadcastPayload) where
  -- What a broadcast does with a CID that is in the set, and with one that is not.
  pub broadcast_known :
      (s : Session W) → contains s.broadcasted p.cid ≡ true → broadcast_with send p s ≡ (ok tt, s)
  unfolding broadcast_with
  broadcast_known s known = rw (known, broadcast_with)

  pub broadcast_fresh :
      (s : Session W)
      → contains s.broadcasted p.cid ≡ false
      → broadcast_with send p s ≡ (
        (send p s.world).0,
        record {
          world = (send p s.world).1;
          broadcasted = settle p.cid (send p s.world).0 (p.cid ∷ s.broadcasted);
        },
      )
  unfolding broadcast_with
  broadcast_fresh s fresh = rw (fresh, broadcast_with)

  -- The CID of a broadcast that succeeds is in the set then.
  pub broadcast_ok :
      (s s' : Session W)
      → broadcast_with send p s ≡ (ok tt, s')
      → contains s'.broadcasted p.cid ≡ true
  broadcast_ok s s' h = elim (Bool-cases (contains s.broadcasted p.cid)) [
    | inl known ↦
        let same : s' ≡ s =
          ap (λ (r : Outcome Error (Unit {0}) × Session W). r.1)
            (sym h ∙ broadcast_known s known) in
        rw same known
    | inr fresh ↦
        let after = sym h ∙ broadcast_fresh s fresh in
        let sent = ap (λ (r : Outcome Error (Unit {0}) × Session W). r.0) after in
        let set = ap (λ (r : Outcome Error (Unit {0}) × Session W). r.1.broadcasted) after in
        rw set (rw (← sent) (unfold settle contains in rw bytes_eq_refl))
  ]

  -- After a broadcast that succeeds, broadcasting the same CID again succeeds at once: nothing is
  -- sent, and the session stays as it is.
  pub broadcast_again :
      (s s' : Session W)
      → broadcast_with send p s ≡ (ok tt, s')
      → broadcast_with send p s' ≡ (ok tt, s')
  broadcast_again s s' h = broadcast_known s' (broadcast_ok s s' h)

  -- A broadcast that fails had a CID that was not in the set, did one send, and leaves the set as
  -- it was before.
  pub broadcast_failed :
      (s s' : Session W) (e : Error)
      → broadcast_with send p s ≡ (err e, s')
      → (contains s.broadcasted p.cid ≡ false)
        × (send p s.world ≡ (err e, s'.world))
        × (s'.broadcasted ≡ s.broadcasted)
  broadcast_failed s s' e h = elim (Bool-cases (contains s.broadcasted p.cid)) [
    | inl known ↦ cc (broadcast_known s known)
    | inr fresh ↦
        let after = sym h ∙ broadcast_fresh s fresh in
        let sent = ap (λ (r : Outcome Error (Unit {0}) × Session W). r.0) after in
        let world = ap (λ (r : Outcome Error (Unit {0}) × Session W). r.1.world) after in
        let set = ap (λ (r : Outcome Error (Unit {0}) × Session W). r.1.broadcasted) after in
        (
          fresh,
          sym (λ i. (sent i, world i)),
          set
              ∙ ap (λ r. settle p.cid r (p.cid ∷ s.broadcasted)) (sym sent)
              ∙ settle_err p.cid e s.broadcasted fresh,
        )
  ]

-- A list of broadcasts, whatever each gives.
unfoldable pub broadcast_all :
    {W : Type 0}
    → (BroadcastPayload → Action W Error (Unit {0}))
    → List BroadcastPayload
    → Session W
    → Session W
broadcast_all send [] s = s
broadcast_all send (p ∷ ps) s = broadcast_all send ps (broadcast_with send p s).1

-- The sends that succeeded, beside the world.
abbrev record_ok : Str → Outcome Error (Unit {0}) → List Str → List Str
record_ok cid (ok _) log = cid ∷ log
record_ok cid _ log = log

abbrev pub logged :
    {W : Type 0}
    → (BroadcastPayload → Action W Error (Unit {0}))
    → BroadcastPayload
    → Action (W × List Str) Error (Unit {0})
logged send p (w, log) = let (r, w') = send p w in (r, (w', record_ok p.cid r log))

-- What was sent is in the set, and was sent once.
record Once {W : Type 0} (s : Session (W × List Str)) : Type 0 where
  once : Distinct s.world.1
  known : (x : Str) → contains s.world.1 x ≡ true → contains s.broadcasted x ≡ true

module _ {W : Type 0} (send : BroadcastPayload → Action W Error (Unit {0})) where
  -- The session after a send with result `r` that leaves the world `w`.
  abbrev sent_session :
      BroadcastPayload
      → Outcome Error (Unit {0})
      → W
      → Session (W × List Str)
      → Session (W × List Str)
  sent_session p r w s = record {
    world = (w, record_ok p.cid r s.world.1);
    broadcasted = settle p.cid r (p.cid ∷ s.broadcasted);
  }

  sent-Once :
      (p : BroadcastPayload) (r : Outcome Error (Unit {0})) (w : W) (s : Session (W × List Str))
      → contains s.broadcasted p.cid ≡ false
      → Once s
      → Once (sent_session p r w s)
  sent-Once p (ok _) w s fresh o = record {
    once = (unfold contains in ground (arith, o.known p.cid), o.once);
    known = λ x m. unfold settle contains in ground (arith, o.known x);
  }
  sent-Once p (err e) w s fresh o = record {
    once = o.once;
    known = λ x m. rw (settle_err p.cid e s.broadcasted fresh) (o.known x m);
  }
  sent-Once p panicked w s fresh o = record {
    once = o.once;
    known = λ x m. unfold settle contains in ground (arith, o.known x);
  }

  broadcast-Once :
      (p : BroadcastPayload) (s : Session (W × List Str))
      → Once s
      → Once (broadcast_with (logged send) p s).1
  broadcast-Once p s o = elim (Bool-cases (contains s.broadcasted p.cid)) [
    | inl known ↦ rw (broadcast_known (logged send) p s known) o
    | inr fresh ↦
        rw (broadcast_fresh (logged send) p s fresh)
          (sent-Once p (send p s.world.0).0 (send p s.world.0).1 s fresh o)
  ]

  broadcast_all-Once :
      (ps : List BroadcastPayload) (s : Session (W × List Str))
      → Once s
      → Once (broadcast_all (logged send) ps s)
  unfolding broadcast_all
  broadcast_all-Once [] s o = o
  broadcast_all-Once (p ∷ ps) s o = broadcast_all-Once ps _ (broadcast-Once p s o)

-- In a new session no CID is sent twice with success, whatever the payloads and whichever sends
-- fail: the list of the CIDs that were sent has none twice.
pub broadcast_all-Distinct :
    {W : Type 0} (send : BroadcastPayload → Action W Error (Unit {0})) (ps : List BroadcastPayload)
    (w : W)
    → Distinct
        (broadcast_all (logged send) ps (record { world = (w, []); broadcasted = [] })).world.1
broadcast_all-Distinct {W} send ps w =
    let start : Session (W × List Str) = record { world = (w, []); broadcasted = [] } in
    let o : Once start = record { once = tt; known = λ x m. m } in
    (broadcast_all-Once send ps start o).once
