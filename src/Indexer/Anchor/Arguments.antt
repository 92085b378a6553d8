-- ===== src/Indexer/Anchor/Arguments.antt =====
-- What `anchor_batch` hands to `spel`, and when it runs nothing.
use native.Mathlib.Decide.{dec_lt}
use mathlib.Core.List.{cons-ne-nil}
use logos_whistleblower.Common.{
  false, Bool, ℕ, le→ltb-false, lt→ltb, ◌≡◌, ◌≢◌, ◌≤◌, ◌<◌, ◌⊎◌, inl, inr, refl, List, [], ◌∷◌,
  some, Str, Bytes, codes, join, split, split-join, Lacks, All, to_string, to_string-IsDigit,
  IsDigit, length, map, Outcome, ok, err, panicked, arith, true, Outcome-cases,
}
use logos_whistleblower.Common.Effects.{continue-world, continue, pure, ◌>>◌}
use logos_whistleblower.Registry.Types.{max_batch_size}
use logos_whistleblower.Indexer.Types.{Error, unwrap_or}
use logos_whistleblower.Indexer.Host.{Output, Crates, Host, HexIsLawful}
use logos_whistleblower.Indexer.Upload.{ensure, ensure-then-world}
use logos_whistleblower.Indexer.Anchor.Decoding.{
  Decoded, FailsWith, decode_all-Decoded, hashes_lack_comma, decode_all-FailsWith, Decoded-ne-nil,
  decode_all-ne-panicked,
}
use logos_whistleblower.Indexer.Anchor.{too_many, anchor_args, decode_all, anchor_batch}

digits-Lacks_comma : (s : Str) → All IsDigit s → Lacks b',' s
digits-Lacks_comma [] _ = tt
digits-Lacks_comma (c ∷ s) (h, hs) = ((λ e. ground arith), digits-Lacks_comma s hs)

times_lack_comma :
    (t : ℕ) (entries : List (Str × Bytes)) → All (Lacks b',') (map (λ _. to_string t) entries)
times_lack_comma t [] = tt
times_lack_comma t (_ ∷ entries) =
    (digits-Lacks_comma (to_string t) (to_string-IsDigit t), times_lack_comma t entries)

-- Parts that lack the separator come back, if there is one.
split-join_of_ne_nil :
    (ps : List Str) → ps ≢ [] → All (Lacks b',') ps → split b',' (join b',' ps) ≡ ps
split-join_of_ne_nil [] h _ = absurd (h refl)
split-join_of_ne_nil (p ∷ ps) _ lack = split-join b',' p ps lack

-- The result agrees with what the command gave: success only if it ended with success.
abbrev pub Reports : Outcome Error Output → Outcome Error Str → Type 0
Reports (ok out) (ok tx) = out.success ≡ true
Reports (ok out) (err e) = out.success ≡ false
Reports (err e) (err e') = e ≡ e'
Reports panicked panicked = Unit
Reports _ _ = ⊥

ensure-Reports :
    {W : Type 0} (out : Output) (b : Bool) (msg tx : Str) (w : W)
    → out.success ≡ b
    → Reports (ok out) ((ensure b msg >> pure tx) w).0
ensure-Reports out true msg tx w e = e
ensure-Reports out false msg tx w e = e

continue-Reports :
    {W : Type 0} (r : Outcome Error Output) (msg tx : Output → Str) (w : W)
    → Reports r (continue r (λ out. ensure out.success (msg out) >> pure (tx out)) w).0
continue-Reports (ok out) msg tx w = ensure-Reports out out.success (msg out) (tx out) w refl
continue-Reports (err e) msg tx w = refl
continue-Reports panicked msg tx w = tt

module _ (K : Crates) (H : Host) (w : H.World) where
  -- The value of a variable of the environment, or its default.
  abbrev setting : Str → Str → Str
  setting name default = unwrap_or (H.var w name) default

  -- What `spel anchor-batch` does with these three lists, each under its name.
  abbrev pub by_spel : Str → Str → Str → Outcome Error Output × H.World
  by_spel cids metas times =
      H.command (setting (codes "SPEL_BIN") (codes "spel"))
        (codes "--idl"
          ∷ setting (codes "SPEL_IDL") (codes "cid-registry/cid-registry.idl.json")
          ∷ codes "--"
          ∷ codes "anchor-batch"
          ∷ codes "--entries-cids"
          ∷ cids
          ∷ codes "--entries-meta-hashes"
          ∷ metas
          ∷ codes "--entries-timestamps"
          ∷ times
          ∷ [])
        (some (setting (codes "SPEL_WORKDIR") (codes "."))) w

  abbrev pub after_spel : Str → Str → Str → H.World
  after_spel cids metas times = (by_spel cids metas times).1

  anchor_batch_runs :
      (entry : Str × Bytes) (more : List (Str × Bytes)) (timestamp : ℕ) (hs : List Str)
      → length (entry ∷ more) ≤ max_batch_size
      → decode_all K (entry ∷ more) ≡ ok hs
      → ((anchor_batch K H (entry ∷ more) timestamp w).1
          ≡ after_spel
              (join b',' hs)
              (join b',' (map (λ (_, h). K.hex h) (entry ∷ more)))
              (join b',' (map (λ _. to_string timestamp) (entry ∷ more))))
        × Reports
            (by_spel
              (join b',' hs)
              (join b',' (map (λ (_, h). K.hex h) (entry ∷ more)))
              (join b',' (map (λ _. to_string timestamp) (entry ∷ more)))).0
            (anchor_batch K H (entry ∷ more) timestamp w).0
  unfolding anchor_batch
  anchor_batch_runs entry more timestamp hs small e =
      rw (le→ltb-false max_batch_size (length (entry ∷ more)) small, e)
        (
          continue-world ran.0 _ ran.1 (λ out v. ensure-then-world out.success _ _ v),
          continue-Reports ran.0 _ _ ran.1,
        )
    where
      ran : Outcome Error Output × H.World
      ran =
          H.command (setting (codes "SPEL_BIN") (codes "spel"))
            (anchor_args (setting (codes "SPEL_IDL") (codes "cid-registry/cid-registry.idl.json"))
              (join b',' hs) (join b',' (map (λ (_, h). K.hex h) (entry ∷ more)))
              (join b',' (map (λ _. to_string timestamp) (entry ∷ more))))
            (some (setting (codes "SPEL_WORKDIR") (codes "."))) w

  -- A batch that is too large fails without a command.
  anchor_batch_refuses :
      (entries : List (Str × Bytes)) (timestamp : ℕ)
      → max_batch_size < length entries
      → (e : Error) × (anchor_batch K H entries timestamp w ≡ (err e, w))
  unfolding anchor_batch
  anchor_batch_refuses [] timestamp large = absurd (omega arith)
  anchor_batch_refuses (entry ∷ more) timestamp large =
      (too_many (length (entry ∷ more)), rw (lt→ltb max_batch_size (length (entry ∷ more)) large))

  -- The error of a CID that does not decode is passed on.
  anchor_batch_undecodable :
      (entry : Str × Bytes) (more : List (Str × Bytes)) (timestamp : ℕ) (e : Error)
      → length (entry ∷ more) ≤ max_batch_size
      → decode_all K (entry ∷ more) ≡ err e
      → anchor_batch K H (entry ∷ more) timestamp w ≡ (err e, w)
  unfolding anchor_batch
  anchor_batch_undecodable entry more timestamp e small bad =
      rw (le→ltb-false max_batch_size (length (entry ∷ more)) small, bad)

-- Where `hex` prints hexadecimal digits and `bs58` does not panic, `anchor_batch` gives `no-op` for
-- an empty batch, or it fails because it has more than 50 entries or with the error of the first CID
-- that does not decode, in both cases in the world as it was, or it has at least one entry and at
-- most 50 and leaves the world of one `spel anchor-batch`, run with the program, the interface
-- description and the directory of the environment; then it succeeds only if the command does, and
-- fails or panics only if the command does or ends without success. The lists of CIDs, hashes and timestamps,
-- each given under its name and cut at its commas, have one printed CID, one printed hash and one
-- decimal timestamp for each entry, in order.
pub anchor_batch-arguments :
    (K : Crates) (H : Host) (w : H.World) (entries : List (Str × Bytes)) (timestamp : ℕ)
    → HexIsLawful K
    → ((s : Str) → K.base58 s ≢ panicked)
    → ((entries ≡ []) × (anchor_batch K H entries timestamp w ≡ (ok (codes "no-op"), w)))
      ⊎ (((e : Error) × (anchor_batch K H entries timestamp w ≡ (err e, w))
            × ((max_batch_size < length entries) ⊎ FailsWith K entries e))
          ⊎ ((cids metas times : Str) × (0 < length entries)
              × (length entries ≤ max_batch_size)
              × ((anchor_batch K H entries timestamp w).1 ≡ after_spel K H w cids metas times)
              × Reports (by_spel K H w cids metas times).0 (anchor_batch K H entries timestamp w).0
              × Decoded K entries (split b',' cids)
              × (split b',' metas ≡ map (λ (_, h). K.hex h) entries)
              × (split b',' times ≡ map (λ _. to_string timestamp) entries)))
anchor_batch-arguments K H w [] timestamp hex calm = inl (refl, unfold anchor_batch in refl)
anchor_batch-arguments K H w (entry ∷ more) timestamp hex calm =
    elim (dec_lt max_batch_size (length (entry ∷ more))) [
      | yes large ↦
          let (e, refused) = anchor_batch_refuses K H w (entry ∷ more) timestamp large in
          inr (inl (e, refused, inl large))
      | no fits ↦ elim (Outcome-cases (decode_all K (entry ∷ more))) [
        | inr (inl (e, bad)) ↦ inr (
            inl (
              e,
              anchor_batch_undecodable K H w entry more timestamp e (omega arith) bad,
              inr (decode_all-FailsWith K (entry ∷ more) e bad),
            ))
        | inr (inr bad) ↦ absurd (decode_all-ne-panicked K calm (entry ∷ more) bad)
        | inl (hs, e) ↦
            let (decoded, lack) = decode_all-Decoded K hex (entry ∷ more) hs e in
            inr (
              inr (
                join b',' hs,
                join b',' (map (λ (_, h). K.hex h) (entry ∷ more)),
                join b',' (map (λ _. to_string timestamp) (entry ∷ more)),
                omega arith,
                omega arith,
                (anchor_batch_runs K H w entry more timestamp hs (omega arith) e).0,
                (anchor_batch_runs K H w entry more timestamp hs (omega arith) e).1,
                rw (split-join_of_ne_nil hs (Decoded-ne-nil K entry more hs decoded) lack) decoded,
                split-join_of_ne_nil _ (cons-ne-nil _ _) (hashes_lack_comma K hex (entry ∷ more)),
                split-join_of_ne_nil _ (cons-ne-nil _ _)
                    (times_lack_comma timestamp (entry ∷ more)),
              ))
      ]
    ]
