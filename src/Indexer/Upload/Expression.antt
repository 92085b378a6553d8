-- ===== src/Indexer/Upload/Expression.antt =====
-- What the upload through `logoscore` runs, and what becomes of its temporary file.
use logos_whistleblower.Common.{
  ℕ, ◌≡◌, ◌≢◌, refl, ◌∙◌, ◌⊎◌, inl, inr, [], ◌∷◌, true, false, ◌||◌, none, some, Str, Bytes, codes,
  has_char, Outcome, ok, err, panicked, split, split-append, split-of_Lacks, Lacks, Lacks-append,
  arith, Bool-cases, Option-cases, Outcome-cases,
}
use logos_whistleblower.Indexer.Types.{Error, message, IndexerConfig}
use logos_whistleblower.Indexer.Host.{Crates, Host, Output}
use logos_whistleblower.Indexer.Upload.{
  upload_args, upload_expr, cid_in, ensure-then-world, upload_via_logoscore, temp_file,
}

Lacks-of_has_char : (c : ℕ) (s : Str) → has_char c s ≡ false → Lacks c s
unfolding has_char
Lacks-of_has_char c [] h = tt
Lacks-of_has_char c (d ∷ s) h = ((λ e. ground (arith, e)), Lacks-of_has_char c s (ground arith))

has_char-of_Lacks : (c : ℕ) (s : Str) → Lacks c s → has_char c s ≡ false
unfolding has_char
has_char-of_Lacks c [] _ = refl
has_char-of_Lacks c (d ∷ s) (h, hs) = ground (arith, h, has_char-of_Lacks c s hs)

upload_expr-literals :
    (path : Str)
    → Lacks b'"' path
    → split b'"' (upload_expr path)
      ≡ codes "storage.upload(" ∷ path ∷ codes ", " ∷ codes "whistleblower-doc" ∷ codes ")" ∷ []
unfolding upload_expr
upload_expr-literals path h =
    split-append b'"' (codes "storage.upload(") _ (omega arith)
    ∙ rw (split-append b'"' path _ h) (
        rw (split-append b'"' (codes ", ") (codes "whistleblower-doc\")") (omega arith)) (
          rw (split-append b'"' (codes "whistleblower-doc") (codes ")") (omega arith))
            (rw (split-of_Lacks b'"' (codes ")") (omega arith)))))

upload_expr-Lacks : (path : Str) → Lacks 0x5C path → Lacks 0x5C (upload_expr path)
unfolding upload_expr
upload_expr-Lacks path h =
    Lacks-append 0x5C (codes "storage.upload(\"") _ (omega arith)
      (Lacks-append 0x5C path (codes "\", \"whistleblower-doc\")") h (omega arith))

module _ (K : Crates) (H : Host) (config : IndexerConfig) (contents : Bytes) (bin dir : Str)
    (w : H.World) where
  abbrev pub tmp : H.FilePath
  tmp = temp_file K H config contents w

  -- The result and the world after the temporary file is written, and after the command then.
  abbrev pub wrote : Outcome Error (Unit {0}) × H.World
  wrote = H.write tmp contents w

  abbrev pub ran : Str → Outcome Error Output × H.World
  ran expr = H.command bin (upload_args dir expr) none wrote.1

  abbrev pub uploaded : Outcome Error Str × H.World
  uploaded = upload_via_logoscore K H config contents bin dir w

  -- How the upload ends, once the command ran on this path.
  abbrev pub RanOn : Str → Type 0
  RanOn expr =
      ((out : Output) × ((ran expr).0 ≡ ok out) × (uploaded.1 ≡ H.remove_file tmp (ran expr).1))
      ⊎ ((e : Error) × ((ran expr).0 ≡ err e) × (uploaded ≡ (err e, (ran expr).1)))

  ran_on :
      (path : Str)
      → wrote.0 ≡ ok tt
      → H.to_str tmp ≡ some path
      → (has_char b'"' path || has_char 0x5C path) ≡ false
      → (ran (upload_expr path)).0 ≢ panicked
      → RanOn (upload_expr path)
  unfolding upload_via_logoscore
  ran_on path done text safe calm = elim (Outcome-cases (ran (upload_expr path)).0) [
    | inl (out, e) ↦ inl (
      out,
      e,
      rw (done, text, safe) (rw e (ensure-then-world out.success _ (cid_in K H config out) _)),
    )
    | inr (inl (x, e)) ↦ inr (x, e, rw (done, text, safe) (rw e refl))
    | inr (inr p) ↦ absurd (calm p)
  ]

  -- Nothing was run: the upload fails, and leaves the world with the temporary file.
  abbrev pub NotRun : Type 0
  NotRun = (e : Error) × (uploaded ≡ (err e, wrote.1))

  -- Where an upload may end with nothing run: the file is not written, or its path is no text, or
  -- that text has a quote or a backslash.
  abbrev pub Refusable : Type 0
  Refusable =
      ((e : Error) × (wrote.0 ≡ err e))
      ⊎ ((H.to_str tmp ≡ none)
          ⊎ ((path : Str) × (H.to_str tmp ≡ some path) × (¬ (Lacks b'"' path × Lacks 0x5C path))))

  not_text : wrote.0 ≡ ok tt → H.to_str tmp ≡ none → NotRun
  unfolding upload_via_logoscore
  not_text done none_there =
      (message (codes "temp path is not valid UTF-8"), rw (done, none_there) refl)

  not_safe :
      (path : Str)
      → wrote.0 ≡ ok tt
      → H.to_str tmp ≡ some path
      → (has_char b'"' path || has_char 0x5C path) ≡ true
      → NotRun
  unfolding upload_via_logoscore
  not_safe path done text bad = (
    message (codes "temp path contains characters unsafe for the logoscore expression"),
    rw (done, text, bad) refl,
  )

  not_written : (e : Error) → wrote.0 ≡ err e → NotRun
  unfolding upload_via_logoscore
  not_written e failed = (e, rw failed refl)

-- Where writing the file and running the command do not panic, an upload through `logoscore` either
-- fails with nothing run, after the attempt to write its temporary file, which it does only where
-- that fails or the path is no text or has a quote or a backslash, or it runs one command,
-- whose expression has no backslash and, between its quotes, exactly the path of that file and the
-- fixed name: no path breaks out of its literal. If the command gives an output, the file is removed, whatever the
-- output is; if the command cannot be run, the upload fails and the file is left.
pub upload_via_logoscore-literals :
    (K : Crates) (H : Host) (config : IndexerConfig) (contents : Bytes) (bin dir : Str)
    (w : H.World)
    → (wrote K H config contents bin dir w).0 ≢ panicked
    → ((expr : Str) → (ran K H config contents bin dir w expr).0 ≢ panicked)
    → (NotRun K H config contents bin dir w × Refusable K H config contents bin dir w)
      ⊎ ((path : Str) × (expr : Str) × (H.to_str (tmp K H config contents bin dir w) ≡ some path)
          × Lacks 0x5C expr
          × (split b'"' expr
              ≡ codes "storage.upload("
                ∷ path
                ∷ codes ", "
                ∷ codes "whistleblower-doc"
                ∷ codes ")"
                ∷ [])
          × RanOn K H config contents bin dir w expr)
upload_via_logoscore-literals K H config contents bin dir w calm_write calm_run =
    elim (Outcome-cases (wrote K H config contents bin dir w).0) [
      | inr (inl (e, failed)) ↦
          inl (not_written K H config contents bin dir w e failed, inl (e, failed))
      | inr (inr p) ↦ absurd (calm_write p)
      | inl (_, done) ↦ elim (Option-cases (H.to_str (tmp K H config contents bin dir w))) [
        | inl none_there ↦
            inl (not_text K H config contents bin dir w done none_there, inr (inl none_there))
        | inr (path, text) ↦ elim (Bool-cases (has_char b'"' path || has_char 0x5C path)) [
          | inl bad ↦ inl (
            not_safe K H config contents bin dir w path done text bad,
            inr (
                inr (
                  path,
                  text,
                  λ (q, b).
                      ground (arith, has_char-of_Lacks b'"' path q, has_char-of_Lacks 0x5C path b),
                )),
          )
          | inr safe ↦ inr (
            path,
            upload_expr path,
            text,
            upload_expr-Lacks path (Lacks-of_has_char 0x5C path (ground arith)),
            upload_expr-literals path (Lacks-of_has_char b'"' path (ground arith)),
            ran_on K H config contents bin dir w path done text safe (calm_run (upload_expr path)),
          )
        ]
      ]
    ]
