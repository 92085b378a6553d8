-- ===== src/System/Submission.antt =====
-- What a submission of the tool does to the registry.
use logos_whistleblower.Common.{
  ℕ, ◌≡◌, refl, sym, ap, subst, List, [], ◌∷◌, Bool, true, false, Bytes, Str, join, length,
  contains, All, lines, ok, map_err-eq-ok,
}
use logos_whistleblower.Common.Effects.{>>=-keeps, >>=-result}
use logos_whistleblower.Registry.Types.{cid_bytes_len}
use logos_whistleblower.Registry.Account.{Chain, IsLawful}
use logos_whistleblower.Registry.Program.Grows.{Registered}
use logos_whistleblower.Indexer.Host.{Crates, Output}
use logos_whistleblower.Indexer.Upload.{ensure, ensure-world}
use logos_whistleblower.BatchAnchor.Types.{Outside, Cfg}
use logos_whistleblower.BatchAnchor.Submit.{
  BatchEntry, anchor_via_spel, run_spel, print_all, shown_lines, spel_args,
}
use logos_whistleblower.BatchAnchor.Submit.Cids.{entry_cids, map-entry_cids}
use logos_whistleblower.System.Ledger.{
  Ledger, Extends, Instructions-Extends, transaction-Registered,
}

ensure-eq-ok : {W : Type 0} (b : Bool) (msg : Str) (w : W) → (ensure b msg w).0 ≡ ok tt → b ≡ true
ensure-eq-ok true msg w h = refl
ensure-eq-ok false msg w h = cc

module _ (K : Crates) (O : Outside) (C : Chain) (cli : Cfg) (L : IsLawful C)
    (G : Ledger K O C cli) where
  -- What is registered in the one world is registered in the other.
  abbrev pub Later : O.World → O.World → Type 0
  Later w w' = Extends C L (G.registry w) (G.registry w')

  pub print_all-Later : (texts : List Str) (w : O.World) → Later w (print_all O texts w)
  unfolding print_all
  print_all-Later [] w x r = r
  print_all-Later (line ∷ more) w x r =
      print_all-Later more (O.print line w) x (Instructions-Extends C L (G.at_print line w) x r)

  pub anchor_via_spel-Later :
      (entries : List BatchEntry) (time : ℕ) (w : O.World)
      → Later w (anchor_via_spel K O cli entries time w).1
  unfolding anchor_via_spel
  anchor_via_spel-Later entries time w =
      let ran : Later w (run_spel K O cli entries time w).1 =
        Instructions-Extends C L
          (G.at_command cli.spel_bin (spel_args K O cli entries time) cli.workdir w) in
      >>=-keeps (Later w) (run_spel K O cli entries time) _ w ran (λ out _.
        subst (Later w) (sym (ensure-world out.success _ _))
          (λ x r. print_all-Later (shown_lines (lines (K.lossy out.stdout))) _ x (ran x r)))

  run_spel-Registered :
      (e : BatchEntry) (entries : List BatchEntry) (time : ℕ) (w : O.World) (out : Output)
      → All (λ x. length x ≡ cid_bytes_len) (entry_cids (e ∷ entries))
      → (run_spel K O cli (e ∷ entries) time w).0 ≡ ok out
      → out.success ≡ true
      → (x : Bytes) → contains (entry_cids (e ∷ entries)) x ≡ true
      → Registered C (G.registry (run_spel K O cli (e ∷ entries) time w).1) x
  run_spel-Registered e entries time w out sized ran success x m =
      let (hs, ts, before, after, _, run, later) =
        G.executed e.cid (entry_cids entries) _ _ _ w out sized
          (ap (join b',') (map-entry_cids K.hex (e ∷ entries))) (map_err-eq-ok _ _ ran) success in
      let (_, new) = transaction-Registered C L before after (entry_cids (e ∷ entries)) hs ts run in
      Instructions-Extends C L later x (new x m)

  -- Where it ends with success, the CIDs of the entries are registered.
  pub anchor_via_spel-Registered :
      (e : BatchEntry) (entries : List BatchEntry) (time : ℕ) (w : O.World)
      → All (λ x. length x ≡ cid_bytes_len) (entry_cids (e ∷ entries))
      → (anchor_via_spel K O cli (e ∷ entries) time w).0 ≡ ok tt
      → (x : Bytes) → contains (entry_cids (e ∷ entries)) x ≡ true
      → Registered C (G.registry (anchor_via_spel K O cli (e ∷ entries) time w).1) x
  unfolding anchor_via_spel
  anchor_via_spel-Registered e entries time w sized h x m =
      let (out, ran, rest) = >>=-result (run_spel K O cli (e ∷ entries) time) _ w h in
      let registered =
        run_spel-Registered e entries time w out sized ran (ensure-eq-ok out.success _ _ rest) x
          m in
      >>=-keeps (λ v. Registered C (G.registry v) x) (run_spel K O cli (e ∷ entries) time) _ w
        registered
        (λ out' _.
          subst (λ v. Registered C (G.registry v) x) (sym (ensure-world out'.success _ _))
            (print_all-Later (shown_lines (lines (K.lossy out'.stdout))) _ x registered))
