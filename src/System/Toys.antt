-- ===== src/System/Toys.antt =====
-- A small chain behind the tool, whose `spel` runs the program at once.
mod Digits
use logos_whistleblower.Common.{
  ◌+◌, ◌-◌, ◌≤◌, ◌≡◌, ◌∙◌, refl, sym, ap, subst, List, [], ◌∷◌, ◌++◌, map, Bool, true, false, ◌&&◌,
  none, some, Bytes, Str, codes, replicate, length, join, split, split-join, Lacks, get_elem?, All,
  bytes_eq, contains, ltb, leb, ◌==◌, if◌then◌else◌, Outcome, ok, ok-injective, arith, Bool-cases,
  inl, inr,
}
use logos_whistleblower.Registry.Types.{DocumentRecord, Entry, cid_bytes_len, max_batch_size, cids}
use logos_whistleblower.Registry.Anchor.Added.{AllSized}
use logos_whistleblower.Registry.Account.{AccountWithMetadata}
use logos_whistleblower.Registry.Program.{anchor_batch}
use logos_whistleblower.Registry.Program.Refines.{entry_cids, entry_hashes, entry_timestamps}
use logos_whistleblower.Registry.Program.Repeats.{unknown, program_loop_ok}
use logos_whistleblower.Registry.Toys.{toy_chain, encode, read_state-encode}
use logos_whistleblower.Indexer.Types.{Error}
use logos_whistleblower.Indexer.Host.{Crates, Output}
use logos_whistleblower.Indexer.Toys.{toy_crates, printed}
use logos_whistleblower.BatchAnchor.Types.{Outside, text, not_found}
use logos_whistleblower.BatchAnchor.Submit.Cids.{AreSized}
use logos_whistleblower.BatchAnchor.Run.Succeeds.{Works}
use logos_whistleblower.BatchAnchor.Toys.{toy_sqlite, cfg_with}
use Digits.{digits, undigits, cids_in-join}
use logos_whistleblower.System.Ledger.{Instructions, quiet, transaction, Ledger}

abbrev pub digit_crates : Crates
digit_crates = record toy_crates { hex = digits }

-- The account with these records.
abbrev pub registry_with : List DocumentRecord → AccountWithMetadata toy_chain
registry_with rs = record { account = length rs ∷ encode rs; metadata = 0 }

abbrev entry_for : Bytes → Entry
entry_for cid = record { cid_bytes = cid; metadata_hash = replicate 32 1; anchor_timestamp = 7 }

abbrev entries_for : List Bytes → List Entry
entries_for = map entry_for

entry_cids-entries_for : (cs : List Bytes) → entry_cids (entries_for cs) ≡ cs
entry_cids-entries_for [] = refl
entry_cids-entries_for (c ∷ cs) = ap (λ l. c ∷ l) (entry_cids-entries_for cs)

-- `spel` reads the CIDs from its sixth argument; the hashes and times are all the same.
abbrev cids_in : List Str → List Bytes
cids_in args = elim (get_elem? args 5) [ none ↦ [] | some s ↦ map undigits (split b',' s) ]

abbrev are_sized : List Bytes → Bool
are_sized [] = true
are_sized (c ∷ cs) = length c == cid_bytes_len && are_sized cs

are_sized-AllSized : (cs : List Bytes) → are_sized cs ≡ true → AllSized (entries_for cs)
are_sized-AllSized [] h = tt
are_sized-AllSized (c ∷ cs) h = (ground (arith, h), are_sized-AllSized cs (ground (arith, h)))

are_sized_of_All : (cs : List Bytes) → AreSized cs → are_sized cs ≡ true
are_sized_of_All [] _ = refl
are_sized_of_All (c ∷ cs) (h, hs) = rw (h, are_sized_of_All cs hs) refl

abbrev is_accepted : List Bytes → Bool
is_accepted cs = leb (length cs) max_batch_size && are_sized cs

abbrev refused : Output
refused = record { success = false; code = codes "Some(1)"; stdout = []; stderr = [] }

abbrev pub spel : List DocumentRecord → List Bytes → Outcome Error Output × List DocumentRecord
spel rs cs =
    if is_accepted cs
    then (ok (printed (codes "tx_hash: abc")), rs ++ unknown (cids rs) (entries_for cs))
    else (ok refused, rs)

abbrev pub chain_outside : Outside
chain_outside = record {
  World = List DocumentRecord;
  read_to_string =
      λ w path. if bytes_eq path (codes "q") then text (codes "1\n2\n3\n") else not_found;
  http_get = λ url w. (ok (ok (codes "[]")), w);
  command = λ program args dir w. spel w (cids_in args);
  print = λ line w. w;
  sleep = λ w. w;
  now = λ w. 1700000000;
}

-- The run of the program behind `spel`.
program-spel :
    (rs : List DocumentRecord) (cs : List Bytes)
    → is_accepted cs ≡ true
    → anchor_batch toy_chain
        (registry_with rs)
        cs
        (entry_hashes (entries_for cs))
        (entry_timestamps (entries_for cs))
      ≡ ok (registry_with (rs ++ unknown (cids rs) (entries_for cs)) ∷ [])
unfolding anchor_batch
program-spel rs cs h =
    let small : ltb max_batch_size (length cs) ≡ false = ground (arith, h) in
    let sized = are_sized-AllSized cs (ground (arith, h)) in
    let loop = program_loop_ok (cids rs) rs (entries_for cs) sized in
    rw (small, read_state-encode (record { records = rs }))
      (rw (rw (entry_cids-entries_for cs) at loop) refl)

pub spel-Instructions :
    (rs : List DocumentRecord) (cs : List Bytes)
    → Instructions toy_chain (registry_with rs) (registry_with (spel rs cs).1)
spel-Instructions rs cs = elim (Bool-cases (is_accepted cs)) [
  | inl good ↦ rw good (transaction cs _ _ _ (program-spel rs cs good) quiet)
  | inr bad ↦ rw bad quiet
]

refused_fails :
    {X : Type 0} (out : Output)
    → ◌≡◌ {A = Outcome Error Output} (ok refused) (ok out)
    → out.success ≡ true
    → X
refused_fails out h s =
    let e : false ≡ true = ap (λ (o : Output). o.success) (ok-injective h) ∙ s in cc

spel-is_accepted :
    (rs : List DocumentRecord) (cs : List Bytes) (out : Output)
    → (spel rs cs).0 ≡ ok out
    → out.success ≡ true
    → is_accepted cs ≡ true
spel-is_accepted rs cs out ran success = elim (Bool-cases (is_accepted cs)) [
  | inl good ↦ good
  | inr bad ↦ refused_fails out (rw bad at ran) success
]

-- A call that succeeds has run the program.
pub spel-executed :
    (rs : List DocumentRecord) (cs : List Bytes) (out : Output)
    → (spel rs cs).0 ≡ ok out
    → out.success ≡ true
    → anchor_batch toy_chain
        (registry_with rs)
        cs
        (entry_hashes (entries_for cs))
        (entry_timestamps (entries_for cs))
      ≡ ok (registry_with (spel rs cs).1 ∷ [])
spel-executed rs cs out ran success =
    let good = spel-is_accepted rs cs out ran success in rw good (program-spel rs cs good)

abbrev pub toy_ledger : Ledger digit_crates chain_outside toy_chain (cfg_with (codes "spel"))
toy_ledger = record {
  registry = registry_with;
  at_print = λ line w. quiet;
  at_sleep = λ w. quiet;
  at_http_get = λ url w. quiet;
  at_command = λ program args dir w. spel-Instructions w (cids_in args);
  executed = λ c cs words metas times w out _ same ran success.
      let read = map undigits (split b',' words) in
      (
        entry_hashes (entries_for read),
        entry_timestamps (entries_for read),
        registry_with w,
        registry_with (spel w read).1,
        quiet,
        subst
            (λ l.
              anchor_batch toy_chain (registry_with w) l (entry_hashes (entries_for read))
                (entry_timestamps (entries_for read))
              ≡ ok (registry_with (spel w read).1 ∷ []))
            (cids_in-join c cs words same) (spel-executed w read out ran success),
        quiet,
      );
}

spel-succeeds :
    (rs : List DocumentRecord) (cs : List Bytes)
    → AreSized cs
    → length cs ≤ max_batch_size
    → (spel rs cs).0 ≡ ok (printed (codes "tx_hash: abc"))
spel-succeeds rs cs sized small =
    let good : is_accepted cs ≡ true = ground (arith, are_sized_of_All cs sized) in rw good refl

pub toy-Works : Works digit_crates toy_sqlite chain_outside (cfg_with (codes "spel"))
toy-Works = record {
  counts = λ db cid. elim (Bool-cases (contains db.anchored cid)) [
    | inl there ↦ (1, rw there refl)
    | inr absent ↦ (0, rw absent refl)
  ];
  inserts = λ db cid. refl;
  replaces = λ db v. refl;
  commands = λ c cs words metas times w sized small same. (
    printed (codes "tx_hash: abc"),
    subst (λ l. (spel w l).0 ≡ ok (printed (codes "tx_hash: abc")))
        (sym (cids_in-join c cs words same)) (spel-succeeds w (c ∷ cs) sized small),
    refl,
  );
  decodes = λ words p. cc;
  prints = λ payload p. cc;
}
