-- ===== src/BatchAnchor/Run/Limits/Counted.antt =====
-- A world that counts its commands.
use logos_whistleblower.Common.{
  ℕ, ◌+◌, ◌≤◌, ◌≡◌, refl, ap, lines, List, [], ◌∷◌, ◌∙◌, Option, none, some, Str, if◌then◌else◌,
  arith, Bool-cases, inl, inr,
}
use logos_whistleblower.Common.Effects.{Action, pure, >>=-keeps}
use logos_whistleblower.Indexer.Types.{Error}
use logos_whistleblower.Indexer.Host.{Crates}
use logos_whistleblower.Indexer.Upload.{ensure-world}
use logos_whistleblower.BatchAnchor.Types.{Sqlite, Outside, Machine, Cfg}
use logos_whistleblower.BatchAnchor.Delivery.{poll_by, messages_of, read_messages}
use logos_whistleblower.BatchAnchor.Submit.{
  BatchEntry, anchor_via_spel, run_spel, print_all, shown_lines,
}
use logos_whistleblower.BatchAnchor.Run.{
  RunArgs, on_world, on_db, mark_all, send_batch, anchoring_line, preview, submit,
}

-- An action beside a counter that it leaves alone, and beside one that it advances.
abbrev uncounted : {W A : Type 0} → Action W Error A → Action (W × ℕ) Error A
uncounted act (w, n) = let (r, w') = act w in (r, (w', n))

abbrev ticking : {W A : Type 0} → Action W Error A → Action (W × ℕ) Error A
ticking act (w, n) = let (r, w') = act w in (r, (w', n + 1))

-- The world with a count of the commands that it ran.
abbrev pub counted : Outside → Outside
counted O = record {
  World = O.World × ℕ;
  read_to_string = λ (w, n). O.read_to_string w;
  http_get = λ url. uncounted (O.http_get url);
  command = λ program args dir. ticking (O.command program args dir);
  print = λ line (w, n). (O.print line w, n);
  sleep = λ (w, n). (O.sleep w, n);
  now = λ (w, n). O.now w;
}

abbrev pub commands : (S : Sqlite) (O : Outside) → Machine S (counted O) → ℕ
commands S O m = m.world.1

module _ (K : Crates) (S : Sqlite) (O : Outside) (cli : Cfg) (args : RunArgs) where
  pub poll_by_count :
      (source topic : Str) (after limit n : ℕ) (file bridge : Option Str) (w : O.World × ℕ)
      → w.1 ≡ n
      → (poll_by K (counted O) source topic after limit file bridge w).1.1 ≡ n
  poll_by_count source topic after limit n (some path) bridge w h = h
  poll_by_count source topic after limit n none (some _) w h =
      >>=-keeps (λ (v : O.World × ℕ). v.1 ≡ n) ((counted O).http_get _)
        (λ body. pure (read_messages K (messages_of K body))) w h (λ _ _. h)
  poll_by_count source topic after limit n none none w h = h

  print_all_count : (texts : List Str) (w : O.World × ℕ) → (print_all (counted O) texts w).1 ≡ w.1
  unfolding print_all
  print_all_count [] w = refl
  print_all_count (line ∷ more) w = print_all_count more (O.print line w.0, w.1)

  anchor_count :
      (entries : List BatchEntry) (time : ℕ) (w : O.World × ℕ)
      → (anchor_via_spel K (counted O) cli entries time w).1.1 ≡ w.1 + 1
  unfolding anchor_via_spel
  anchor_count entries time w =
      >>=-keeps (λ (v : O.World × ℕ). v.1 ≡ w.1 + 1) (run_spel K (counted O) cli entries time) _ w
        refl
        (λ out _.
          ap (λ (v : O.World × ℕ). v.1) (ensure-world out.success _ _)
          ∙ print_all_count (shown_lines (lines (K.lossy out.stdout))) _)

  -- A submission runs one command, and none in a dry run.
  submit_count :
      (cursor c : ℕ) (entries : List BatchEntry) (m : Machine S (counted O))
      → commands S O (submit K S (counted O) cli args cursor c entries m).1
        ≡ (if args.dry_run then commands S O m else commands S O m + 1)
  unfolding submit
  submit_count cursor c entries m = elim (Bool-cases args.dry_run) [
    | inl dry ↦ rw dry (print_all_count (preview K cursor c entries) m.world)
    | inr real ↦ rw real (
        let sent = anchor_count entries ((counted O).now m.world) (first.world) in
        >>=-keeps One (on_world (send_batch K S (counted O) cli args cursor c entries _)) _ m sent
          (λ _ _. >>=-keeps One (on_db (mark_all S entries)) _ _ sent (λ _ _. sent)))
  ]
    where
      One : Machine S (counted O) → Type 0
      One v = commands S O v ≡ commands S O m + 1

      first : Machine S (counted O)
      first = record m { world = (counted O).print (anchoring_line cursor c entries) m.world }

  pub submit-le :
      (cursor c : ℕ) (entries : List BatchEntry) (m : Machine S (counted O))
      → commands S O (submit K S (counted O) cli args cursor c entries m).1 ≤ commands S O m + 1
  submit-le cursor c entries m = ground (arith, submit_count cursor c entries m)
