-- ===== src/Indexer/Broadcast/Concurrent.antt =====
-- Concurrent calls of `broadcast` on one indexer: the critical sections of any number of calls, in
-- any order, with sends in flight between them.
use logos_whistleblower.Common.{
  ◌≡◌, refl, sym, ◌∙◌, ap, List, [], ◌∷◌, ◌++◌, true, false, ◌||◌, none, some, Str, contains,
  contains-append, remove, bytes_eq, bytes_eq_refl, bytes_eq_iff, Distinct, Outcome, ok, err,
  panicked, arith, subst, Bool-cases, inl, inr,
}
use logos_whistleblower.Indexer.Types.{Error}
use logos_whistleblower.Indexer.Broadcast.{claim, settle}

-- The set behind the mutex, the CIDs of the sends in flight, one for each, and the CIDs of the
-- sends that succeeded.
pub record Flights : Type 0 where
  pub broadcasted : List Str
  pub in_flight : List Str
  pub sent : List Str

-- One element is taken out of a list.
pub data Picks (x : Str) : List Str → List Str → Type 0 where
  here : {xs : List Str} → Picks x (x ∷ xs) xs
  there : {y : Str} {xs ys : List Str} → Picks x xs ys → Picks x (y ∷ xs) (y ∷ ys)

abbrev pub logged_sent : Str → Outcome Error (Unit {0}) → List Str → List Str
logged_sent cid (ok _) sent = cid ∷ sent
logged_sent cid _ sent = sent

-- A call finds its CID in the set and returns, or claims it and starts to send; a send comes to its
-- end, with any result.
pub data Step (s : Flights) : Flights → Type 0 where
  deduplicated : (cid : Str) → claim cid s.broadcasted ≡ none → Step s s
  started :
      (cid : Str) (seen : List Str)
      → claim cid s.broadcasted ≡ some seen
      → Step s (record { broadcasted = seen; in_flight = cid ∷ s.in_flight; sent = s.sent })
  finished :
      (cid : Str) (rest : List Str) (result : Outcome Error (Unit {0}))
      → Picks cid s.in_flight rest
      → Step s (record {
        broadcasted = settle cid result s.broadcasted;
        in_flight = rest;
        sent = logged_sent cid result s.sent;
      })

-- What steps lead to from a new indexer.
pub data Reachable : Flights → Type 0 where
  new_indexer : Reachable (record { broadcasted = []; in_flight = []; sent = [] })
  step : {s s' : Flights} → Reachable s → Step s s' → Reachable s'

bytes_eq-false-sym : (x y : Str) → bytes_eq x y ≡ false → bytes_eq y x ≡ false
bytes_eq-false-sym x y h = elim (Bool-cases (bytes_eq y x)) [
  | inl same ↦ cc (h, bytes_eq_refl x, (bytes_eq_iff y x).0 same)
  | inr other ↦ other
]

contains-remove :
    (xs : List Str) (a x : Str) → bytes_eq a x ≡ false → contains (remove xs a) x ≡ contains xs x
unfolding contains remove
contains-remove [] a x h = refl
contains-remove (y ∷ ys) a x h = elim (Bool-cases (bytes_eq y a)) [
  | inl same ↦
      let e : bytes_eq y x ≡ false = rw ((bytes_eq_iff y a).0 same) h in
      rw same (rw e (contains-remove ys a x h))
  | inr other ↦ rw other (ground (arith, contains-remove ys a x h))
]

contains-Picks :
    {x : Str} {xs ys : List Str} (a : Str)
    → Picks x xs ys
    → contains xs a ≡ (bytes_eq x a || contains ys a)
unfolding contains
contains-Picks a here = refl
contains-Picks a (there p) = ground (arith, contains-Picks a p)

Distinct-Picks :
    {x : Str} {xs ys : List Str}
    → Picks x xs ys
    → Distinct xs
    → Distinct ys × (contains ys x ≡ false)
unfolding contains
Distinct-Picks here (new, d) = (d, new)
Distinct-Picks {x} (there {y = y} {ys = ys} p) (new, d) =
    let (e, out) = Distinct-Picks p d in
    let split = contains-Picks y p in
    ((ground (arith, split), e), ground (arith, split, bytes_eq-false-sym x y))

Distinct-append :
    (xs ys : List Str)
    → Distinct xs
    → Distinct ys
    → ((x : Str) → contains xs x ≡ true → contains ys x ≡ false)
    → Distinct (xs ++ ys)
unfolding contains
Distinct-append [] ys _ dy _ = dy
Distinct-append (x ∷ xs) ys (out, dx) dy apart = (
  ground (arith, contains-append xs ys x, apart x, bytes_eq_refl x, out),
  Distinct-append xs ys dx dy (λ a m. apart a (ground (arith, m))),
)

-- What every interleaving keeps.
record IsSafe (s : Flights) : Type 0 where
  flying : Distinct s.in_flight
  once : Distinct s.sent
  apart : (x : Str) → contains s.in_flight x ≡ true → contains s.sent x ≡ false
  known :
      (x : Str)
      → (contains s.in_flight x || contains s.sent x) ≡ true
      → contains s.broadcasted x ≡ true

claim-some :
    (cid : Str) (seen seen' : List Str)
    → claim cid seen ≡ some seen'
    → (contains seen cid ≡ false) × (seen' ≡ cid ∷ seen)
unfolding claim
claim-some cid seen seen' h = elim (Bool-cases (contains seen cid)) [
  | inl there_is ↦ cc (h, there_is)
  | inr fresh ↦ (fresh, cc (h, fresh))
]

started-IsSafe :
    (s : Flights) (cid : Str)
    → contains s.broadcasted cid ≡ false
    → IsSafe s
    → IsSafe
        (record { broadcasted = cid ∷ s.broadcasted; in_flight = cid ∷ s.in_flight; sent = s.sent })
unfolding contains
started-IsSafe s cid fresh safe = record {
  flying = (ground (arith, safe.known cid), safe.flying);
  once = safe.once;
  apart = λ x m. elim (Bool-cases (bytes_eq cid x)) [
    | inl same ↦
        ground (arith, safe.known cid, fresh, ap (contains s.sent) ((bytes_eq_iff cid x).0 same))
    | inr other ↦ safe.apart x (ground (arith, m, other))
  ];
  known = λ x m. ground (arith, m, safe.known x);
}

module _ (s : Flights) (cid : Str) (rest : List Str) (picked : Picks cid s.in_flight rest)
    (safe : IsSafe s) where
  -- Facts on the CID whose send comes to its end.
  was_in_flight : contains s.in_flight cid ≡ true
  was_in_flight = contains-Picks cid picked ∙ ground (arith, bytes_eq_refl cid)

  rest_in_flight : (x : Str) → contains rest x ≡ true → contains s.in_flight x ≡ true
  rest_in_flight x m = contains-Picks x picked ∙ ground (arith, m)

  others : (x : Str) → (contains rest x || contains s.sent x) ≡ true → bytes_eq cid x ≡ false
  others x m = elim (Bool-cases (bytes_eq cid x)) [
    | inr other ↦ other
    | inl same ↦
        let e = (bytes_eq_iff cid x).0 same in
        let gone : contains rest x ≡ false =
          ap (contains rest) (sym e) ∙ (Distinct-Picks picked safe.flying).1 in
        let unsent : contains s.sent x ≡ false =
          ap (contains s.sent) (sym e) ∙ safe.apart cid was_in_flight in
        ground (arith, m, gone, unsent)
  ]

  known_before :
      (x : Str) → (contains rest x || contains s.sent x) ≡ true → contains s.broadcasted x ≡ true
  known_before x m = safe.known x (ground (arith, m, rest_in_flight x))

  finished-IsSafe :
      (result : Outcome Error (Unit {0}))
      → IsSafe (record {
        broadcasted = settle cid result s.broadcasted;
        in_flight = rest;
        sent = logged_sent cid result s.sent;
      })
  unfolding settle
  finished-IsSafe (ok _) = record {
    flying = (Distinct-Picks picked safe.flying).0;
    once = (safe.apart cid was_in_flight, safe.once);
    apart = λ x m.
        unfold contains in
        ground (arith, others x (ground (arith, m)), safe.apart x (rest_in_flight x m));
    known = λ x m. elim (Bool-cases (bytes_eq cid x)) [
      | inl same ↦
          ap (contains s.broadcasted) (sym ((bytes_eq_iff cid x).0 same))
          ∙ safe.known cid (ground (arith, was_in_flight))
      | inr other ↦ known_before x (unfold contains in ground (arith, m, other))
    ];
  }
  finished-IsSafe (err e) = record {
    flying = (Distinct-Picks picked safe.flying).0;
    once = safe.once;
    apart = λ x m. safe.apart x (rest_in_flight x m);
    known = λ x m. contains-remove s.broadcasted cid x (others x m) ∙ known_before x m;
  }
  finished-IsSafe panicked = record {
    flying = (Distinct-Picks picked safe.flying).0;
    once = safe.once;
    apart = λ x m. safe.apart x (rest_in_flight x m);
    known = known_before;
  }

Step-IsSafe : (s s' : Flights) → Step s s' → IsSafe s → IsSafe s'
Step-IsSafe s _ (deduplicated cid _) safe = safe
Step-IsSafe s _ (started cid seen claimed) safe =
    let (fresh, e) = claim-some cid s.broadcasted seen claimed in
    subst
      (λ (l : List Str).
        IsSafe (record { broadcasted = l; in_flight = cid ∷ s.in_flight; sent = s.sent }))
      (sym e) (started-IsSafe s cid fresh safe)
Step-IsSafe s _ (finished cid rest result picked) safe =
    finished-IsSafe s cid rest picked safe result

Reachable-IsSafe : (s : Flights) → Reachable s → IsSafe s
unfolding contains
Reachable-IsSafe _ new_indexer = record {
  flying = tt;
  once = tt;
  apart = λ x m. refl;
  known = λ x m. cc;
}
Reachable-IsSafe _ (step {s} {s'} r e) = Step-IsSafe s s' e (Reachable-IsSafe s r)

-- However the critical sections of concurrent broadcasts interleave, and whatever the sends give:
-- no CID is in flight twice, none was sent with success twice, and none is in flight after it was
-- sent.
pub Reachable-Distinct : (s : Flights) → Reachable s → Distinct (s.in_flight ++ s.sent)
Reachable-Distinct s r =
    let safe = Reachable-IsSafe s r in
    Distinct-append s.in_flight s.sent safe.flying safe.once safe.apart
