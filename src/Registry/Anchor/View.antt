-- ===== src/Registry/Anchor/View.antt =====
-- The registry as its queries see it: registries that answer every search alike are one.
use mathlib.Core.Option.{or_else}
use mathlib.Core.Path.{fun_ext}
use mathlib.Core.Quot
use mathlib.Core.Quot.{Quot, Quot-set}
use logos_whistleblower.Common.{
  ◌⊎◌, ◌≡◌, refl, sym, ap, ◌∙◌, true, false, List, [], ◌∷◌, ◌++◌, Option, none, some, Bytes, find,
  contains, ok, arith, Bool-cases, inl, inr,
}
use logos_whistleblower.Registry.Types.{DocumentRecord, RegistryState, Entry, cids}
use logos_whistleblower.Registry.Anchor.{apply_anchor, find_cid}
use logos_whistleblower.Registry.Anchor.Added.{added, apply_anchor-inv, apply_anchor_of_sized}
use logos_whistleblower.Registry.Anchor.Lookup.{first_entry, find_cid-join}
use logos_whistleblower.Registry.Program.Refines.{entry_cids}

abbrev AnswersAlike : RegistryState → RegistryState → Type 0
AnswersAlike s t = (cid : Bytes) → find_cid cid s.records ≡ find_cid cid t.records

abbrev pub View : Type 0
View = Quot AnswersAlike

abbrev pub view : RegistryState → View
view = Quot.mk

records_set : IsSet (Option DocumentRecord)
records_set = hlevel

-- The search for a CID.
pub lookup : Bytes → View → Option DocumentRecord
lookup cid = Quot.lift records_set (λ s. find_cid cid s.records) (λ s t h. h cid)

joined : List Entry → RegistryState → RegistryState
joined entries s = record { records = s.records ++ added (cids s.records) entries }

joined-AnswersAlike :
    (entries : List Entry) (s t : RegistryState)
    → AnswersAlike s t
    → AnswersAlike (joined entries s) (joined entries t)
unfolding joined
joined-AnswersAlike entries s t h cid =
    find_cid-join cid s.records entries
    ∙ ap (λ o. or_else o (first_entry cid entries)) (h cid)
    ∙ sym (find_cid-join cid t.records entries)

-- What a batch does to a view.
pub register : List Entry → View → View
register entries =
    Quot.lift Quot-set (λ s. view (joined entries s))
      (λ s t h. Quot.sound (joined-AnswersAlike entries s t h))

pub lookup-register :
    (entries : List Entry) (cid : Bytes) (v : View)
    → lookup cid (register entries v) ≡ or_else (lookup cid v) (first_entry cid entries)
unfolding lookup register joined
lookup-register entries cid =
    Quot.ind (λ v. records_set _ _) (λ s. find_cid-join cid s.records entries)

-- Views with the same searches are equal.
pub view_ext : (v w : View) → ((cid : Bytes) → lookup cid v ≡ lookup cid w) → v ≡ w
unfolding lookup
view_ext =
    Quot.ind (λ v f g. fun_ext (λ w. fun_ext (λ h. Quot-set v w (f w h) (g w h))))
      (λ s.
        Quot.ind (λ w f g. fun_ext (λ h. Quot-set (view s) w (f h) (g h))) (λ t h. Quot.sound h))

-- No CID is in both batches.
abbrev pub Apart : List Entry → List Entry → Type 0
Apart es fs = (x : Bytes) → contains (entry_cids es) x ≡ true → contains (entry_cids fs) x ≡ false

first_entry-none :
    (cid : Bytes) (entries : List Entry)
    → contains (entry_cids entries) cid ≡ false
    → first_entry cid entries ≡ none
unfolding find contains
first_entry-none cid [] h = refl
first_entry-none cid (e ∷ entries) h = ground (arith, first_entry-none cid entries)

or_else_swap :
    (old a b : Option DocumentRecord)
    → (a ≡ none) ⊎ (b ≡ none)
    → or_else (or_else old a) b ≡ or_else (or_else old b) a
unfolding or_else
or_else_swap (some r) a b _ = refl
or_else_swap none none none _ = refl
or_else_swap none none (some s) _ = refl
or_else_swap none (some r) none _ = refl
or_else_swap none (some r) (some s) (inl e) = cc
or_else_swap none (some r) (some s) (inr e) = cc

-- Batches that have no CID in common can be registered in either order.
pub register_comm :
    (es fs : List Entry) (v : View)
    → Apart es fs
    → register fs (register es v) ≡ register es (register fs v)
register_comm es fs v apart = view_ext _ _ (λ cid.
    lookup-register fs cid (register es v)
    ∙ ap (λ o. or_else o (first_entry cid fs)) (lookup-register es cid v)
    ∙ or_else_swap (lookup cid v) (first_entry cid es) (first_entry cid fs) (one cid)
    ∙ sym (
        lookup-register es cid (register fs v)
        ∙ ap (λ o. or_else o (first_entry cid es)) (lookup-register fs cid v)))
  where
    one : (cid : Bytes) → (first_entry cid es ≡ none) ⊎ (first_entry cid fs ≡ none)
    one cid = elim (Bool-cases (contains (entry_cids es) cid)) [
      | inl there ↦ inr (first_entry-none cid fs (apart cid there))
      | inr absent ↦ inl (first_entry-none cid es absent)
    ]

-- A batch that `apply_anchor` accepts does to the view what `register` says.
pub view-apply_anchor :
    (state state' : RegistryState) (entries : List Entry)
    → apply_anchor state entries ≡ ok state'
    → view state' ≡ register entries (view state)
unfolding register joined
view-apply_anchor state state' entries h =
    ap view (record_path (apply_anchor-inv state state' entries h).2)
  where
    record_path :
        {rs : List DocumentRecord} → state'.records ≡ rs → state' ≡ record { records = rs }
    record_path e = λ i. record { records = e i }

-- Two batches that have no CID in common and that `apply_anchor` accepts on a registry are accepted one
-- after the other, in either order, and then every search gives the same: the two
-- registries are one view, which is what `register` makes of the view before.
pub apply_anchor_commutes :
    (state a b : RegistryState) (es fs : List Entry)
    → Apart es fs
    → apply_anchor state es ≡ ok a
    → apply_anchor state fs ≡ ok b
    → (ab ba : RegistryState) × (apply_anchor a fs ≡ ok ab)
      × (apply_anchor b es ≡ ok ba)
      × (view ab ≡ view ba)
      × (view ab ≡ register fs (register es (view state)))
apply_anchor_commutes state a b es fs apart first second =
    let (sized_es, small_es, _) = apply_anchor-inv state a es first in
    let (sized_fs, small_fs, _) = apply_anchor-inv state b fs second in
    let then_fs = apply_anchor_of_sized a fs sized_fs small_fs in
    let then_es = apply_anchor_of_sized b es sized_es small_es in
    let one_way =
      view-apply_anchor a _ fs then_fs ∙ ap (register fs) (view-apply_anchor state a es first) in
    let other_way =
      view-apply_anchor b _ es then_es ∙ ap (register es) (view-apply_anchor state b fs second) in
    (
      _,
      _,
      then_fs,
      then_es,
      one_way ∙ register_comm es fs (view state) apart ∙ sym other_way,
      one_way,
    )
