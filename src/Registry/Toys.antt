-- ===== src/Registry/Toys.antt =====
-- A chain on which the registry's theorems can be run: accounts that hold their data alone, and a
-- byte format that writes lengths in front of sequences.
use logos_whistleblower.Common.{
  ℕ, zero, suc, ◌≡◌, refl, true, false, List, [], ◌∷◌, ◌++◌, Option, none, some, Bytes, length,
  take, drop, take-append, drop-append, ok,
}
use logos_whistleblower.Registry.Types.{DocumentRecord, RegistryState}
use logos_whistleblower.Registry.Account.{Chain, IsLawful}

unfoldable pub encode : List DocumentRecord → Bytes
encode [] = []
encode (r ∷ rs) =
    length r.cid
    ∷ (r.cid ++ (length r.metadata_hash ∷ (r.metadata_hash ++ (r.anchor_timestamp ∷ encode rs))))

-- The hash, the time and the records behind a CID.
decode_rest : Bytes → Bytes → (Bytes → Option (List DocumentRecord)) → Option (List DocumentRecord)
decode_rest cid [] next = none
decode_rest cid (m ∷ bs) next = elim (drop m bs) [
  | [] ↦ none
  | time ∷ rest ↦ elim (next rest) [
    | none ↦ none
    | some rs ↦ some (record { cid = cid; metadata_hash = take m bs; anchor_timestamp = time } ∷ rs)
  ]
]

decode : ℕ → Bytes → Option (List DocumentRecord)
unfolding decode_rest
decode zero bs = some []
decode (suc k) [] = none
decode (suc k) (n ∷ bs) = decode_rest (take n bs) (drop n bs) (decode k)

decode_rest-encode :
    (cid hash : Bytes) (time : ℕ) (rest : Bytes) (next : Bytes → Option (List DocumentRecord))
    (rs : List DocumentRecord)
    → next rest ≡ some rs
    → decode_rest cid (length hash ∷ (hash ++ (time ∷ rest))) next
      ≡ some (record { cid = cid; metadata_hash = hash; anchor_timestamp = time } ∷ rs)
unfolding decode_rest
decode_rest-encode cid hash time rest next rs h =
    rw (drop-append, decode_rest) (rw h (rw take-append))

decode-encode : (rs : List DocumentRecord) → decode (length rs) (encode rs) ≡ some rs
unfolding decode encode
decode-encode [] = refl
decode-encode (r ∷ rs) =
    rw (take-append, drop-append)
      (decode_rest-encode r.cid r.metadata_hash r.anchor_timestamp (encode rs) (decode (length rs))
        rs (decode-encode rs))

unfoldable pub read_state : Bytes → Option RegistryState
unfolding decode
read_state [] = none
read_state (n ∷ bs) = elim (decode n bs) [ none ↦ none | some rs ↦ some (record { records = rs }) ]

pub read_state-encode :
    (s : RegistryState) → read_state (length s.records ∷ encode s.records) ≡ some s
unfolding read_state
read_state-encode s = rw (decode-encode s.records, read_state)

abbrev pub toy_chain : Chain
toy_chain = record {
  Data = Bytes;
  Account = Bytes;
  Metadata = ℕ;
  default = [];
  is_default = λ a. elim a [ [] ↦ true | _ ∷ _ ↦ false ];
  get_data = λ a. a;
  set_data = λ a d. d;
  as_ref = λ d. d;
  try_from = λ bs. ok bs;
  to_vec = λ s. ok (length s.records ∷ encode s.records);
  try_from_slice = read_state;
}

pub toy_chain-IsLawful : IsLawful toy_chain
unfolding encode read_state
toy_chain-IsLawful = record {
  get-set = λ a d. refl;
  as_ref-try_from = λ bs d h. cc;
  read-write = λ s bs h. cc (read_state-encode s);
}
