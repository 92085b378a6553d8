-- ===== src/BatchAnchor/Delivery.antt =====
-- batch-anchor-cli/src/main.rs: `poll_delivery`.
pub mod Queue
pub mod Drain
pub mod Bounds
pub mod Source
use logos_whistleblower.Common.{
  ℕ, zero, suc, as_bytes, length, List, [], ◌∷◌, ◌++◌, Bool, true, false, Option, none, some, Str,
  Bytes, codes, lines, trim, strip_prefix, to_string, leb, if◌then◌else◌, Outcome, ok, err,
  panicked, map_err, ◌>>=◌ as ◌>>?◌,
}
use logos_whistleblower.Common.Effects.{Action, lift, gets, pure, ◌>>=◌}
use logos_whistleblower.Indexer.Types.{Error, message, unwrap_or, BroadcastPayload}
use logos_whistleblower.Indexer.Host.{Crates}
use logos_whistleblower.BatchAnchor.Types.{
  DeliveryMsg, FileText, text, not_found, io_error, Outside,
}

-- `anyhow`'s context becomes the message.
abbrev pub with_context : {A : Type 0} → Str → Outcome Error A → Outcome Error A
with_context msg = map_err (λ _. message msg)

-- `sort_by_key(|m| m.seq)`, which is stable: an insertion goes before the first that is not below.
insert_by_seq : DeliveryMsg → List DeliveryMsg → List DeliveryMsg
insert_by_seq m [] = m ∷ []
insert_by_seq m (x ∷ xs) = if leb m.seq x.seq then m ∷ x ∷ xs else x ∷ insert_by_seq m xs

unfoldable pub sort_by_seq : List DeliveryMsg → List DeliveryMsg
unfolding insert_by_seq
sort_by_seq [] = []
sort_by_seq (m ∷ ms) = insert_by_seq m (sort_by_seq ms)

-- `trim_start_matches(prefix)`: on fuel, which the length of the text bounds.
unfoldable pub trim_start_matches : Str → ℕ → Str → Str
trim_start_matches prefix zero s = s
trim_start_matches prefix (suc fuel) s = elim (strip_prefix prefix s) [
  | none ↦ s
  | some rest ↦ trim_start_matches prefix fuel rest
]

module _ (K : Crates) where
  abbrev pub seq_of : K.Json → ℕ
  seq_of v = unwrap_or (K.as_u64 (K.get v (codes "seq"))) 0

  abbrev pub payload_of : K.Json → Outcome Error BroadcastPayload
  payload_of v = K.payload_from_value (K.get v (codes "payload"))

  -- A line that is kept: the rest is read unless the limit is reached.
  abbrev keep :
      ℕ
      → ℕ
      → BroadcastPayload
      → ℕ
      → Outcome Error (List DeliveryMsg)
      → Outcome Error (List DeliveryMsg)
  keep limit kept payload seq rest = (if leb limit (suc kept) then ok [] else rest) >>? λ out.
      ok (record { seq = seq; payload = payload } ∷ out)

  -- The loop over the lines, when `kept` messages are in `out`.
  unfoldable pub read_lines : ℕ → ℕ → ℕ → List Str → Outcome Error (List DeliveryMsg)
  read_lines after limit kept [] = ok []
  read_lines after limit kept (line ∷ more) =
      let skip = read_lines after limit kept more in
      let rest = read_lines after limit (suc kept) more in
      elim (trim line) [
        | [] ↦ skip
        | c ∷ cs ↦
            with_context (codes "malformed delivery line") (K.from_slice (as_bytes (c ∷ cs)))
            >>? λ v.
                if leb (seq_of v) after
                then skip
                else with_context (codes "malformed envelope payload") (payload_of v) >>? λ payload.
                    keep limit kept payload (seq_of v) rest
      ]

  unfoldable pub poll_file : ℕ → ℕ → Str → Outcome Error (List DeliveryMsg)
  unfolding read_lines sort_by_seq
  poll_file after limit contents =
      read_lines after limit 0 (lines contents) >>? λ out. ok (sort_by_seq out)

  -- The loop over the messages of the bridge, which leaves out what is no payload.
  unfoldable pub read_messages : List K.Json → List DeliveryMsg
  read_messages [] = []
  read_messages (msg ∷ more) =
      let rest = read_messages more in
      elim (payload_of msg) [
        | ok payload ↦ record { seq = seq_of msg; payload = payload } ∷ rest
        | _ ↦ rest
      ]

  -- `.json::<Vec<Value>>().unwrap_or_default()`
  abbrev pub messages_of : Outcome Error Bytes → List K.Json
  messages_of body = elim (body >>? K.from_slice) [ ok v ↦ unwrap_or (K.as_array v) [] | _ ↦ [] ]

  module _ (O : Outside) where
    abbrev pub poll_http : Str → Str → ℕ → ℕ → Action O.World Error (List DeliveryMsg)
    poll_http url topic after limit = do
      body ← O.http_get (
          url
          ++ (codes "/messages/"
              ++ (topic
                  ++ (codes "?after="
                      ++ (to_string after ++ (codes "&limit=" ++ to_string limit))))))
      pure (read_messages (messages_of body))

    abbrev pub from_text : ℕ → ℕ → FileText → Outcome Error (List DeliveryMsg)
    from_text after limit (text contents) = poll_file after limit contents
    from_text after limit not_found = ok []
    from_text after limit (io_error e) = err (message (codes "reading delivery queue"))

    -- The branches on `strip_prefix("file:")` and `strip_prefix("http:")`.
    abbrev pub poll_by :
        Str → Str → ℕ → ℕ → Option Str → Option Str → Action O.World Error (List DeliveryMsg)
    poll_by source topic after limit (some path) _ w =
        (from_text after limit (O.read_to_string w path), w)
    poll_by source topic after limit none (some _) w =
        poll_http (trim_start_matches (codes "http:") (length source) source) topic after limit w
    poll_by source topic after limit none none w = (
      err (
          message (
            codes "unknown --delivery-source '"
            ++ (source ++ codes "' (use file:<path> or http:<url>)"))),
      w,
    )

    unfoldable pub poll_delivery : Str → Str → ℕ → ℕ → Action O.World Error (List DeliveryMsg)
    unfolding poll_file read_messages trim_start_matches
    poll_delivery source topic after limit =
        poll_by source topic after limit (strip_prefix (codes "file:") source)
          (strip_prefix (codes "http:") source)
