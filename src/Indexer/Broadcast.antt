-- ===== src/Indexer/Broadcast.antt =====
-- document-indexer/src/lib.rs: `broadcast`, with its set of CIDs, and the two ways to send.
pub mod Dedup
pub mod Concurrent
pub mod Expression
use logos_whistleblower.Common.{
  ℕ, List, [], ◌∷◌, ◌++◌, Bool, true, false, not, ◌&&◌, ◌||◌, Option, none, some, Str, Bytes, codes,
  as_bytes, all, contains, remove, leb, ◌==◌, if◌then◌else◌, Outcome, ok, err, panicked, is_err,
}
use logos_whistleblower.Common.Effects.{Action, pure, lift, ◌>>=◌, ◌>>◌}
use logos_whistleblower.Indexer.Types.{
  BroadcastPayload, StorageBackend, logos_core, http, Error, message, IndexerConfig,
}
use logos_whistleblower.Indexer.Host.{Crates, Host, Output, Response}
use logos_whistleblower.Indexer.Upload.{ensure}

-- `b.is_ascii_alphanumeric() || matches!(b, b'/' | b'.' | b'-' | b'_')`
unfoldable pub allowed : ℕ → Bool
allowed b =
    (leb b'0' b && leb b b'9')
    || (leb b'A' b && leb b b'Z')
    || (leb b'a' b && leb b b'z')
    || b == b'/'
    || b == b'.'
    || b == b'-'
    || b == b'_'

abbrev is_empty : Str → Bool
is_empty [] = true
is_empty (_ ∷ _) = false

unfoldable pub topic_is_safe : Str → Bool
unfolding allowed
topic_is_safe topic = not (is_empty topic) && all allowed (as_bytes topic)

-- `send("…", "…")`
unfoldable pub send_expr : Str → Str → Str
send_expr topic payload = codes "send(\"" ++ (topic ++ (codes "\", \"" ++ (payload ++ codes "\")")))

abbrev pub send_args : Str → Str → List Str
send_args modules_dir expr =
    codes "-m"
    ∷ modules_dir
    ∷ codes "-l"
    ∷ codes "delivery_module"
    ∷ codes "-c"
    ∷ expr
    ∷ codes "--quit-on-finish"
    ∷ codes "--json-output"
    ∷ []

-- The world and the set `broadcasted` of an indexer.
pub record Session (W : Type 0) : Type 0 where
  pub world : W
  pub broadcasted : List Str

-- The first critical section: `none` where the CID is there already.
unfoldable pub claim : Str → List Str → Option (List Str)
claim cid seen = if contains seen cid then none else some (cid ∷ seen)

-- The second one, on the result of the send.
unfoldable pub settle : Str → Outcome Error (Unit {0}) → List Str → List Str
settle cid result seen = if is_err result then remove seen cid else seen

module _ {W : Type 0} (send : BroadcastPayload → Action W Error (Unit {0})) where
  -- `broadcast`, over the way to send.
  unfoldable pub broadcast_with : BroadcastPayload → Action (Session W) Error (Unit {0})
  unfolding claim settle
  broadcast_with payload s = elim (claim payload.cid s.broadcasted) [
    | none ↦ (ok tt, s)
    | some seen ↦
        let (result, w) = send payload s.world in
        (result, record { world = w; broadcasted = settle payload.cid result seen })
  ]

module _ (K : Crates) (H : Host) (config : IndexerConfig) where
  unfoldable pub broadcast_via_logoscore :
      BroadcastPayload → Str → Str → Action H.World Error (Unit {0})
  unfolding topic_is_safe send_expr
  broadcast_via_logoscore payload logoscore_bin modules_dir = do
    ensure (topic_is_safe config.delivery_topic) (codes "delivery_topic must be [A-Za-z0-9._/-]+")
    json ← lift (K.payload_to_string payload)
    out ←
        H.command logoscore_bin
          (send_args modules_dir (send_expr config.delivery_topic (K.hex (as_bytes json)))) none
    ensure out.success (codes "delivery_module send failed: " ++ K.lossy out.stderr)

  unfoldable pub broadcast_via_http : BroadcastPayload → Action H.World Error (Unit {0})
  broadcast_via_http payload = do
    resp ← H.post_json (config.delivery_url ++ (codes "/publish/" ++ config.delivery_topic)) payload
    ensure resp.is_success (codes "delivery broadcast failed: " ++ resp.status)

  abbrev pub send_by : StorageBackend → BroadcastPayload → Action H.World Error (Unit {0})
  send_by (logos_core bin dir) payload = broadcast_via_logoscore payload bin dir
  send_by http payload = broadcast_via_http payload

  unfoldable pub broadcast : BroadcastPayload → Action (Session H.World) Error (Unit {0})
  unfolding broadcast_with
  broadcast = broadcast_with (send_by config.backend)
