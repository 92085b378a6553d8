-- ===== src/Indexer/Upload.antt =====
-- document-indexer/src/lib.rs: `upload_with_retry`, `upload_once` and the two uploads.
pub mod Retry
pub mod Expression
use mathlib.Core.Option.{or_else}
use logos_whistleblower.Common.{
  ℕ, zero, suc, ◌≡◌, refl, ◌+◌, ◌*◌, List, [], ◌∷◌, ◌++◌, Bool, true, false, not, ◌||◌, Option,
  none, some, Str, Bytes, codes, has_char, ltb, if◌then◌else◌, Outcome, ok, err, panicked, ok_or,
  map_err, ◌>>=◌ as ◌>>?◌,
}
use logos_whistleblower.Common.Effects.{Action, pure, lift, gets, effect, ◌>>=◌, ◌>>◌}
use logos_whistleblower.Indexer.Types.{
  StorageBackend, logos_core, http, Error, message, IndexerConfig,
}
use logos_whistleblower.Indexer.Host.{Crates, Host, Output, Response}

-- `bail!` and `ok_or_else`
abbrev pub ensure : {W : Type 0} → Bool → Str → Action W Error (Unit {0})
ensure true msg = pure tt
ensure false msg = lift (err (message msg))

pub ensure-world : {W : Type 0} (b : Bool) (msg : Str) (w : W) → (ensure b msg w).1 ≡ w
ensure-world true msg w = refl
ensure-world false msg w = refl

pub ensure-then-world :
    {W A : Type 0} (b : Bool) (msg : Str) (r : Outcome Error A) (w : W)
    → ((ensure b msg >> lift r) w).1 ≡ w
ensure-then-world true msg r w = refl
ensure-then-world false msg r w = refl

module _ {W : Type 0} (sleep : ℕ → W → W) (upload_once : Action W Error Str)
    (max_attempts : ℕ) where
  -- What follows the attempt with this result: `again` is the rest of the loop.
  abbrev after_attempt : ℕ → ℕ → Outcome Error Str → W → Action W Error Str → Outcome Error Str × W
  after_attempt attempt delay (ok cid) w again = (ok cid, w)
  after_attempt attempt delay (err e) w again =
      if ltb attempt max_attempts then again (sleep delay w) else (err e, w)
  after_attempt attempt delay panicked w again = (panicked, w)

  -- The rounds of `for attempt in 1..=max_attempts` that are left. Delays are in milliseconds; the
  -- messages on the standard error are left out, and so is the overflow of the `Duration`, which
  -- three attempts do not reach.
  unfoldable pub retry_loop : ℕ → ℕ → ℕ → Action W Error Str
  retry_loop zero attempt delay w = (panicked, w)
  retry_loop (suc rounds) attempt delay w =
      let (r, w') = upload_once w in
      after_attempt attempt delay r w' (retry_loop rounds (attempt + 1) (delay * 2))

-- `body["cid"]`, or `body["result"]["cid"]`, where it is a text
abbrev pub cid_of : (K : Crates) → K.Json → Option Str
cid_of K body =
    or_else (K.as_str (K.get body (codes "cid")))
      (K.as_str (K.get (K.get body (codes "result")) (codes "cid")))

unfoldable pub upload_expr : Str → Str
upload_expr tmp_str = codes "storage.upload(\"" ++ (tmp_str ++ codes "\", \"whistleblower-doc\")")

abbrev pub upload_args : Str → Str → List Str
upload_args modules_dir expr =
    codes "-m"
    ∷ modules_dir
    ∷ codes "-l"
    ∷ codes "agent_module"
    ∷ codes "-c"
    ∷ expr
    ∷ codes "--quit-on-finish"
    ∷ codes "--json-output"
    ∷ []

module _ (K : Crates) (H : Host) (config : IndexerConfig) where
  -- What is made of the output of `logoscore`.
  abbrev pub cid_in : Output → Outcome Error Str
  cid_in out =
      map_err
        (λ e. message (
          codes "storage_module response not JSON: "
          ++ (K.show_error e ++ (codes ": " ++ K.lossy out.stdout))))
        (K.from_slice out.stdout)
      >>? λ body.
          ok_or (cid_of K body)
            (message (codes "missing cid in storage_module response: " ++ K.show body))

  -- The temporary file of a document.
  abbrev pub temp_file : Bytes → H.World → H.FilePath
  temp_file contents w = H.temp_path w (codes "whistleblower-upload-" ++ K.hex (K.sha256 contents))

  unfoldable pub upload_via_logoscore : Bytes → Str → Str → Action H.World Error Str
  unfolding upload_expr
  upload_via_logoscore contents logoscore_bin modules_dir = do
    tmp ← gets (temp_file contents)
    H.write tmp contents
    tmp_str ← lift (ok_or (H.to_str tmp) (message (codes "temp path is not valid UTF-8")))
    ensure (not (has_char b'"' tmp_str || has_char 0x5C tmp_str))
        (codes "temp path contains characters unsafe for the logoscore expression")
    out ← H.command logoscore_bin (upload_args modules_dir (upload_expr tmp_str)) none
    effect (H.remove_file tmp)
    ensure out.success (codes "storage_module upload failed: " ++ K.lossy out.stderr)
    lift (cid_in out)

  unfoldable pub upload_via_http : Bytes → Action H.World Error Str
  upload_via_http contents = do
    resp ← H.post_file (config.storage_url ++ codes "/upload") contents
    ensure resp.is_success (codes "storage upload failed: " ++ resp.status)
    body ← lift (resp.body >>? K.from_slice)
    lift (
        ok_or (K.as_str (K.get body (codes "cid")))
          (message (codes "missing cid in storage response")))

  abbrev upload_by : StorageBackend → Bytes → Action H.World Error Str
  upload_by (logos_core bin dir) contents = upload_via_logoscore contents bin dir
  upload_by http contents = upload_via_http contents

  unfoldable pub upload_once : Bytes → Action H.World Error Str
  upload_once contents = upload_by config.backend contents

  unfoldable pub upload_with_retry : Bytes → ℕ → Action H.World Error Str
  upload_with_retry contents max_attempts =
      retry_loop H.sleep (upload_once contents) max_attempts max_attempts 1 200
