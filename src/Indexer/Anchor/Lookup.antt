-- ===== src/Indexer/Anchor/Lookup.antt =====
-- What `is_anchored` makes of an inspection that fails.
use logos_whistleblower.Common.{◌≡◌, refl, ap, false, none, Str, Bytes, codes, ok, err}
use logos_whistleblower.Indexer.Types.{Error}
use logos_whistleblower.Indexer.Host.{Crates, Host, Output}
use logos_whistleblower.Indexer.Cid.{decode_cid}
use logos_whistleblower.Indexer.Anchor.{answer, inspected, is_anchored}

-- For a CID that decodes, and where null has no records: an inspection that runs and has no JSON on
-- its output, as of a `spel` that failed, is told as a CID that is not anchored. No error is
-- returned, whatever the exit status is.
pub is_anchored_unreadable :
    (K : Crates) (H : Host) (cid : Str) (bytes : Bytes) (out : Output) (e : Error) (w : H.World)
    → decode_cid K cid ≡ ok bytes
    → (inspected K H w).0 ≡ ok out
    → K.from_slice out.stdout ≡ err e
    → K.as_array (K.get K.null (codes "records")) ≡ none
    → is_anchored K H cid w ≡ (ok false, (inspected K H w).1)
unfolding is_anchored
is_anchored_unreadable K H cid bytes out e w decoded ran unread no_records =
    let no : answer K H bytes out ≡ false = rw unread (rw no_records refl) in
    rw decoded (rw ran (ap (λ b. (ok b, (inspected K H w).1)) no))
