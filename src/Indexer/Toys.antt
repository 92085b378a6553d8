-- ===== src/Indexer/Toys.antt =====
-- Small crates and a small host, on which the theorems of the indexer and of the tool are run.
use logos_whistleblower.Common.{
  ℕ, suc, ◌+◌, ◌-◌, ◌*◌, ◌/◌, ◌%◌, ◌<◌, ◌≤◌, ◌≡◌, subst, List, [], ◌∷◌, ◌++◌, true, Option, none,
  some, Str, Bytes, codes, bytes_eq, length, take, replicate, length-take, ltb, ◌==◌, if◌then◌else◌,
  Outcome, ok, err, arith, ok-injective, u64_mod,
}
use logos_whistleblower.Indexer.Types.{
  MetadataEnvelope, BroadcastPayload, IndexerConfig, StorageBackend, logos_core, Error, message,
}
use logos_whistleblower.Indexer.Host.{
  Crates, Host, Output, Response, IsHexDigit, HexIsLawful, U64IsLawful,
}
use logos_whistleblower.Indexer.Cid.Short.{Base58IsLawful}

-- The JSON values that the tests need: a delivery line, its envelope, a document, a registry with
-- one record, its rows and its row.
pub data Json : Type 0 where
  null : Json
  num : ℕ → Json
  text : Str → Json
  line : ℕ → Json
  envelope : ℕ → Json
  document : Str → Json
  registry : Str → Json
  rows : Str → Json
  row : Str → Json

abbrev member : Str → Str → Json → Json
member key name v = if bytes_eq key name then v else null

abbrev get : Json → Str → Json
get (line n) key =
    if bytes_eq key (codes "seq") then num n else member key (codes "payload") (envelope n)
get (document s) key = member key (codes "cid") (text s)
get (registry s) key = member key (codes "records") (rows s)
get (row s) key = member key (codes "cid") (text s)
get _ key = null

abbrev as_str : Json → Option Str
as_str (text s) = some s
as_str _ = none

abbrev as_u64 : Json → Option ℕ
as_u64 (num n) = some (n % u64_mod)
as_u64 _ = none

abbrev as_array : Json → Option (List Json)
as_array (rows s) = some (row s ∷ [])
as_array _ = none

-- One digit is a line, `C…` a document, `R…` a registry.
abbrev from_slice : Bytes → Outcome Error Json
from_slice [] = err (message (codes "end of input"))
from_slice (c ∷ []) = ok (line (c - b'0'))
from_slice (c ∷ s) =
    if c == b'C'
    then ok (document s)
    else if c == b'R'
    then ok (registry s)
    else err (message (codes "no JSON"))

abbrev pub metadata : MetadataEnvelope
metadata = record {
  title = codes "t";
  description = codes "d";
  content_type = codes "text/plain";
  size_bytes = 1;
  timestamp = 1700000000;
  tags = [];
}

-- A CID of 62 characters, which stands for 46 bytes.
abbrev pub cid_of : ℕ → Str
cid_of n = replicate 62 (b'a' + n)

abbrev pub payload_of : ℕ → BroadcastPayload
payload_of n = record { cid = cid_of n; metadata = metadata }

abbrev payload_from_value : Json → Outcome Error BroadcastPayload
payload_from_value (envelope n) = ok (payload_of n)
payload_from_value _ = err (message (codes "no envelope"))

abbrev hex_digit : ℕ → ℕ
hex_digit n = if ltb n 10 then b'0' + n else b'a' + (n - 10)

abbrev hex : Bytes → Str
hex [] = []
hex (b ∷ bs) = hex_digit (b / 16 % 16) ∷ hex_digit (b % 16) ∷ hex bs

abbrev message_of : Error → Str
message_of (message m) = m

abbrev pub toy_crates : Crates
toy_crates = record {
  sha256 = λ bs. replicate 32 (length bs % 256);
  hex = hex;
  base58 = λ s. ok (take (suc (length s * 733 / 1000)) s);
  Json = Json;
  null = null;
  get = get;
  as_str = as_str;
  as_u64 = as_u64;
  as_array = as_array;
  from_slice = from_slice;
  show = λ v. [];
  payload_to_string = λ p. ok p.cid;
  payload_from_value = payload_from_value;
  lossy = λ bs. bs;
  show_error = message_of;
  show_chain = message_of;
}

hex_digit-IsHexDigit : (n : ℕ) → n < 16 → IsHexDigit (hex_digit n)
hex_digit-IsHexDigit n h = ground arith

pub toy_crates-HexIsLawful : HexIsLawful toy_crates
toy_crates-HexIsLawful [] = tt
toy_crates-HexIsLawful (b ∷ bs) = (
  hex_digit-IsHexDigit (b / 16 % 16) (omega arith),
  (hex_digit-IsHexDigit (b % 16) (omega arith), toy_crates-HexIsLawful bs),
)

as_u64-lt : (v : Json) (n : ℕ) → as_u64 v ≡ some n → n < u64_mod
as_u64-lt (num k) n h = ground arith
as_u64-lt null n h = cc
as_u64-lt _ n h = cc

pub toy_crates-U64IsLawful : U64IsLawful toy_crates
toy_crates-U64IsLawful v n h = as_u64-lt v n h

pub toy_crates-Base58IsLawful : Base58IsLawful toy_crates
toy_crates-Base58IsLawful c s bytes other h =
    let size = suc (length (c ∷ s) * 733 / 1000) in
    subst (λ (bs : Bytes). length bs ≤ size) (ok-injective h)
      (omega (arith, length-take size (c ∷ s)))

-- Output of a command that went well.
abbrev pub printed : Str → Output
printed s = record { success = true; code = codes "Some(0)"; stdout = s; stderr = [] }

abbrev pub answered : Bytes → Response
answered body = record { is_success = true; status = codes "200 OK"; body = ok body }

-- A host that counts what is done on it. The first POST of a file fails, and `spel` prints no JSON.
abbrev pub toy_host : Host
toy_host = record {
  World = ℕ;
  var = λ w name. none;
  FilePath = Str;
  temp_path = λ w name. codes "/tmp/" ++ name;
  to_str = λ p. some p;
  write = λ p contents w. (ok tt, w + 1);
  remove_file = λ p w. w + 1;
  sleep = λ ms w. w + ms;
  command = λ program args dir w. (ok (printed (codes "tx_hash: abc")), w + 1);
  post_file = λ url contents w.
      (if w == 0 then err (message (codes "refused")) else ok (answered (b'C' ∷ cid_of 0)), w + 1);
  post_json = λ url payload w. (ok (answered []), w + 1);
  now = λ w. 1700000000;
  build_client = λ w. (ok tt, w);
  new_runtime = λ w. (ok tt, w);
}

abbrev pub config_with : StorageBackend → IndexerConfig
config_with backend = record {
  storage_url = codes "http://s";
  delivery_url = codes "http://d";
  sequencer_url = codes "http://q";
  delivery_topic = codes "a/b";
  backend = backend;
}

abbrev pub by_logos_core : StorageBackend
by_logos_core = logos_core (codes "logoscore") (codes "./modules")
