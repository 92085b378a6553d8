-- ===== src/Lib.antt =====
-- The whistleblower repository: a registry of document CIDs on a chain, an indexer that uploads
-- documents and broadcasts their metadata, and a tool that anchors broadcast CIDs in batches.
--
-- The parts and how they interact. The indexer (document-indexer) uploads a document, gets its
-- CID, and broadcasts an envelope with the CID; its C interface is called by the app. The tool
-- (batch-anchor-cli) polls the broadcasts from a queue file or a bridge, gathers those that its
-- SQLite state does not know, and submits them with `spel anchor-batch` to the program of the
-- registry (cid-registry/src/main.rs). The registry's library (cid-registry/src/lib.rs) has the
-- same transition as a pure function, and the queries.
--
-- Which file models which part:
--   Registry/Types       the constants, `DocumentRecord`, `RegistryState` of cid-registry/src/lib.rs
--   Registry/Anchor      `apply_anchor`, and the search of `query_by_cid`
--   Registry/Account     `initialize`, `anchor_batch` and `query_by_cid`, on accounts
--   Registry/Program     the instructions of cid-registry/src/main.rs
--   Registry/UnitTests   the unit tests of cid-registry/src/lib.rs
--   Indexer/Types        the structs and defaults of document-indexer/src/lib.rs
--   Indexer/Cid          `decode_cid`
--   Indexer/Upload       `upload_with_retry`, `upload_once` and the two uploads
--   Indexer/Broadcast    `broadcast` and the two ways to send
--   Indexer/Anchor       `anchor_batch` and `is_anchored`
--   Indexer/Publish      `hash_envelope` and `upload_and_broadcast`
--   Indexer/Ffi          document-indexer/src/ffi.rs
--   Indexer/UnitTests    the unit tests of document-indexer/src/lib.rs
--   BatchAnchor/Store    the SQLite state of batch-anchor-cli/src/main.rs
--   BatchAnchor/Delivery `poll_delivery`
--   BatchAnchor/Submit   the entries of a batch, and `anchor_via_spel`
--   BatchAnchor/Run      `run`
--   BatchAnchor/Main     the command line, `status` and `main`
--   System/Ledger        what the tool relies on of `spel` and the chain
--   System/Backed        the tool and the deployed program together
--   System/Delivered     from the queue file to a query of the registry, by one run
--   System/Eventually    the same for the whole queue file, by many runs
-- Their child modules hold the proofs, and the modules Tests the runs on small inputs. Common has
-- what the parts share: texts as lists of code points, UTF-8, decimal numbers, lines and words,
-- results and actions. A Rust `Result` is an `Outcome`, whose third case is a panic. Code that
-- acts on the world takes it and returns it beside its result, also beside an error.
--
-- What is a parameter. Accounts and `borsh` are the record `Chain` of Registry/Account; `sha2`,
-- `hex`, `bs58` and `serde_json` are `Crates`, and files, processes, the network and the clock are
-- `Host`, both of Indexer/Host; the statements of SQLite are `Sqlite`, and the tool's machine is
-- `Outside`, both of BatchAnchor/Types. What the code relies on is stated as laws: `IsLawful` of
-- Registry/Account and of BatchAnchor/Store/Laws, `OpenIsLawful` (of the database of one file,
-- opened again), `HexIsLawful`, `U64IsLawful` and `Base58IsLawful`. `spel` and the chain between
-- the tool and the program are the record `Ledger` of System/Ledger. The modules Toys have
-- instances of all of them.
--
-- Invocations. Main/History and Main/Growing (of BatchAnchor) have the invocations of the tool one
-- after another on the database of one file, each in a world of its own, the latter with messages
-- that are appended to the queue file in between. A run that is killed is not modelled, only one
-- that ends, which it does with an error wherever a statement or a command fails. Where a theorem
-- needs that nothing fails, it says so by `Works` of BatchAnchor/Run/Succeeds. The registry as its
-- queries see it, whatever the order of its records, is the quotient `View` of
-- Registry/Anchor/View.
--
-- Bounds and fuel. A `u64` is a natural number; where its size matters a theorem says so. The
-- delay between the attempts of an upload is not bounded as a `Duration` is, which the three
-- attempts that the code makes do not come near. The loop of `run` is on fuel, one unit for each
-- round, and gives `none` while it is not over; with `--once` every round ends the run, so that
-- one unit is enough. The fuel of `trim_start_matches` is the length of its text, of which every
-- round takes some. All other loops are structural.
--
-- What is not modelled: what is printed on the standard error; the parsing of the command line by
-- `clap`; the attribute macros of the program; dangling pointers given to the C interface. Of
-- concurrent calls of one indexer only the broadcasts are, as a step relation in
-- Indexer/Broadcast/Concurrent. The app (basecamp-app), the scripts, the integration tests and the
-- docs are not modelled either.
pub mod Common
pub mod Registry
pub mod Indexer
pub mod BatchAnchor
pub mod System
