-- ===== src/Lib.antt =====
-- Verification library of the hydra subsystem: the shrubs accumulator, the messages between
-- attester, verifier and relying party, and the state of the two servers; and of the measurement
-- logs, tokens, components and policies that the verifier checks.
--
-- The program. An attester sends the verifier a signed submission with a leaf. The verifier
-- collects submissions for a batch interval, inserts their leaves into an accumulator (a list of
-- Merkle roots, one for each layer), and sends each attester a path, tags and a signature, and
-- everybody the new roots. The attester proves with Groth16 that its leaf leads to a root and that
-- the authorized information is that of its measurement, and sends the proof to the relying party,
-- which checks it against the roots that it has cached. Apart from that, the verifier checks the
-- event log and the IMA log of a TEE against the registers of its report, the evidence of virtCCA
-- and of Hygon CSV, and, in its service, evidence of each kind of TEE: it calls an appraiser, a
-- component that it has registered, checks the claims against lists of trusted values, and signs a
-- token.
--
-- Which file models what (paths from the repository's root):
--   Prelude, Outcome, Bytes: numbers, lists, errors, big-endian integers, `Duration`, UTF-8.
--   Crypto: types and operations of other crates as parameters, with their laws.
--   Shrubs: hydra-toolkit/src/shurbstree.rs (roots, insertion, owner roots).
--   ShrubsPath: hydra-toolkit/src/shurbstree.rs (paths), attester/src/lib.rs (membership).
--   Wire, Messages: hydra-toolkit/src/lib.rs (codec, messages, frames).
--   Evidence: hydra-toolkit/src/lib.rs (evidence replies, what is signed).
--   RelyingParty: relying-party/src/lib.rs, relying-party/src/hydra_listener.rs.
--   Daemon: verifier/src/hydra_daemon.rs (state, queueing, a batch under the lock).
--   Authorization: verifier/src/lib.rs, verifier/src/hydra_daemon.rs (requests, responses),
--     hydra-toolkit/src/lib.rs (leaf and authorized information), attester/src/lib.rs (circuit).
--   Sealing: hydra-toolkit/src/lib.rs (the encrypted response).
--   Delivery: verifier/src/hydra_daemon.rs (what a batch sends, and in which order).
--   Config: attester/src/lib.rs (the device's configuration, its file, its evidence).
--   EventLog: evidence-verify/src/eventlog_rs/mod.rs, enums.rs and bios_eventlog.rs there (parsers).
--   Registers: evidence-verify/src/eventlog_rs/mod.rs (replay),
--     evidence-verify/src/virtcca/event_log.rs (verification of a log).
--   Ima: evidence-verify/src/ima (mod.rs, virtcca.rs, itrustee.rs).
--   Policy: verifier/src/grpc.rs and verifier/src/config.rs (policies for CCA and TDX).
--   Cbor, Token: evidence-verify/src/virtcca/ccatoken.rs (the tokens of virtCCA).
--   Keys, Virtcca: evidence-verify/src/virtcca/mod.rs (keys, chains, signatures, evidence).
--   Sm2, Csv: evidence-verify/src/csv (mod.rs, report.rs, sm2.rs).
--   Json: the values of serde_json that the verifier reads and writes.
--   Components: verifier/src/wasm_host.rs (whitelist, registry, call of an appraiser).
--   Natives: verifier/src/cca_native.rs, csv_native.rs, itrustee_native.rs and virtcca_native.rs
--     there (checks of the host).
--   Grpc: verifier/src/grpc.rs and verifier/src/ear.rs (trust vector, injected claims).
--   Service: verifier/src/grpc.rs and verifier/src/ear.rs (the handler).
--   Runs: runs on concrete inputs.
-- The functions have the names of the source. A call gives a value, an error, a panic, or `stuck`
-- where the fuel of a recursion ran out; the theorems give results, so that the fuel is enough.
--
-- Bounds and fuel. `usize` and `u64` are numbers, bounded where the wire format or an allocation
-- bounds them: eight bytes for a length, 2^63 - 1 bytes for a vector, 512 MiB for a frame. The
-- loops over layers have the number of leaves as fuel, and each layer is at most half of the last.
-- The parsers of event logs have the length of the log as fuel, and each round takes at least eight
-- bytes of it. What is encrypted is within AES-GCM's limit of 2^36 - 32 bytes.
--
-- Outside of the model: Poseidon, Groth16, ECDSA, ark-serialize, ECDH, HKDF, AES-GCM and SHA-256 are
-- parameters, with the laws that a theorem needs as its hypotheses. Sockets and files are not
-- modelled: sending is a list of attempts, a file is its bytes, and whether a write succeeds, the
-- clock, random numbers and the measurement file are arguments. The crates ciborium, serde_json,
-- openssl, cose, ccatoken, csv-rs and wasmtime are parameters. The appraisers themselves, the
-- library of iTrustee, and the collection of evidence are not modelled.
pub mod Authorization
pub mod Bytes
pub mod Cbor
pub mod Components
pub mod Config
pub mod Crypto
pub mod Csv
pub mod Daemon
pub mod Delivery
pub mod EventLog
pub mod Evidence
pub mod Grpc
pub mod Ima
pub mod Json
pub mod Keys
pub mod Messages
pub mod Natives
pub mod Outcome
pub mod Policy
pub mod Prelude
pub mod Registers
pub mod RelyingParty
pub mod Runs
pub mod Sealing
pub mod Service
pub mod Shrubs
pub mod ShrubsPath
pub mod Sm2
pub mod Token
pub mod Virtcca
pub mod Wire
