-- ===== src/Lib.antt =====
-- The contracts, the wallet tree and the verification of authorizations of @sigbash/sdk.
--
-- The SDK prepares, checks and signs Bitcoin transactions under policies. What its parts agree on
-- are bytes: the contracts under src/contracts are versioned encodings that a wallet, a sync server
-- and a signing service each produce and check; src/wallet turns a wallet's signers into a Taproot
-- tree; src/authorization decides whether a signed artifact authorizes a transaction. Its checklist
-- (verify.ts) decodes the artifact with the contract's decoder, takes the issuer's key from a loaded
-- key set (issuerKeySet.ts), parses the proof envelope (envelope.ts), compares its pin aggregate with
-- the signed commitment (adapterRegistry.ts), and lets the registered adapter of the subject kind
-- check the raw subject and derive its challenge again; the adapter for PSBTs (bitcoinPsbtAdapter.ts)
-- reads the PSBT (psbt.ts) and hashes with the preimages of src/contracts/authorizationSubject.ts.
-- The modules call one another downwards: every contract is built on src/contracts/encoding.ts, the
-- tree uses its tagged hash, and the PSBT reader shares `compactSize` with the sighash preimages.
--
-- The files:
--   Prelude           shared names, Boolean tests, lists, and results with the errors thrown
--   Bytes             src/contracts/encoding.ts: u8be to u64be, concatBytes, lengthDelimited,
--                     contractHeader; Bytes/Decoder: readBytes to readContractHeader, and the usual
--                     body of a decoder; Bytes/LittleEndian: the little-endian numbers of
--                     src/contracts/authorizationArtifact.ts. Bytes/Reads, Fields, Whole, Prefixes
--                     and Ensures hold the rules by which the codecs are proved; Bytes/Hex: bytesToHex
--                     and hexToBytes
--   Calls             calls that may throw in sequence, and what holds of every value they return
--   Json              the values that JSON.parse gives, and the code's tests on them
--   Text              JavaScript strings, TextEncoder and TextDecoder, after the Encoding Standard
--   Contracts/Codes   the code tables of network.ts, proposal.ts, policy.ts, signingSession.ts,
--                     policyKeyAccess.ts, protocolAuthority.ts and walletDescriptor.ts
--   Contracts/Fields  text fields and taggedHash
--   Contracts/ApprovalCommitment      src/contracts/approvalCommitment.ts
--   Contracts/SyncEnvelope            src/contracts/syncEnvelope.ts, the event header
--   Contracts/AuthorizationArtifact   src/contracts/authorizationArtifact.ts, the codec
--   Contracts/AuthorizationSubject    src/contracts/authorizationSubject.ts: the sighashes; in its
--                     Aggregates the pin and burn aggregates, the action key and the scope
--   Contracts/Policy  src/contracts/policyAst.ts (Texts: canonicalJson; Canonical, Canonicalize:
--                     canonicalizeNode and parseCanonicalPolicyAst) and src/contracts/policyEncoding.ts
--                     (Encode, Decode)
--   Contracts/WalletDescriptor        src/contracts/walletDescriptor.ts
--   Wallet/TapTree    src/wallet/taptree.ts: leaf scripts, hashes, hash order, the balanced split
--                     with the Merkle paths, control blocks
--   Authorization/Psbt    src/authorization/psbt.ts: parseTransaction, readSection, parsePsbtBytes
--                     (Fields, Globals: the entries of BIP-174's maps by what they mean)
--   Authorization/Envelope        src/authorization/envelope.ts
--   Authorization/Adapters        src/authorization/adapterRegistry.ts, the registry as a list
--   Authorization/BitcoinPsbt     src/authorization/bitcoinPsbtAdapter.ts: checkVerifiable, and in its
--                     Rederive rederiveCompletingEHat with authzBeta and authzEHat
--                     (Challenge says what a challenge is bound to)
--   Authorization/IssuerKeySet    src/authorization/issuerKeySet.ts: Parse, Load with the cache as a
--                     list, issuerKeyForKid; Compare: constantTimeCompare of src/wasm-loader.ts
--   Authorization/Verify          src/authorization/verify.ts: verifyAuthorization as a chain of steps
--                     that pass, refuse with a reason at a step, or throw
--   Wallet/InputCount  src/wallet/psbtInputCount.ts
--   Runs              the theorems at concrete inputs
--
-- How the code is read. A Uint8Array is the list of its bytes, a number without a sign is a native
-- natural, and a call that may throw returns a result with the class of its error, without the
-- message. The names are the source's in another spelling (encodeApprovalCommitmentV1 is
-- encode_approval_commitment). A decoder with a moving offset is a function from the offset's state
-- to a value and the next state. Arguments of concatBytes that may throw are evaluated from left to
-- right. Array.sort with a comparison of 32 bytes is a stable insertion.
--
-- Bounds and fuel. The section loop of the PSBT reader runs on one round more than there are bytes;
-- every entry takes a byte at least. The split of the tree runs on the 129 levels that its depth
-- bound allows. The policy decoder runs on the length of its input, as every node takes a byte, and
-- the scan for the input count on one round more than that. Script numbers take four rounds, which empty every number below 2 ^ 31. A bigint that
-- becomes a number is rounded as IEEE 754 rounds it.
--
-- Not modelled. SHA-256 is another package's: it is a parameter, of which the tree and the sighashes
-- assume digests of 32 bytes. So are SHA-384, the Ed25519 check, the compression function and the
-- nonce derivation (curve arithmetic), and of the runtime JSON.parse, JSON.stringify of a number and
-- of a string, fetch, toLowerCase, encodeURIComponent, atob, the class of white space, and the clock.
-- Key derivation, the output key's tweak, bech32m and signatures are curve arithmetic of other
-- packages. Sockets, workers, WebCrypto and WASM are input and output. The client, the policy builder
-- and its templates, wallet building and provisioning, and credentials are outside of this library.
-- Refusals of negative and of fractional numbers by the byte writers are left out, since no natural is
-- one. A number above the largest double, for which JSON.parse gives Infinity, and a property named
-- __proto__ are left out. An integer key index below 0 is the 32-bit word that le32 writes of it.
pub mod Prelude
pub mod Bytes
pub mod Text
pub mod Calls
pub mod Json
pub mod Contracts
pub mod Wallet
pub mod Authorization
pub mod Runs
