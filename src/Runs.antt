-- ===== src/Runs.antt =====
-- Runs of the theorems at concrete inputs, one module for each component.
mod Commitment
mod Artifact
mod Event
mod Descriptor
mod Subject
mod Tree
mod Psbt
mod Envelope
mod KeySet
mod Signed
mod Verify
mod Policy
mod Adapter
use sigbash_sdk.Prelude.{ℕ, ◌%◌, ◌≡◌, refl, ◌∷◌, length, replicate}
use sigbash_sdk.Bytes.{Bytes}

-- A stand-in for SHA-256: 32 bytes, the first of which counts the bytes of the message.
abbrev pub count_hash : Bytes → Bytes
count_hash message = length message % 256 ∷ replicate 31 0

abbrev pub count_hash-width : (x : Bytes) → length (count_hash x) ≡ 32
count_hash-width x = refl
