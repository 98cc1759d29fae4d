-- ===== src/Wallet.antt =====
-- src/wallet: the wallet's Taproot trees, and the scan of a PSBT for its number of inputs.
pub mod TapTree
pub mod InputCount
