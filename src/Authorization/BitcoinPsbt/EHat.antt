-- ===== src/Authorization/BitcoinPsbt/EHat.antt =====
-- `authzEHat`: the value and the width of the challenge.
use sigbash_sdk.Prelude.{
  ℕ, ◌+◌, ◌*◌, ◌^◌, ◌%◌, ◌<◌, ◌≡◌, refl, ◌∙◌, [], length, ◌&&◌, Bool, true, false, ==_iff, Result,
  ok, arith, ok-injective, replicate, guard-eq-ok, >>=-eq-ok,
}
use sigbash_sdk.Calls.{◌>>=◌, ◌>>◌}
use sigbash_sdk.Bytes.{Bytes, big_endian}
use sigbash_sdk.Bytes.Decoder.{from_big_endian}
use sigbash_sdk.Bytes.Numbers.{length-big_endian, from_big_endian-big_endian}
use sigbash_sdk.Text.{utf8, is_pair, scalar_bytes}
use sigbash_sdk.Authorization.BitcoinPsbt.Challenge.{beta_block, IsEHat}
use sigbash_sdk.Authorization.BitcoinPsbt.Rederive.{authz_beta, authz_e_prime, authz_e_hat}

both : (a b : Bool) → (a && b) ≡ true → (a ≡ true) × (b ≡ true)
both true true h = (refl, refl)
both true false h = cc
both false b h = cc

numeral : (n : ℕ) → n < 2 ^ 256 → from_big_endian 0 (big_endian 32 n []) ≡ n
unfolding from_big_endian
numeral n h =
    let shifted : 0 * 256 ^ 32 + n ≡ n = omega arith in
    from_big_endian-big_endian 32 0 n [] h ∙ shifted

module _ (sha256 : Bytes → Bytes) (compress : Bytes → Bytes → Bytes)
    (r_nonce : Bytes → Bytes → Result Bytes) where
  authz_beta-eq-ok :
      (sighash beta : Bytes)
      → authz_beta sha256 compress r_nonce sighash (replicate 32 0) ≡ ok beta
      → (length sighash ≡ 32) × (compress sighash beta_block ≡ beta)
  unfolding authz_beta ◌>>◌ utf8 big_endian is_pair scalar_bytes
  authz_beta-eq-ok sighash beta h =
      let (wide, e) = guard-eq-ok _ _ _ h in
      ((==_iff (length sighash) 32).0 (both _ _ wide).0, ok-injective _ _ e)

  pub authz_e_hat-IsEHat :
      (r_x q_x sighash e : Bytes)
      → authz_e_hat sha256 compress r_nonce r_x q_x sighash (replicate 32 0) ≡ ok e
      → IsEHat sha256 compress r_x q_x sighash e
  unfolding authz_e_hat authz_e_prime ◌>>=◌
  authz_e_hat-IsEHat r_x q_x sighash e h =
      let (beta, hb, h1) =
        >>=-eq-ok (authz_beta sha256 compress r_nonce sighash (replicate 32 0)) _ h in
      let (wide, same) = authz_beta-eq-ok sighash beta hb in
      let total =
        from_big_endian 0 (authz_e_prime sha256 compress r_nonce r_x q_x sighash)
        + from_big_endian 0 beta in
      rw (← ok-injective _ _ h1) (record {
        width = length-big_endian 32 (total % 2 ^ 256) [];
        sighash_width = wide;
        value = rw same (numeral (total % 2 ^ 256) (omega arith));
      })
