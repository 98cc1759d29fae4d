-- ===== src/Runs/Envelope.antt =====
-- A proof envelope of one position, hexadecimal texts, and the registry of one adapter.
use sigbash_sdk.Prelude.{
  ℕ, zero, suc, ◌≡◌, ◌≢◌, ◌⊎◌, ap, refl, ◌↔◌, List, [], ◌∷◌, Option, none, some, Bool, true,
  replicate, length, ok, arith, All, map,
}
use sigbash_sdk.Calls.{◌>>=◌, ◌>>◌, map_calls}
use sigbash_sdk.Bytes.Hex.{bytes_to_hex, hex_to_bytes, hex_to_bytes-bytes_to_hex}
use sigbash_sdk.Text.{units}
use sigbash_sdk.Json.{
  Number, Json, Items, Members, elements, property, find_member, byte_elements, with_byte,
}
use sigbash_sdk.Authorization.Envelope.{MuxBranch, PositionDisclosure, Bundle, Envelope}
use sigbash_sdk.Authorization.Envelope.Parse.{
  of_width, fixed_bytes, optional_fixed_bytes, integer_of, byte_of, mux_branch_of, as_record,
  parse_disclosure, parse_public_inputs, parse_chunk_proof, parse_chunk_proofs, parse_bundle,
  parse_position, elements_of, index_of, parse_envelope,
}
use sigbash_sdk.Authorization.Envelope.Widths.{IsEnvelope}
use sigbash_sdk.Authorization.Envelope.Sound.{parse_envelope-IsEnvelope}
use sigbash_sdk.Authorization.Adapters.{Adapter, get_adapter, register_adapter}
use sigbash_sdk.Authorization.Adapters.Registered.{
  Reaches, IsFound, reached-IsFound, Registers, IsRefused, register_adapter_lem,
}
use sigbash_sdk.Authorization.Adapters.Aggregates.{pin_aggregate_from_envelope}
use sigbash_sdk.Authorization.Adapters.Total.{Returns, pin_aggregate_total}
use sigbash_sdk.Runs.{count_hash}

abbrev zeros : ℕ → Items
zeros zero = Items.nil
zeros (suc n) = Items.cons (Json.number (Number.natural 0)) (zeros n)

abbrev wide : Json
wide = Json.array (zeros 32)

abbrev narrow : Json
narrow = Json.array (zeros 16)

abbrev nat : ℕ → Json
nat n = Json.number (Number.natural n)

abbrev inputs_json : Json
inputs_json = Json.object (
    Members.member (units "position_mode") (nat 0) (
      Members.member (units "challenge_e") wide (
        Members.member (units "path_id") wide (
          Members.member (units "session_seed") wide (
            Members.member (units "nullifier_n0") wide (
              Members.member (units "nullifier_n1") wide (
                Members.member (units "hash_outputs_blinded_commit") wide (
                  Members.member (units "hash_outputs_blinded_commit_unified") wide (
                    Members.member (units "hin_blinded_commit_unified") wide (
                      Members.member (units "salt_blinded_commit_unified") wide (
                        Members.member (units "poly_coeffs_blinded_commit_unified") wide (
                          Members.member (units "input_set_poly_product") narrow
                            Members.end))))))))))))

abbrev position_json : Json
position_json = Json.object (
    Members.member (units "bundle")
      (Json.object (
        Members.member (units "public_inputs") inputs_json
          (Members.member (units "proof_session_id") wide Members.end)))
      (Members.member (units "posture")
        (Json.object (
          Members.member (units "hash_type") (nat 0)
            (Members.member (units "mux_branch") (Json.string (units "key_path")) Members.end)))
        (Members.member (units "position_mode") (nat 0) Members.end)))

abbrev envelope_value : Json
envelope_value = Json.object (
    Members.member (units "version") (nat 1) (
      Members.member (units "completing_position") (nat 0) (
        Members.member (units "positions") (Json.array (Items.cons position_json Items.nil))
          (Members.member (units "session_id") wide Members.end))))

abbrev pub bundle : Bundle
bundle = record {
  public_inputs = record {
    challenge_e = replicate 32 0;
    path_id = replicate 32 0;
    session_seed = replicate 32 0;
    nullifier_n0 = replicate 32 0;
    nullifier_n1 = replicate 32 0;
    hash_outputs_blinded_commit = replicate 32 0;
    hash_outputs_blinded_commit_unified = replicate 32 0;
    hin_blinded_commit_unified = replicate 32 0;
    salt_blinded_commit_unified = replicate 32 0;
    poly_coeffs_blinded_commit_unified = replicate 32 0;
    input_set_poly_product = replicate 16 0;
    position_mode = 0;
  };
  proof_session_id = replicate 32 0;
  output_chunk_proofs = [];
}

abbrev posture : PositionDisclosure
posture = record {
  hash_type = Number.natural 0;
  is_acp = sigbash_sdk.Prelude.false;
  mux_branch = MuxBranch.key_path;
  leaf_hash = none;
}

abbrev pub envelope : Envelope
envelope = record {
  version = 1;
  session_id = replicate 32 0;
  completing_position = 0;
  positions = record { bundle = bundle; posture = posture; position_mode = 0 } ∷ [];
}

envelope_parses : parse_envelope envelope_value ≡ ok envelope
unfolding ◌>>=◌ ◌>>◌ map_calls elements property find_member byte_elements with_byte of_width
    fixed_bytes optional_fixed_bytes integer_of byte_of mux_branch_of as_record parse_disclosure
    parse_public_inputs parse_chunk_proof parse_chunk_proofs parse_bundle parse_position elements_of
    index_of parse_envelope sigbash_sdk.Prelude.eqb
envelope_parses = refl

pub envelope-IsEnvelope : IsEnvelope envelope
envelope-IsEnvelope = parse_envelope-IsEnvelope envelope_value envelope envelope_parses

parse_envelope-IsEnvelope_example : IsEnvelope envelope
parse_envelope-IsEnvelope_example =
    parse_envelope-IsEnvelope envelope_value envelope envelope_parses

pin_aggregate_total_example : Returns (pin_aggregate_from_envelope count_hash envelope)
pin_aggregate_total_example = pin_aggregate_total count_hash envelope envelope-IsEnvelope

hex_to_bytes-bytes_to_hex_example :
    hex_to_bytes (bytes_to_hex (0 ∷ 10 ∷ 255 ∷ [])) ≡ ok (0 ∷ 10 ∷ 255 ∷ [])
hex_to_bytes-bytes_to_hex_example =
    hex_to_bytes-bytes_to_hex (0 ∷ 10 ∷ 255 ∷ []) (omega arith, (omega arith, (omega arith, tt)))

abbrev pub adapter : Adapter
adapter = record {
  subject_kind = units "tx";
  check_verifiable = λ subject network. ok tt;
  rederive_completing_e_hat = λ subject e salt. ok (replicate 32 0);
}

adapter_registers : register_adapter adapter [] ≡ ok (adapter ∷ [])
unfolding register_adapter get_adapter ◌>>◌
adapter_registers = refl

reached-IsFound_example : All (IsFound (adapter ∷ [])) (adapter ∷ [])
reached-IsFound_example =
    reached-IsFound (adapter ∷ [])
      (Reaches.register adapter [] (adapter ∷ []) Reaches.start adapter_registers)

abbrev psbt_adapter : Adapter
psbt_adapter = record adapter { subject_kind = units "bitcoin_psbt" }

other_kind : units "tx" ≢ units "bitcoin_psbt"
other_kind e = absurd (let n : 2 ≡ 12 = ap length e in omega arith)

register_adapter_lem_example :
    Registers psbt_adapter (adapter ∷ []) (units "tx") ⊎ IsRefused psbt_adapter (adapter ∷ [])
register_adapter_lem_example =
    register_adapter_lem psbt_adapter (adapter ∷ []) (units "tx") other_kind
