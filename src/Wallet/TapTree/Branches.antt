-- ===== src/Wallet/TapTree/Branches.antt =====
-- `tapBranchHash`, and the order of its two nodes.
use sigbash_sdk.Prelude.{
  ℕ, zero, suc, ◌≡◌, refl, ap, [], ◌∷◌, ◌++◌, length, ltb, ◌==◌, if◌then◌else◌, Bool, true, false,
  arith, Bool-cases, inl, inr,
}
use sigbash_sdk.Bytes.{Bytes}
use sigbash_sdk.Text.{units}
use sigbash_sdk.Contracts.Fields.{tagged_hash}
use sigbash_sdk.Wallet.TapTree.Scripts.{precedes, tap_branch_hash}

-- Lexicographic order of byte strings.
abbrev pub lex_less : Bytes → Bytes → Bool
lex_less [] [] = false
lex_less [] (y ∷ b) = true
lex_less (x ∷ a) [] = false
lex_less (x ∷ a) (y ∷ b) = elim (x == y) [ true ↦ lex_less a b | false ↦ ltb x y ]

-- BIP-341's node over two hashes: the lesser one first.
abbrev pub branch_node : (Bytes → Bytes) → Bytes → Bytes → Bytes
branch_node sha256 k e =
    tagged_hash sha256 (units "TapBranch") (if lex_less k e then k ++ e else e ++ k)

precedes-lex_less :
    (n : ℕ) (a b : Bytes) → length a ≡ n → length b ≡ n → precedes n a b ≡ lex_less a b
unfolding precedes
precedes-lex_less zero [] [] p q = refl
precedes-lex_less zero (x ∷ a) b p q = absurd (omega arith)
precedes-lex_less zero [] (y ∷ b) p q = absurd (omega arith)
precedes-lex_less (suc n) [] b p q = absurd (omega arith)
precedes-lex_less (suc n) (x ∷ a) [] p q = absurd (omega arith)
precedes-lex_less (suc n) (x ∷ a) (y ∷ b) p q =
    ground (arith, precedes-lex_less n a b (omega arith) (omega arith))

lex_less_asym : (a b : Bytes) → lex_less a b ≡ true → lex_less b a ≡ false
lex_less_asym [] [] h = cc
lex_less_asym [] (y ∷ b) h = refl
lex_less_asym (x ∷ a) [] h = cc
lex_less_asym (x ∷ a) (y ∷ b) h = ground (arith, lex_less_asym a b)

lex_less_total : (a b : Bytes) → lex_less a b ≡ false → lex_less b a ≡ false → a ≡ b
lex_less_total [] [] h k = refl
lex_less_total [] (y ∷ b) h k = cc
lex_less_total (x ∷ a) [] h k = cc
lex_less_total (x ∷ a) (y ∷ b) h k = ground (arith, lex_less_total a b)

ordered_comm :
    (a b : Bytes)
    → (if lex_less a b then a ++ b else b ++ a) ≡ (if lex_less b a then b ++ a else a ++ b)
ordered_comm a b = elim (Bool-cases (lex_less a b)) [
  | inl ab ↦ rw (ab, lex_less_asym a b ab)
  | inr nab ↦ elim (Bool-cases (lex_less b a)) [
    | inl ba ↦ rw (nab, ba)
    | inr nba ↦ let e : a ≡ b = lex_less_total a b nab nba in rw e
  ]
]

module _ (sha256 : Bytes → Bytes) (a b : Bytes) where
  pub branch_node_comm : branch_node sha256 a b ≡ branch_node sha256 b a
  branch_node_comm = ap (tagged_hash sha256 (units "TapBranch")) (ordered_comm a b)

  -- On two hashes the code's node is BIP-341's.
  pub tap_branch_hash-branch_node :
      length a ≡ 32 → length b ≡ 32 → tap_branch_hash sha256 a b ≡ branch_node sha256 a b
  unfolding tap_branch_hash
  tap_branch_hash-branch_node p q =
      rw (precedes-lex_less 32 a b p q)
        (elim (Bool-cases (lex_less a b)) [ inl ab ↦ rw ab | inr nab ↦ rw nab ])
