-- ===== src/Concat/Chain/Written.antt =====
-- Chains as a script writes them, read back by parsePlusChain of pkg/crawl/jsreplay.go.
use vespasian.Prelude.{
  ℕ, zero, suc, ◌+◌, ◌-◌, ◌≤◌, true, false, List, [], ◌∷◌, ◌++◌, Bytes, length, take, All, ◌≡◌, ◌≢◌,
  refl, arith, ap, ◌∙◌, sym, append_assoc,
}
use vespasian.Concat.Scan.{ends_operand}
use vespasian.Concat.Chain.{
  max_concat_chain_operands, max_concat_chain_span, behind_operand, chain_loop, parse_plus_chain,
}
use vespasian.Concat.Chain.Operands.{
  Operand, IsSpace, IsOperand, operand_text, operand_value, Stops, Reads, reads_lem, skip_spaces,
  skip_operand, is_space, take-append_lem,
}

-- An operand with the spaces in front of it and behind it.
pub record Piece : Type 0 where
  pub before : Bytes
  pub operand : Operand
  pub after : Bytes

abbrev pub IsPiece : Piece → Type 0
IsPiece p = All IsSpace p.before × IsOperand p.operand × All IsSpace p.after

-- The source of a chain, and what comes behind it.
abbrev pub written : List Piece → Bytes → Bytes
written [] rest = rest
written (p ∷ []) rest = p.before ++ (operand_text p.operand ++ (p.after ++ rest))
written (p ∷ q ∷ ps) rest =
    p.before ++ (operand_text p.operand ++ (p.after ++ b'+' ∷ written (q ∷ ps) rest))

abbrev pub chain_value : List Piece → Bytes
chain_value [] = []
chain_value (p ∷ ps) = operand_value p.operand ++ chain_value ps

-- One round of the loop.
round_lem :
    (n : ℕ) (p : Piece) (s : Bytes)
    → IsPiece p
    → Stops s
    → chain_loop (suc n) (p.before ++ (operand_text p.operand ++ (p.after ++ s)))
      ≡ operand_value p.operand ++ behind_operand s (λ rest. chain_loop n rest)
unfolding chain_loop Reads
round_lem n p s (before, operand, after) stops =
    let (rest, read, left) = reads_lem p.operand p.after s operand after stops in
    rw
      (
        skip_spaces p.before (operand_text p.operand ++ (p.after ++ s)) before,
        skip_operand p.operand (p.after ++ s) operand,
        read,
        left,
      )
      refl

-- Behind the chain: nothing, or a byte that ends it.
abbrev pub EndsChain : Bytes → Type 0
EndsChain [] = Unit
EndsChain (c ∷ s) = (ends_operand c ≡ true) × (is_space c ≡ false) × (c ≢ b'+')

ends-Stops : (s : Bytes) → EndsChain s → Stops s
ends-Stops [] h = tt
ends-Stops (c ∷ s) h = (h.0, h.1)

behind_end : (s : Bytes) (f : Bytes → Bytes) → EndsChain s → behind_operand s f ≡ []
behind_end [] f h = refl
behind_end (c ∷ s) f (e, w, n) = ground arith

chain_loop-written :
    (n : ℕ) (ps : List Piece) (rest : Bytes)
    → ps ≢ []
    → length ps ≤ n
    → All IsPiece ps
    → EndsChain rest
    → chain_loop n (written ps rest) ≡ chain_value ps
chain_loop-written n [] rest some_piece f h ends = absurd (some_piece refl)
chain_loop-written zero (p ∷ ps) rest some_piece f h ends = absurd (omega arith)
chain_loop-written (suc n) (p ∷ []) rest some_piece f (hp, h) ends =
    round_lem n p rest hp (ends-Stops rest ends)
    ∙ ap (λ s. operand_value p.operand ++ s) (behind_end rest (λ s. chain_loop n s) ends)
chain_loop-written (suc n) (p ∷ q ∷ ps) rest some_piece f (hp, h) ends =
    round_lem n p (b'+' ∷ written (q ∷ ps) rest) hp (refl, refl)
    ∙ ap (λ s. operand_value p.operand ++ s)
        (chain_loop-written n (q ∷ ps) rest (λ e. cc) (omega arith) h ends)

written-append : (ps : List Piece) (rest : Bytes) → written ps rest ≡ written ps [] ++ rest
written-append [] rest = refl
written-append (p ∷ []) rest =
    rw
      (
        append_assoc p.before (operand_text p.operand ++ (p.after ++ [])) rest,
        append_assoc (operand_text p.operand) (p.after ++ []) rest,
        append_assoc p.after [] rest,
      )
      refl
written-append (p ∷ q ∷ ps) rest =
    rw
      (
        append_assoc p.before (operand_text p.operand ++ (p.after ++ b'+' ∷ written (q ∷ ps) []))
            rest,
        append_assoc (operand_text p.operand) (p.after ++ b'+' ∷ written (q ∷ ps) []) rest,
        append_assoc p.after (b'+' ∷ written (q ∷ ps) []) rest,
      )
      (ap (λ s. p.before ++ (operand_text p.operand ++ (p.after ++ b'+' ∷ s)))
        (written-append (q ∷ ps) rest))

take-EndsChain : (n : ℕ) (s : Bytes) → EndsChain s → EndsChain (take n s)
take-EndsChain zero s h = tt
take-EndsChain (suc n) [] h = tt
take-EndsChain (suc n) (c ∷ s) h = h

-- parsePlusChain reads a chain back that is written with plus signs: of one to sixteen operands,
-- with spaces and newlines around them and at most 1024 bytes in all, it gives the texts of the
-- literals and a zero for each other operand, if the literals have no quote of their own,
-- backslash, newline or dollar sign, the other operands no quotes, brackets or spaces, and what
-- follows is the end or a byte that ends an operand, neither a plus nor a space.
pub parse_plus_chain-written :
    (ps : List Piece) (rest : Bytes)
    → ps ≢ []
    → length ps ≤ max_concat_chain_operands
    → length (written ps []) ≤ max_concat_chain_span
    → All IsPiece ps
    → EndsChain rest
    → parse_plus_chain (written ps rest) ≡ chain_value ps
unfolding parse_plus_chain
parse_plus_chain-written ps rest some_piece few short h ends =
    let room = max_concat_chain_span - length (written ps []) in
    let span : max_concat_chain_span ≡ length (written ps []) + room = omega arith in
    let cut : take max_concat_chain_span (written ps rest) ≡ written ps (take room rest) =
      ap (take max_concat_chain_span) (written-append ps rest)
      ∙ ap (λ n. take n (written ps [] ++ rest)) span
      ∙ take-append_lem room (written ps []) rest
      ∙ sym (written-append ps (take room rest)) in
    ap (chain_loop max_concat_chain_operands) cut
    ∙ chain_loop-written max_concat_chain_operands ps (take room rest) some_piece few h
        (take-EndsChain room rest ends)
