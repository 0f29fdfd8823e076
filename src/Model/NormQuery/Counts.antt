-- ===== src/Model/NormQuery/Counts.antt =====
-- Counting the units of a norm query, and comparing norm queries.
use netspeak4_application_ng.Prelude.{◌+◌, ◌≡◌, [], ◌∷◌, length, ltb, arith}
use netspeak4_application_ng.Model.NormQuery.{
  NormQuery, word, qmark, has_qmarks, has_words, count_qmarks, count_words,
}

-- Every unit is counted once, and `has_words` and `has_qmarks` say which counts are positive.
pub counts_lem :
    (q : NormQuery)
    → (count_words q + count_qmarks q ≡ length q)
      × (has_words q ≡ ltb 0 (count_words q))
      × (has_qmarks q ≡ ltb 0 (count_qmarks q))
unfolding count_words count_qmarks has_words has_qmarks
counts_lem [] = ground arith
counts_lem (word t s ∷ q) = ground (arith, counts_lem q)
counts_lem (qmark s ∷ q) = ground (arith, counts_lem q)
