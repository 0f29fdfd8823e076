-- ===== src/Normalizer/Expansion/Dropped.antt =====
-- Star queries that could be expanded but are passed over.
use netspeak4_application_ng.Prelude.{
  ◌-◌, ◌≤◌, ◌<◌, ◌≡◌, refl, sym, append-nil, [], ◌∷◌, replicate, arith, Text, Phrase, ok, length,
  length-replicate, le→leb,
}
use netspeak4_application_ng.Model.NormQuery.{Source}
use netspeak4_application_ng.Model.SimpleQuery.{word, star, concat, cons, nil, SimpleLang}
use netspeak4_application_ng.Normalizer.StarQuery.{
  Options, StarQuery, StarQueryUnit, push_back, empty_query,
}
use netspeak4_application_ng.Normalizer.StarConverter.{keep_short}
use netspeak4_application_ng.Normalizer.Expansion.{to_norm_queries, add_queries, add_query}

keep_word_star :
    (o : Options) (q : StarQuery) → q.min_length ≤ o.max_length → keep_short o (q ∷ []) ≡ q ∷ []
unfolding keep_short
keep_word_star o q k = rw (le→leb q.min_length o.max_length k) refl

pass_over :
    (o : Options) (q : StarQuery) → q.min_length < o.min_length → add_queries o [] (q ∷ []) ≡ ok []
unfolding add_queries add_query
pass_over o q h = ground arith

-- A word followed by a star has no norm queries when the least admissible length is above 1,
-- although it accepts a phrase of admissible length.
pub to_norm_queries-dropped :
    (matches : Text → Text → Type 0) (o : Options) (t : Text) (r s s' : Source)
    → 1 < o.min_length
    → o.min_length ≤ o.max_length
    → (to_norm_queries o [] (concat r (cons (word t s) (cons (star s') nil))) ≡ ok [])
      × (p : Phrase) × SimpleLang matches (concat r (cons (word t s) (cons (star s') nil))) p
      × (o.min_length ≤ length p)
      × (length p ≤ o.max_length)
unfolding to_norm_queries push_back
to_norm_queries-dropped matches o t r s s' h k = (
  (let q = push_back (StarQueryUnit.star s') (push_back (StarQueryUnit.word t s) empty_query) in
      rw (keep_word_star o q (omega arith)) (pass_over o q (omega arith))),
  t ∷ replicate (o.min_length - 1) [],
  (
    t ∷ [],
    replicate (o.min_length - 1) [],
    refl,
    (t, refl, refl),
    (
      replicate (o.min_length - 1) [],
      [],
      sym (append-nil (replicate (o.min_length - 1) [])),
      tt,
      refl,
    ),
  ),
  omega (arith, length-replicate {A = Text} (o.min_length - 1) []),
  omega (arith, length-replicate {A = Text} (o.min_length - 1) []),
)
