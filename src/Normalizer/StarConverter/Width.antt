-- ===== src/Normalizer/StarConverter/Width.antt =====
-- No star query has more units than its simple query has terminals.
use netspeak4_application_ng.Prelude.{
  ℕ, ◌+◌, ◌≤◌, List, [], ◌∷◌, ◌++◌, map, arith, length, length-append, All, All-append, inl, inr,
  ok, Returns, Returns-bind, Returns-weaken, ltb, leb, ◌%◌, u32_mod, Bool-cases,
}
use netspeak4_application_ng.Model.SimpleQuery.{
  SimpleQueryUnit, Children, word, qmark, star, regex, concat, alternation, nil, cons, HasNoRegex,
  HaveNoRegex, terminals, terminals_of,
}
use netspeak4_application_ng.Normalizer.StarQuery.{
  Options, StarQueryUnit, StarQuery, push_back, append, empty_query,
}
use netspeak4_application_ng.Normalizer.StarConverter.{
  product_with, product, combine, keep_short, concat_unit, concat_children, alternation_unit,
  alternation_children, to_star_queries,
}

abbrev pub Within : ℕ → StarQuery → Type 0
Within n q = length q.units ≤ n

All-Within_mono : (m n : ℕ) (qs : List StarQuery) → m ≤ n → All (Within m) qs → All (Within n) qs
All-Within_mono m n [] k h = tt
All-Within_mono m n (q ∷ qs) k (h, hs) = (omega arith, All-Within_mono m n qs k hs)

push_back-Within :
    (u : StarQueryUnit) (n : ℕ) (qs : List StarQuery)
    → All (Within n) qs
    → All (Within (n + 1)) (map (push_back u) qs)
unfolding push_back
push_back-Within u n [] h = tt
push_back-Within u n (q ∷ qs) (h, hs) =
    (omega (arith, length-append q.units (u ∷ [])), push_back-Within u n qs hs)

append-Within :
    (r : StarQuery) (n m : ℕ) (qs : List StarQuery)
    → Within m r
    → All (Within n) qs
    → All (Within (n + m)) (map (λ q. append q r) qs)
unfolding append
append-Within r n m [] k h = tt
append-Within r n m (q ∷ qs) k (h, hs) =
    (omega (arith, length-append q.units r.units), append-Within r n m qs k hs)

module _ (o : Options) where
  product_with-Within :
      (q : StarQuery) (n m : ℕ) (alt : List StarQuery)
      → Within n q
      → All (Within m) alt
      → All (Within (n + m)) (product_with o q alt)
  unfolding product_with append
  product_with-Within q n m [] h k = tt
  product_with-Within q n m (r ∷ alt) h (k, ks) =
      elim (Bool-cases (ltb o.max_length ((q.min_length + r.min_length) % u32_mod))) [
        | inl e ↦ rw e (product_with-Within q n m alt h ks)
        | inr e ↦
            rw e (omega (arith, length-append q.units r.units), product_with-Within q n m alt h ks)
      ]

  product-Within :
      (n m : ℕ) (qs alt : List StarQuery)
      → All (Within n) qs
      → All (Within m) alt
      → All (Within (n + m)) (product o qs alt)
  unfolding product
  product-Within n m [] alt h k = tt
  product-Within n m (q ∷ qs) alt (h, hs) k =
      All-append (Within (n + m)) (product_with o q alt) (product o qs alt)
        (product_with-Within q n m alt h k) (product-Within n m qs alt hs k)

  combine-Within :
      (n m : ℕ) (qs alt : List StarQuery)
      → All (Within n) qs
      → All (Within m) alt
      → All (Within (n + m)) (combine o qs alt)
  unfolding combine
  combine-Within n m qs [] h k = tt
  combine-Within n m qs (r ∷ []) h (k, _) = append-Within r n m qs k h
  combine-Within n m qs (r ∷ r' ∷ alt) h k = product-Within n m qs (r ∷ r' ∷ alt) h k

  keep_short-Within :
      (n : ℕ) (qs : List StarQuery) → All (Within n) qs → All (Within n) (keep_short o qs)
  unfolding keep_short
  keep_short-Within n [] h = tt
  keep_short-Within n (q ∷ qs) (h, hs) = elim (Bool-cases (leb q.min_length o.max_length)) [
    | inl e ↦ rw e (h, keep_short-Within n qs hs)
    | inr e ↦ rw e (keep_short-Within n qs hs)
  ]

  single-Within :
      (u : StarQueryUnit) (n : ℕ) (qs : List StarQuery)
      → 1 ≤ n
      → All (Within n) qs
      → All (Within n) (qs ++ push_back u empty_query ∷ [])
  unfolding push_back
  single-Within u n qs k h =
      All-append (Within n) qs (push_back u empty_query ∷ []) h (omega arith, tt)

  mutual
    unfolding concat_unit terminals

    concat_unit-Within :
        (u : SimpleQueryUnit) (n : ℕ) (qs : List StarQuery)
        → HasNoRegex u
        → All (Within n) qs
        → Returns (All (Within (n + terminals u))) (concat_unit o qs u)
    concat_unit-Within (word t s) n qs g h = push_back-Within (StarQueryUnit.word t s) n qs h
    concat_unit-Within (qmark s) n qs g h = push_back-Within (StarQueryUnit.qmark s) n qs h
    concat_unit-Within (star s) n qs g h = push_back-Within (StarQueryUnit.star s) n qs h
    concat_unit-Within (regex t s) n qs g h = absurd g
    concat_unit-Within (alternation s us) n qs g h =
        Returns-bind (All (Within (terminals_of us))) (All (Within (n + terminals_of us)))
          (alternation_children o [] us) (λ alt. ok (combine o qs alt))
          (alternation_children-Within us (terminals_of us) [] g (omega arith) tt)
          λ alt k. combine-Within n (terminals_of us) qs alt h k
    concat_unit-Within (concat s us) n qs g h = concat_children-Within us n qs g h

    concat_children-Within :
        (us : Children) (n : ℕ) (qs : List StarQuery)
        → HaveNoRegex us
        → All (Within n) qs
        → Returns (All (Within (n + terminals_of us))) (concat_children o qs us)
    concat_children-Within nil n qs g h = All-Within_mono n (n + 0) qs (omega arith) h
    concat_children-Within (cons u us) n qs (g, gs) h =
        Returns-bind (All (Within (n + terminals u)))
          (All (Within (n + (terminals u + terminals_of us)))) (concat_unit o qs u)
          (λ rs. concat_children o rs us) (concat_unit-Within u n qs g h)
          λ rs k.
            Returns-weaken (All (Within (n + terminals u + terminals_of us)))
              (All (Within (n + (terminals u + terminals_of us)))) (concat_children o rs us)
              (λ ss l.
                All-Within_mono (n + terminals u + terminals_of us)
                  (n + (terminals u + terminals_of us)) ss (omega arith) l)
              (concat_children-Within us (n + terminals u) rs gs k)

    alternation_unit-Within :
        (u : SimpleQueryUnit) (n : ℕ) (qs : List StarQuery)
        → HasNoRegex u
        → terminals u ≤ n
        → All (Within n) qs
        → Returns (All (Within n)) (alternation_unit o qs u)
    alternation_unit-Within (word t s) n qs g w h = single-Within (StarQueryUnit.word t s) n qs w h
    alternation_unit-Within (qmark s) n qs g w h = single-Within (StarQueryUnit.qmark s) n qs w h
    alternation_unit-Within (star s) n qs g w h = single-Within (StarQueryUnit.star s) n qs w h
    alternation_unit-Within (regex t s) n qs g w h = absurd g
    alternation_unit-Within (alternation s us) n qs g w h =
        alternation_children-Within us n qs g w h
    alternation_unit-Within (concat s us) n qs g w h =
        Returns-bind (All (Within (0 + terminals_of us))) (All (Within n))
          (concat_children o (empty_query ∷ []) us) (λ con. ok (qs ++ keep_short o con))
          (concat_children-Within us 0 (empty_query ∷ []) g (omega arith, tt))
          λ con k.
            All-append (Within n) qs (keep_short o con) h (
              keep_short-Within n con (All-Within_mono (0 + terminals_of us) n con (omega arith) k))

    alternation_children-Within :
        (us : Children) (n : ℕ) (qs : List StarQuery)
        → HaveNoRegex us
        → terminals_of us ≤ n
        → All (Within n) qs
        → Returns (All (Within n)) (alternation_children o qs us)
    alternation_children-Within nil n qs g w h = h
    alternation_children-Within (cons u us) n qs (g, gs) w h =
        Returns-bind (All (Within n)) (All (Within n)) (alternation_unit o qs u)
          (λ rs. alternation_children o rs us) (alternation_unit-Within u n qs g (omega arith) h)
          λ rs k. alternation_children-Within us n rs gs (omega arith) k

  -- Converting a simple query without regular expressions returns, and no star query has more units
  -- than the simple query has terminals.
  pub to_star_queries-Within :
      (root : SimpleQueryUnit)
      → HasNoRegex root
      → Returns (All (Within (terminals root))) (to_star_queries o root)
  unfolding to_star_queries
  to_star_queries-Within root g =
      alternation_unit-Within root (terminals root) [] g (omega arith) tt
