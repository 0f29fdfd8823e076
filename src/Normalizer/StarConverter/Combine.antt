-- ===== src/Normalizer/StarConverter/Combine.antt =====
-- The language of the star queries that `concat` builds from a nested alternation.
use netspeak4_application_ng.Prelude.{
  ◌+◌, ◌%◌, ◌≤◌, ◌≡◌, ap, List, [], ◌∷◌, ◌++◌, arith, length, length-append, Phrase, ltb, leb,
  Bool-cases, inl, inr, true, false, u32_mod, All, All-append, ◌∙◌,
}
use netspeak4_application_ng.Language.{
  ◌⊙◌, Same, Same-refl, Same-sym, Same-trans, ⊙_cong, ⊕_cong, ⊙_distrib, distrib_⊙, none_⊙, ⊙_none,
  ⊕_none, none_⊕, Union-append,
}
use netspeak4_application_ng.Normalizer.StarQuery.{Options, StarQuery, append}
use netspeak4_application_ng.Normalizer.StarQuery.Lang.{
  StarLang, QueriesLang, IsCounted, required, required_le, required-append, map-append-IsCounted,
  append_empty-Lang, map-append-Lang,
}
use netspeak4_application_ng.Normalizer.StarConverter.{product_with, product, combine, keep_short}

-- A pair of star queries that is discarded accepts nothing within the bound.
module _ (o : Options) where
  discarded :
      (q r : StarQuery)
      → IsCounted q
      → IsCounted r
      → ltb o.max_length ((q.min_length + r.min_length) % u32_mod) ≡ true
      → Same o.max_length (λ _. ⊥) (StarLang q ⊙ StarLang r)
  discarded q r h k e p short = (
    λ z. absurd z,
    λ (a, b, split, x, y). long a b split (required_le q.units a x) (required_le r.units b y),
  )
    where
      long :
          (a b : Phrase)
          → p ≡ a ++ b
          → required q.units ≤ length a
          → required r.units ≤ length b
          → ⊥
      long a b split x y =
          let total : length p ≡ length a + length b = ap length split ∙ length-append a b in
          ground arith

  product_with-IsCounted :
      (q : StarQuery) (alt : List StarQuery)
      → IsCounted q
      → All IsCounted alt
      → All IsCounted (product_with o q alt)
  unfolding product_with append
  product_with-IsCounted q [] h k = tt
  product_with-IsCounted q (r ∷ alt) h (k, ks) =
      elim (Bool-cases (ltb o.max_length ((q.min_length + r.min_length) % u32_mod))) [
        | inl e ↦ rw e (product_with-IsCounted q alt h ks)
        | inr e ↦
            rw e (omega (arith, required-append q.units r.units), product_with-IsCounted q alt h ks)
      ]

  product_with-Lang :
      (q : StarQuery) (alt : List StarQuery)
      → IsCounted q
      → All IsCounted alt
      → Same o.max_length (QueriesLang (product_with o q alt)) (StarLang q ⊙ QueriesLang alt)
  unfolding product_with
  product_with-Lang q [] h k = Same-sym (⊙_none (StarLang q))
  product_with-Lang q (r ∷ alt) h (k, ks) =
      elim (Bool-cases (ltb o.max_length ((q.min_length + r.min_length) % u32_mod))) [
        | inl e ↦ rw e (
            Same-trans (Same-sym (none_⊕ _)) (
              Same-trans (⊕_cong (discarded q r h k e) (product_with-Lang q alt h ks))
                (Same-sym (distrib_⊙ (StarLang q) (StarLang r) (QueriesLang alt)))))
        | inr e ↦ rw e (
            Same-trans (⊕_cong (append_empty-Lang q r) (product_with-Lang q alt h ks))
              (Same-sym (distrib_⊙ (StarLang q) (StarLang r) (QueriesLang alt))))
      ]

  product-IsCounted :
      (qs alt : List StarQuery)
      → All IsCounted qs
      → All IsCounted alt
      → All IsCounted (product o qs alt)
  unfolding product
  product-IsCounted [] alt h k = tt
  product-IsCounted (q ∷ qs) alt (h, hs) k =
      All-append IsCounted (product_with o q alt) (product o qs alt)
        (product_with-IsCounted q alt h k) (product-IsCounted qs alt hs k)

  product-Lang :
      (qs alt : List StarQuery)
      → All IsCounted qs
      → All IsCounted alt
      → Same o.max_length (QueriesLang (product o qs alt)) (QueriesLang qs ⊙ QueriesLang alt)
  unfolding product
  product-Lang [] alt h k = Same-sym (none_⊙ (QueriesLang alt))
  product-Lang (q ∷ qs) alt (h, hs) k =
      Same-trans (Union-append StarLang (product_with o q alt) (product o qs alt)) (
        Same-trans (⊕_cong (product_with-Lang q alt h k) (product-Lang qs alt hs k))
          (Same-sym (⊙_distrib (StarLang q) (QueriesLang qs) (QueriesLang alt))))

  pub combine-IsCounted :
      (qs alt : List StarQuery)
      → All IsCounted qs
      → All IsCounted alt
      → All IsCounted (combine o qs alt)
  unfolding combine
  combine-IsCounted qs [] h k = tt
  combine-IsCounted qs (r ∷ []) h (k, _) = map-append-IsCounted r qs k h
  combine-IsCounted qs (r ∷ r' ∷ alt) h k = product-IsCounted qs (r ∷ r' ∷ alt) h k

  -- Within the bound on the length, combining is concatenation.
  pub combine-Lang :
      (qs alt : List StarQuery)
      → All IsCounted qs
      → All IsCounted alt
      → Same o.max_length (QueriesLang (combine o qs alt)) (QueriesLang qs ⊙ QueriesLang alt)
  unfolding combine
  combine-Lang qs [] h k = Same-sym (⊙_none (QueriesLang qs))
  combine-Lang qs (r ∷ []) h k =
      Same-trans (map-append-Lang r qs)
        (⊙_cong (Same-refl (QueriesLang qs)) (Same-sym (⊕_none (StarLang r))))
  combine-Lang qs (r ∷ r' ∷ alt) h k = product-Lang qs (r ∷ r' ∷ alt) h k

  pub keep_short-IsCounted :
      (qs : List StarQuery) → All IsCounted qs → All IsCounted (keep_short o qs)
  unfolding keep_short
  keep_short-IsCounted [] h = tt
  keep_short-IsCounted (q ∷ qs) (h, hs) = elim (Bool-cases (leb q.min_length o.max_length)) [
    | inl e ↦ rw e (h, keep_short-IsCounted qs hs)
    | inr e ↦ rw e (keep_short-IsCounted qs hs)
  ]

  too_long :
      (q : StarQuery)
      → IsCounted q
      → leb q.min_length o.max_length ≡ false
      → Same o.max_length (λ _. ⊥) (StarLang q)
  too_long q h e p short =
      (λ z. absurd z, λ x. (let least = required_le q.units p x in ground arith))

  pub keep_short-Lang :
      (qs : List StarQuery)
      → All IsCounted qs
      → Same o.max_length (QueriesLang (keep_short o qs)) (QueriesLang qs)
  unfolding keep_short
  keep_short-Lang [] h = Same-refl (λ _. ⊥)
  keep_short-Lang (q ∷ qs) (h, hs) = elim (Bool-cases (leb q.min_length o.max_length)) [
    | inl e ↦ rw e (⊕_cong (Same-refl (StarLang q)) (keep_short-Lang qs hs))
    | inr e ↦
        rw e (Same-trans (Same-sym (none_⊕ _)) (⊕_cong (too_long q h e) (keep_short-Lang qs hs)))
  ]
