-- ===== src/Normalizer/Simplifier/Permuted.antt =====
-- The alternation that an order set becomes accepts what its elements accept in some order.
use netspeak4_application_ng.Prelude.{
  ℕ, zero, suc, ◌+◌, ◌≡◌, refl, sym, ap, subst, ◌∙◌, inl, inr, Bool, true, false, List, [], ◌∷◌,
  ◌++◌, Option, none, some, Text, Phrase, length, get_elem?, append_assoc, append-nil,
  if◌then◌else◌, length-append,
}
use netspeak4_application_ng.Model.NormQuery.{Source}
use netspeak4_application_ng.Model.SimpleQuery.{SimpleQueryUnit, from_list, SimpleLang}
use netspeak4_application_ng.Normalizer.Simplifier.{
  TextLibrary, QuerySimplifier, add_to_concat, all_permutations, range_from, permuted,
  permuted_concats, order_elements,
}
use netspeak4_application_ng.Normalizer.Simplifier.Meaning.{joined}
use netspeak4_application_ng.Normalizer.Simplifier.Orders.{
  Matched, Matched-Reorder, Listed, Alternatives, add_to_concat-Listed,
}
use netspeak4_application_ng.Util.Math.{factorial}
use netspeak4_application_ng.Util.Permutation.{next_permutation}
use netspeak4_application_ng.Util.Permutation.Reorder.{
  Reorder, same_order, flip, next_permutation-Reorder,
}

module _ (elements : List SimpleQueryUnit) where
  abbrev IsAt : ℕ → SimpleQueryUnit → Type 0
  IsAt i u = get_elem? elements i ≡ some u

get_elem?-middle :
    (us : List SimpleQueryUnit) (v : SimpleQueryUnit) (vs : List SimpleQueryUnit)
    → get_elem? (us ++ v ∷ vs) (length us) ≡ some v
get_elem?-middle [] v vs = refl
get_elem?-middle (u ∷ us) v vs = get_elem?-middle us v vs

range_from-IsAt :
    (us vs : List SimpleQueryUnit)
    → Matched (IsAt (us ++ vs)) (range_from (length us) (length vs)) vs
unfolding range_from
range_from-IsAt us [] = tt
range_from-IsAt us (v ∷ vs) = (
  get_elem?-middle us v vs,
  subst (λ ws. Matched (IsAt ws) (range_from (length us + 1) (length vs)) vs)
      (append_assoc us (v ∷ []) vs)
      (subst (λ n. Matched (IsAt ((us ++ v ∷ []) ++ vs)) (range_from n (length vs)) vs)
        (length-append us (v ∷ [])) (range_from-IsAt (us ++ v ∷ []) vs)),
)

module _ (matches : Text → Text → Type 0) where
  abbrev Accept : List SimpleQueryUnit → List Phrase → Type 0
  Accept = Matched (SimpleLang matches)

  permuted-Listed :
      (elements acc : List SimpleQueryUnit) (indexes : List ℕ) (us : List SimpleQueryUnit)
      → Matched (IsAt elements) indexes us
      → (p : Phrase) → Listed matches (permuted elements acc indexes) p
      → (a : Phrase) × (parts : List Phrase) × Listed matches acc a
        × Accept us parts
        × (p ≡ a ++ joined parts)
  unfolding permuted
  permuted-Listed elements acc [] [] m p h = (p, [], h, tt, sym (append-nil p))
  permuted-Listed elements acc [] (u ∷ us) m p h = absurd m
  permuted-Listed elements acc (i ∷ indexes) [] m p h = absurd m
  permuted-Listed elements acc (i ∷ indexes) (u ∷ us) (e, m) p h =
      let (a, parts, x, ys, f) =
        permuted-Listed elements (add_to_concat acc u) indexes us m p
          (go (get_elem? elements i) e h) in
      let (b, d, g, x', y) = add_to_concat-Listed matches acc u a x in
      (
        b,
        d ∷ parts,
        x',
        (y, ys),
        f ∙ ap (λ t. t ++ joined parts) g ∙ append_assoc b d (joined parts),
      )
    where
      go :
          (o : Option SimpleQueryUnit)
          → o ≡ some u
          → Listed matches
              (elim o [ none ↦ acc | some v ↦ permuted elements (add_to_concat acc v) indexes ])
              p
          → Listed matches (permuted elements (add_to_concat acc u) indexes) p
      go none f k = cc
      go (some v) f k =
          subst (λ w. Listed matches (permuted elements (add_to_concat acc w) indexes) p)
            (some_inj f) k
        where
          some_inj : some v ≡ some u → v ≡ u
          some_inj r = cc

  permuted_concats-Listed :
      (s : Source) (elements : List SimpleQueryUnit) (fuel : ℕ) (indexes : List ℕ) (p : Phrase)
      → Alternatives matches (permuted_concats s elements (all_permutations fuel indexes)) p
      → (order : List ℕ) × Reorder order indexes × Listed matches (permuted elements [] order) p
  unfolding permuted_concats all_permutations from_list
  permuted_concats-Listed s elements zero indexes p h = absurd h
  permuted_concats-Listed s elements (suc fuel) indexes p (inl h) = (indexes, same_order indexes, h)
  permuted_concats-Listed s elements (suc fuel) indexes p (inr h) =
      let (order, r, x) =
        permuted_concats-Listed s elements fuel (next_permutation indexes).0 p
          (rest_of (next_permutation indexes).1 h) in
      (order, Reorder.trans r (next_permutation-Reorder indexes), x)
    where
      rest_of :
          (more : Bool)
          → Alternatives matches
              (permuted_concats s elements
                (if more then all_permutations fuel (next_permutation indexes).0 else []))
              p
          → Alternatives matches
              (permuted_concats s elements (all_permutations fuel (next_permutation indexes).0))
              p
      rest_of true k = k
      rest_of false k = absurd k

  -- What the end of `order_to_simple` makes of the elements of an order set.
  pub order_elements-Accept :
      (lib : TextLibrary) (c : QuerySimplifier) (s : Source) (elements : List SimpleQueryUnit)
      (p : Phrase)
      → SimpleLang matches (order_elements lib c s elements) p
      → (parts : List Phrase) × (order : List Phrase) × Accept elements parts
        × Reorder order parts
        × (p ≡ joined order)
  unfolding order_elements from_list
  order_elements-Accept lib c s [] p h = ([], [], tt, Reorder.nil, h)
  order_elements-Accept lib c s (u ∷ []) p h =
      (p ∷ [], p ∷ [], (h, tt), same_order (p ∷ []), sym (append-nil p))
  order_elements-Accept lib c s (u ∷ v ∷ us) p h =
      let elements = u ∷ v ∷ us in
      let (indexes, r, x) =
        permuted_concats-Listed s elements (factorial (length elements))
          (range_from 0 (length elements)) p h in
      let (vs, r', m) =
        Matched-Reorder (IsAt elements) elements (flip r) (range_from-IsAt [] elements) in
      let (a, order, nothing, accepted, e) = permuted-Listed elements [] indexes vs m p x in
      let (parts, r'', accepted') = Matched-Reorder (SimpleLang matches) order (flip r') accepted in
      (parts, order, accepted', r'', e ∙ ap (λ t. t ++ joined order) nothing)
