-- ===== src/Normalizer/Simplifier/Sound.antt =====
-- `QuerySimplifier` accepts nothing that the query does not accept.
use netspeak4_application_ng.Prelude.{
  ℕ, ◌+◌, ◌%◌, ◌≡◌, ◌<◌, refl, sym, ap, subst, ◌∙◌, ◌⊎◌, inl, inr, Bool, true, false, ◌||◌,
  Bool-cases, List, [], ◌∷◌, ◌++◌, Option, none, some, Text, Phrase, length, append_assoc,
  append-nil, if◌then◌else◌, arith, ok, throw, invalid_query_error, u32_mod, uint32_max, ltb, leb,
  ◌==◌,
}
use netspeak4_application_ng.Language.{Lang, ◌⊙◌, ◌⊕◌}
use netspeak4_application_ng.Model.LengthRange.{is_empty}
use netspeak4_application_ng.Model.NormQuery.{Source}
use netspeak4_application_ng.Model.Query.{QueryUnit, QueryChildren}
use netspeak4_application_ng.Model.SimpleQuery.{
  SimpleQueryUnit, from_list, SimpleLang, ConcatLang, AlternationLang, terminals, length_range,
}
use netspeak4_application_ng.Model.SimpleQuery
use netspeak4_application_ng.Model.SimpleQuery.Zero.{accepts_empty}
use netspeak4_application_ng.Normalizer.Simplifier.{
  TextLibrary, QuerySimplifier, get_text, unit_to_simple, to_source, dict_to_simple, order_elements,
  order_checked, to_simple, optional, add_element, add_alternatives, add_concatenated,
  collect_elements, add_to_concat, add_to_alternation,
}
use netspeak4_application_ng.Normalizer.Simplifier.Meaning.{
  QueryLang, AnyOfLang, InTurnLang, Accepted, Accepted-bind, Accepted-weaken, HasSmallOrders,
  HaveSmallOrders, AreSmall,
}
use netspeak4_application_ng.Normalizer.Simplifier.Orders.{
  Listed, Alternatives, add_to_concat-Listed, add_to_alternation-Alternatives,
}
use netspeak4_application_ng.Util.Math.{factorial}
use netspeak4_application_ng.Normalizer.Simplifier.Units.{
  dict_lookup-Lang, regex-Lang, plus-Lang, optional-Lang, Collected, Collected-skip, Collected-next,
  Kept-nil, Kept-Lang,
}

module _ (matches : Text → Text → Type 0) (lib : TextLibrary) (c : QuerySimplifier) where
  abbrev pub Within : Lang → SimpleQueryUnit → Type 0
  Within L v = (p : Phrase) → SimpleLang matches v p → L p

  order_checked-Within :
      (a : ℕ) (s : Source) (us : QueryChildren) (o : Option (List SimpleQueryUnit × ℕ))
      → Collected matches lib c [] us o
      → Accepted
          (Within (QueryLang matches lib c (QueryUnit.orderset a us)))
          (order_checked lib c s o)
  unfolding order_checked
  order_checked-Within a s us none h = λ p x. absurd x
  order_checked-Within a s us (some (elements, n)) h =
      go (ltb c.options.max_length n)
        (leb 7 (length elements) || ltb c.options.max_norm_queries (factorial (length elements)))
    where
      go :
          (b b' : Bool)
          → Accepted (Within (QueryLang matches lib c (QueryUnit.orderset a us))) (
              if b
              then ok (SimpleQuery.alternation s SimpleQuery.nil)
              else if b'
              then throw invalid_query_error
              else ok (order_elements lib c s elements))
      go true b' = λ p x. absurd x
      go false true = refl
      go false false = Kept-Lang matches lib c a s elements us h

  -- One round of the loop over the children of an order set.
  add_element-cases :
      (before : List SimpleQueryUnit) (sum : ℕ) (v : SimpleQueryUnit)
      → terminals v < uint32_max
      → let sum' = (sum + (length_range v).min) % u32_mod in
        (add_element lib c before sum v ≡ none)
        ⊎ ((add_element lib c before sum v ≡ some (before, sum')) × SimpleLang matches v [])
        ⊎ (add_element lib c before sum v ≡ some (before ++ v ∷ [], sum'))
  unfolding add_element is_empty
  add_element-cases before sum v small = elim (Bool-cases ((length_range v).min == uint32_max)) [
    | inl e ↦ inl (rw e refl)
    | inr e ↦ elim (Bool-cases ((length_range v).max == 0)) [
      | inl f ↦
          inr (inl (rw (e, f) refl, accepts_empty matches v small (ground arith) (ground arith)))
      | inr f ↦ inr (inr (rw (e, f) refl))
    ]
  ]

  mutual
    unfolding unit_to_simple add_alternatives add_concatenated collect_elements get_text to_source
        dict_to_simple from_list

    unit_to_simple-Within :
        (u : QueryUnit)
        → HasSmallOrders lib c u
        → Accepted (Within (QueryLang matches lib c u)) (unit_to_simple lib c u)
    unit_to_simple-Within (QueryUnit.word t a) h = λ p x. x
    unit_to_simple-Within (QueryUnit.qmark a) h = λ p x. x
    unit_to_simple-Within (QueryUnit.star a) h = λ p x. x
    unit_to_simple-Within (QueryUnit.plus a) h = plus-Lang matches lib c a
    unit_to_simple-Within (QueryUnit.regex t a) h = regex-Lang matches lib c t a
    unit_to_simple-Within (QueryUnit.dictset t a) h =
        dict_lookup-Lang matches lib c (to_source lib c a) (get_text lib c t) c.dictionary
    unit_to_simple-Within (QueryUnit.optionset a us) h =
        Accepted-bind _ _ (add_alternatives lib c (optional lib c (to_source lib c a) us) us) _
          (add_alternatives-Within (optional lib c (to_source lib c a) us) us h)
          (λ alt e k p x. elim (k p x) [
            | inl y ↦ inl (optional-Lang matches lib c (to_source lib c a) us p y)
            | inr y ↦ inr y
          ])
    unit_to_simple-Within (QueryUnit.orderset a us) (h, small) =
        Accepted-bind (Collected matches lib c [] us) _ (collect_elements lib c [] 0 us) _
          (collect_elements-Collected [] 0 us h small)
          (λ o e k. order_checked-Within a (to_source lib c a) us o k)
    unit_to_simple-Within (QueryUnit.alternation a us) h =
        Accepted-bind _ _ (add_alternatives lib c [] us) _ (add_alternatives-Within [] us h)
          (λ alt e k p x. elim (k p x) [ inl y ↦ absurd y | inr y ↦ y ])
    unit_to_simple-Within (QueryUnit.concat a us) h =
        Accepted-bind _ _ (add_concatenated lib c [] us) _ (add_concatenated-Within [] us h)
          (λ us' e k p x.
            let (b, d, f, nothing, y) = k p x in
            subst (InTurnLang matches lib c us) (sym (f ∙ ap (λ t. t ++ d) nothing)) y)

    add_alternatives-Within :
        (alt : List SimpleQueryUnit) (us : QueryChildren)
        → HaveSmallOrders lib c us
        → Accepted
            (λ alt'.
              (p : Phrase)
              → Alternatives matches alt' p
              → (Alternatives matches alt ⊕ AnyOfLang matches lib c us) p)
            (add_alternatives lib c alt us)
    add_alternatives-Within alt QueryChildren.nil h = λ p x. inl x
    add_alternatives-Within alt (QueryChildren.cons u us) (h, hs) =
        Accepted-bind _ _ (unit_to_simple lib c u) _ (unit_to_simple-Within u h) (λ v e k.
          Accepted-weaken _ _ (add_alternatives lib c (add_to_alternation alt v) us)
            (add_alternatives-Within (add_to_alternation alt v) us hs)
            (λ alt' m p x. elim (m p x) [
              | inl y ↦ elim (add_to_alternation-Alternatives matches alt v p y) [
                | inl z ↦ inl z
                | inr z ↦ inr (inl (k p z))
              ]
              | inr y ↦ inr (inr y)
            ]))

    add_concatenated-Within :
        (before : List SimpleQueryUnit) (us : QueryChildren)
        → HaveSmallOrders lib c us
        → Accepted
            (λ after.
              (p : Phrase)
              → Listed matches after p
              → (Listed matches before ⊙ InTurnLang matches lib c us) p)
            (add_concatenated lib c before us)
    add_concatenated-Within before QueryChildren.nil h = λ p x. (p, [], sym (append-nil p), x, refl)
    add_concatenated-Within before (QueryChildren.cons u us) (h, hs) =
        Accepted-bind _ _ (unit_to_simple lib c u) _ (unit_to_simple-Within u h) (λ v e k.
          Accepted-weaken _ _ (add_concatenated lib c (add_to_concat before v) us)
            (add_concatenated-Within (add_to_concat before v) us hs)
            (λ after m p x.
              let (b, d, f, y, z) = m p x in
              let (b', b'', f', y', y'') = add_to_concat-Listed matches before v b y in
              (
                b',
                b'' ++ d,
                f ∙ ap (λ t. t ++ d) f' ∙ append_assoc b' b'' d,
                y',
                (b'', d, refl, k b'' y'', z),
              )))

    collect_elements-Collected :
        (before : List SimpleQueryUnit) (sum : ℕ) (us : QueryChildren)
        → HaveSmallOrders lib c us
        → AreSmall lib c us
        → Accepted (Collected matches lib c before us) (collect_elements lib c before sum us)
    collect_elements-Collected before sum QueryChildren.nil h small = Kept-nil matches lib c before
    collect_elements-Collected before sum (QueryChildren.cons u us) (h, hs) (small, smalls) =
        Accepted-bind _ _ (unit_to_simple lib c u) _ (unit_to_simple-Within u h) (λ v e k.
          let sum' = (sum + (length_range v).min) % u32_mod in
          elim (add_element-cases before sum v (small v e)) [
            | inl f ↦ rw f tt
            | inr (inl (f, x)) ↦ rw f (
                Accepted-weaken _ _ (collect_elements lib c before sum' us)
                  (collect_elements-Collected before sum' us hs smalls)
                  (Collected-skip matches lib c before u us (k [] x)))
            | inr (inr f) ↦ rw f (
                Accepted-weaken _ _ (collect_elements lib c (before ++ v ∷ []) sum' us)
                  (collect_elements-Collected (before ++ v ∷ []) sum' us hs smalls)
                  (Collected-next matches lib c before v u us k))
          ])

  -- The simple form of a query accepts only phrases that the query accepts, or
  -- `invalid_query_error` is thrown, where the elements of its order sets have fewer than 2^32 - 1
  -- terminals.
  pub to_simple-Sound :
      (query : QueryUnit)
      → HasSmallOrders lib c query
      → Accepted (Within (QueryLang matches lib c query)) (to_simple lib c query)
  unfolding to_simple
  to_simple-Sound query h = unit_to_simple-Within query h
