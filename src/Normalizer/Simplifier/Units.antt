-- ===== src/Normalizer/Simplifier/Units.antt =====
-- What single units become, and which children of an order set are kept.
use netspeak4_application_ng.Prelude.{
  ℕ, zero, suc, ◌≡◌, ◌≢◌, refl, sym, ap, subst, ◌∙◌, ◌⊎◌, inl, inr, Bool, true, false, List, [],
  ◌∷◌, ◌++◌, Option, none, some, Text, Phrase, length, length-append, ◌≤◌, append_assoc, append-nil,
  if◌then◌else◌, arith, Any, text_eq, text_eq_self, replicate,
}
use netspeak4_application_ng.Language.{ε, OneWord}
use netspeak4_application_ng.Model.NormQuery.{Source}
use netspeak4_application_ng.Model.Query.{QueryUnit, QueryChildren}
use netspeak4_application_ng.Model.SimpleQuery.{
  SimpleQueryUnit, from_list, SimpleLang, ConcatLang, AlternationLang, terminals, length_range,
}
use netspeak4_application_ng.Model.SimpleQuery
use netspeak4_application_ng.Normalizer.Simplifier.{
  TextLibrary, QuerySimplifier, equal_range, get_text, words_of, synonym, synonyms, dict_choice,
  dict_lookup, to_source, plus_to_simple, regex_to_simple, order_elements, optional,
}
use netspeak4_application_ng.Normalizer.Simplifier.Meaning.{
  joined, IsOptional, SynonymLang, QueryLang, PartsLang,
}
use netspeak4_application_ng.Normalizer.Simplifier.Orders.{Matched, Listed, Alternatives}
use netspeak4_application_ng.Normalizer.Simplifier.Permuted.{order_elements-Accept}
use netspeak4_application_ng.Util.Permutation.Reorder.{Reorder, flip, in_front, to_front}

module _ (matches : Text → Text → Type 0) (lib : TextLibrary) where
  words_of-Listed :
      (s : Source) (ws : List Text) (p : Phrase) → Listed matches (words_of s ws) p → p ≡ ws
  unfolding words_of from_list
  words_of-Listed s [] p h = h
  words_of-Listed s (w ∷ ws) p (a, b, e, (w', f, g), y) =
      e ∙ ap (λ t. t ++ b) f ∙ ap (λ t. t ∷ b) g ∙ ap (λ t. w ∷ t) (words_of-Listed s ws b y)

  synonym-Lang :
      (s : Source) (ws : List Text) (p : Phrase) → SimpleLang matches (synonym s ws) p → p ≡ ws
  unfolding synonym
  synonym-Lang s [] p h = words_of-Listed s [] p h
  synonym-Lang s (w ∷ []) p (w', e, f) = e ∙ ap (λ t. t ∷ []) f
  synonym-Lang s (w ∷ w' ∷ ws) p h = words_of-Listed s (w ∷ w' ∷ ws) p h

  abbrev IsSynonym : Text → List Text → Phrase → Type 0
  IsSynonym text range p = Any (λ syn. (syn ≢ text) × (p ≡ lib.split_spaces syn)) range

  synonyms-IsSynonym :
      (s : Source) (text : Text) (range : List Text) (p : Phrase)
      → Alternatives matches (synonyms lib s text range) p
      → IsSynonym text range p
  unfolding synonyms from_list
  synonyms-IsSynonym s text [] p h = absurd h
  synonyms-IsSynonym s text (syn ∷ range) p h =
      go (text_eq syn text) refl h (synonyms-IsSynonym s text range p)
    where
      go :
          (b : Bool)
          → text_eq syn text ≡ b
          → Alternatives matches
              (if b
                then synonyms lib s text range
                else synonym s (lib.split_spaces syn) ∷ synonyms lib s text range)
              p
          → (Alternatives matches (synonyms lib s text range) p → IsSynonym text range p)
          → IsSynonym text (syn ∷ range) p
      go true e x k = inr (k x)
      go false e (inr x) k = inr (k x)
      go false e (inl x) k = inl (differs e, synonym-Lang s (lib.split_spaces syn) p x)
        where
          differs : text_eq syn text ≡ false → syn ≢ text
          differs f g = cc (subst (λ t. text_eq syn t ≡ false) (sym g) f, text_eq_self syn)

  dict_choice-Lang :
      (s : Source) (text : Text) (range : List Text) (p : Phrase)
      → SimpleLang matches (dict_choice lib s text range) p
      → OneWord (λ w. w ≡ text) p ⊎ IsSynonym text range p
  unfolding dict_choice from_list
  dict_choice-Lang s text [] p h = inl h
  dict_choice-Lang s text (syn ∷ range) p (inl x) = inl x
  dict_choice-Lang s text (syn ∷ range) p (inr y) =
      inr (synonyms-IsSynonym s text (syn ∷ range) p y)

  module _ (c : QuerySimplifier) where
    pub dict_lookup-Lang :
        (s : Source) (text : Text) (d : Option (List (Text × Text))) (p : Phrase)
        → SimpleLang matches (dict_lookup lib s text d) p
        → OneWord (λ w. w ≡ text) p ⊎ SynonymLang matches lib c text d p
    unfolding dict_lookup
    dict_lookup-Lang s text none p h = inl h
    dict_lookup-Lang s text (some entries) p h =
        dict_choice-Lang s text (equal_range lib text entries) p h

    pub regex-Lang :
        (t : Text) (a : ℕ) (p : Phrase)
        → SimpleLang matches (regex_to_simple lib c t a) p
        → OneWord (matches (get_text lib c t)) p
    unfolding regex_to_simple
    regex-Lang t a p h = go c.allow_regex h
      where
        go :
            (b : Bool)
            → SimpleLang matches
                (if b
                  then SimpleQuery.regex (get_text lib c t) (to_source lib c a)
                  else SimpleQuery.alternation (to_source lib c a) SimpleQuery.nil)
                p
            → OneWord (matches (get_text lib c t)) p
        go true k = k
        go false k = absurd k

    pub plus-Lang :
        (a : ℕ) (p : Phrase) → SimpleLang matches (plus_to_simple lib c a) p → 1 ≤ length p
    unfolding plus_to_simple from_list
    plus-Lang a p (x, y, e, (w, f, _), _) =
        omega (arith, ap length e, length-append x y, ap length f)

    pub optional-Lang :
        (s : Source) (us : QueryChildren) (p : Phrase)
        → Alternatives matches (optional lib c s us) p
        → IsOptional us × ε p
    unfolding optional from_list
    optional-Lang s QueryChildren.nil p (inl x) = (tt, x)
    optional-Lang s QueryChildren.nil p (inr y) = absurd y
    optional-Lang s (QueryChildren.cons u QueryChildren.nil) p (inl x) = (tt, x)
    optional-Lang s (QueryChildren.cons u QueryChildren.nil) p (inr y) = absurd y
    optional-Lang s (QueryChildren.cons u (QueryChildren.cons v us)) p h = absurd h

    -- The elements that are kept, and the children that they come from.
    abbrev pub Kept : List SimpleQueryUnit → List SimpleQueryUnit → QueryChildren → Type 0
    Kept before elements us =
        (new : List SimpleQueryUnit) × (elements ≡ before ++ new)
        × ((parts : List Phrase)
            → Matched (SimpleLang matches) new parts
            → (parts' : List Phrase) × PartsLang matches lib c us parts'
              × (n : ℕ) × Reorder parts' (replicate n [] ++ parts))

    abbrev pub Collected :
        List SimpleQueryUnit → QueryChildren → Option (List SimpleQueryUnit × ℕ) → Type 0
    Collected before us none = Unit
    Collected before us (some (elements, _)) = Kept before elements us

    Kept-skip :
        (before elements : List SimpleQueryUnit) (u : QueryUnit) (us : QueryChildren)
        → QueryLang matches lib c u []
        → Kept before elements us
        → Kept before elements (QueryChildren.cons u us)
    Kept-skip before elements u us x (new, e, k) = (
      new,
      e,
      λ parts m.
          let (parts', y, n, r) = k parts m in ([] ∷ parts', (x, y), suc n, Reorder.cons [] r),
    )

    Kept-next :
        (before elements : List SimpleQueryUnit) (v : SimpleQueryUnit) (u : QueryUnit)
        (us : QueryChildren)
        → ((p : Phrase) → SimpleLang matches v p → QueryLang matches lib c u p)
        → Kept (before ++ v ∷ []) elements us
        → Kept before elements (QueryChildren.cons u us)
    Kept-next before elements v u us x (new, e, k) =
        (v ∷ new, e ∙ append_assoc before (v ∷ []) new, next)
      where
        next :
            (parts : List Phrase)
            → Matched (SimpleLang matches) (v ∷ new) parts
            → (parts' : List Phrase) × PartsLang matches lib c (QueryChildren.cons u us) parts'
              × (n : ℕ) × Reorder parts' (replicate n [] ++ parts)
        next [] m = absurd m
        next (a ∷ parts) (y, m) =
            let (parts', z, n, r) = k parts m in
            (
              a ∷ parts',
              (x a y, z),
              n,
              Reorder.trans (Reorder.cons a r) (flip (to_front (replicate n []) a parts)),
            )

    joined-replicate :
        (n : ℕ) (order : List Phrase) → joined (replicate n [] ++ order) ≡ joined order
    joined-replicate zero order = refl
    joined-replicate (suc n) order = joined-replicate n order

    pub Kept-Lang :
        (a : ℕ) (s : Source) (elements : List SimpleQueryUnit) (us : QueryChildren)
        → Kept [] elements us
        → (p : Phrase) → SimpleLang matches (order_elements lib c s elements) p
        → QueryLang matches lib c (QueryUnit.orderset a us) p
    Kept-Lang a s elements us (new, e, k) p h =
        let (parts, order, m, r, f) = order_elements-Accept matches lib c s elements p h in
        let (parts', y, n, r') =
          k parts (subst (λ es. Matched (SimpleLang matches) es parts) e m) in
        (
          parts',
          replicate n [] ++ order,
          y,
          Reorder.trans (in_front (replicate n []) r) (flip r'),
          f ∙ sym (joined-replicate n order),
        )

    pub Kept-nil : (before : List SimpleQueryUnit) → Kept before before QueryChildren.nil
    Kept-nil before = ([], sym (append-nil before), nothing)
      where
        nothing :
            (parts : List Phrase)
            → Matched (SimpleLang matches) [] parts
            → (parts' : List Phrase) × PartsLang matches lib c QueryChildren.nil parts'
              × (n : ℕ) × Reorder parts' (replicate n [] ++ parts)
        nothing [] m = ([], tt, 0, Reorder.nil)
        nothing (a ∷ parts) m = absurd m

    pub Collected-skip :
        (before : List SimpleQueryUnit) (u : QueryUnit) (us : QueryChildren)
        → QueryLang matches lib c u []
        → (o : Option (List SimpleQueryUnit × ℕ)) → Collected before us o
        → Collected before (QueryChildren.cons u us) o
    Collected-skip before u us x none m = tt
    Collected-skip before u us x (some (elements, _)) m = Kept-skip before elements u us x m

    pub Collected-next :
        (before : List SimpleQueryUnit) (v : SimpleQueryUnit) (u : QueryUnit) (us : QueryChildren)
        → ((p : Phrase) → SimpleLang matches v p → QueryLang matches lib c u p)
        → (o : Option (List SimpleQueryUnit × ℕ)) → Collected (before ++ v ∷ []) us o
        → Collected before (QueryChildren.cons u us) o
    Collected-next before v u us x none m = tt
    Collected-next before v u us x (some (elements, _)) m = Kept-next before elements v u us x m
