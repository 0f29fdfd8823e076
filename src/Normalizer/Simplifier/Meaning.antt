-- ===== src/Normalizer/Simplifier/Meaning.antt =====
-- What a query accepts, as the user wrote it, under the settings of the simplifier.
use netspeak4_application_ng.Prelude.{
  ◌≡◌, ◌≢◌, refl, ◌++◌, List, [], ◌∷◌, Text, Phrase, Option, none, some, Any, Result, ok, throw,
  invalid_query_error, ◌>>=◌, uint32_max, ◌<◌,
}
use netspeak4_application_ng.Language.{Lang, ε, ◌⊙◌, ◌⊕◌, OneWord, AnyPhrase, AtLeast}
use netspeak4_application_ng.Model.Query.{QueryUnit, QueryChildren}
use netspeak4_application_ng.Model.SimpleQuery.{SimpleQueryUnit, terminals}
use netspeak4_application_ng.Normalizer.Simplifier.{
  TextLibrary, QuerySimplifier, equal_range, get_text, unit_to_simple,
}
use netspeak4_application_ng.Util.Permutation.Reorder.{Reorder}

-- The phrases of a list, one behind the other.
abbrev pub joined : List Phrase → Phrase
joined [] = []
joined (a ∷ rest) = a ++ joined rest

-- A set of no or one element may be left out.
abbrev pub IsOptional : QueryChildren → Type 0
IsOptional QueryChildren.nil = Unit
IsOptional (QueryChildren.cons _ QueryChildren.nil) = Unit
IsOptional (QueryChildren.cons _ (QueryChildren.cons _ _)) = ⊥

module _ (matches : Text → Text → Type 0) (lib : TextLibrary) (c : QuerySimplifier) where
  -- The synonyms of a text, other than itself.
  abbrev pub SynonymLang : Text → Option (List (Text × Text)) → Lang
  SynonymLang t none p = ⊥
  SynonymLang t (some entries) p =
      Any (λ syn. (syn ≢ t) × (p ≡ lib.split_spaces syn)) (equal_range lib t entries)

  abbrev mutual
    pub QueryLang : QueryUnit → Lang
    QueryLang (QueryUnit.word t _) = OneWord (λ w. w ≡ get_text lib c t)
    QueryLang (QueryUnit.qmark _) = OneWord (λ _. Unit)
    QueryLang (QueryUnit.star _) = AnyPhrase
    QueryLang (QueryUnit.plus _) = AtLeast 1
    QueryLang (QueryUnit.regex t _) = OneWord (matches (get_text lib c t))
    QueryLang (QueryUnit.dictset t _) =
        OneWord (λ w. w ≡ get_text lib c t) ⊕ SynonymLang (get_text lib c t) c.dictionary
    QueryLang (QueryUnit.orderset _ us) = λ p.
        (parts : List Phrase) × (order : List Phrase) × PartsLang us parts
        × Reorder order parts
        × (p ≡ joined order)
    QueryLang (QueryUnit.optionset _ us) = (λ p. IsOptional us × ε p) ⊕ AnyOfLang us
    QueryLang (QueryUnit.alternation _ us) = AnyOfLang us
    QueryLang (QueryUnit.concat _ us) = InTurnLang us

    -- Each child accepts one part.
    pub PartsLang : QueryChildren → List Phrase → Type 0
    PartsLang QueryChildren.nil [] = Unit
    PartsLang QueryChildren.nil (_ ∷ _) = ⊥
    PartsLang (QueryChildren.cons u us) [] = ⊥
    PartsLang (QueryChildren.cons u us) (a ∷ rest) = QueryLang u a × PartsLang us rest

    pub AnyOfLang : QueryChildren → Lang
    AnyOfLang QueryChildren.nil = λ _. ⊥
    AnyOfLang (QueryChildren.cons u us) = QueryLang u ⊕ AnyOfLang us

    pub InTurnLang : QueryChildren → Lang
    InTurnLang QueryChildren.nil = ε
    InTurnLang (QueryChildren.cons u us) = QueryLang u ⊙ InTurnLang us

-- The call returns a value that satisfies `P`, or throws `invalid_query_error`.
abbrev pub Accepted : {A : Type 0} → (A → Type 0) → Result A → Type 0
Accepted P (ok a) = P a
Accepted P (throw e) = e ≡ invalid_query_error

pub Accepted-bind :
    {A B : Type 0} (P : A → Type 0) (Q : B → Type 0) (m : Result A) (f : A → Result B)
    → Accepted P m
    → ((a : A) → m ≡ ok a → P a → Accepted Q (f a))
    → Accepted Q (m >>= f)
Accepted-bind P Q (ok a) f h k = k a refl h
Accepted-bind P Q (throw e) f h k = h

pub Accepted-weaken :
    {A : Type 0} (P Q : A → Type 0) (m : Result A)
    → Accepted P m
    → ((a : A) → P a → Q a)
    → Accepted Q m
Accepted-weaken P Q (ok a) h k = k a h
Accepted-weaken P Q (throw e) h k = h

module _ (lib : TextLibrary) (c : QuerySimplifier) where
  -- The elements of order sets have fewer than 2^32 - 1 terminals.
  abbrev mutual
    pub HasSmallOrders : QueryUnit → Type 0
    HasSmallOrders (QueryUnit.orderset _ us) = HaveSmallOrders us × AreSmall us
    HasSmallOrders (QueryUnit.optionset _ us) = HaveSmallOrders us
    HasSmallOrders (QueryUnit.alternation _ us) = HaveSmallOrders us
    HasSmallOrders (QueryUnit.concat _ us) = HaveSmallOrders us
    HasSmallOrders _ = Unit

    pub HaveSmallOrders : QueryChildren → Type 0
    HaveSmallOrders QueryChildren.nil = Unit
    HaveSmallOrders (QueryChildren.cons u us) = HasSmallOrders u × HaveSmallOrders us

    pub AreSmall : QueryChildren → Type 0
    AreSmall QueryChildren.nil = Unit
    AreSmall (QueryChildren.cons u us) =
        ((v : SimpleQueryUnit) → unit_to_simple lib c u ≡ ok v → terminals v < uint32_max)
        × AreSmall us
