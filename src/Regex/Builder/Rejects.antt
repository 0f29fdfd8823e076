-- ===== src/Regex/Builder/Rejects.antt =====
-- When the query of a builder rejects every word.
use netspeak4_application_ng.Prelude.{
  ◌≡◌, refl, ◌↔◌, inl, List, [], ◌∷◌, ◌++◌, arith, Text, Bool, true, false, All, reverse,
}
use netspeak4_application_ng.Regex.Query.{
  RegexUnit, qmark, star, word, char_set, optional_word, create_reject_all, rejects_all,
}
use netspeak4_application_ng.Regex.Query.Combinations.{IsSmall, rejects_all_sound}
use netspeak4_application_ng.Regex.Lang.{UnitLang, BackLang, RegexLang, UnitsLang-reverse}
use netspeak4_application_ng.Regex.Builder.{RegexQueryBuilder, to_query}
use netspeak4_application_ng.Regex.Builder.Normal.{IsProper, IsNormal}

IsProper-word : (u : RegexUnit) → IsProper u → (w : Text) × UnitLang u w
IsProper-word qmark h = (0 ∷ [], (0, refl))
IsProper-word star h = ([], tt)
IsProper-word (word t) h = (t, refl)
IsProper-word (char_set []) h = absurd (omega arith)
IsProper-word (char_set (c ∷ cs)) h = (c ∷ [], (c, refl, inl refl))
IsProper-word (optional_word t) h = ([], inl refl)

IsNormal-word : (us : List RegexUnit) → IsNormal us → (w : Text) × BackLang us w
IsNormal-word [] h = ([], refl)
IsNormal-word (u ∷ us) (p, _, n) =
    let (a, x) = IsNormal-word us n in
    let (b, y) = IsProper-word u p in (a ++ b, (a, b, refl, x, y))

rejects_all-units_iff :
    (us : List RegexUnit) (r : Bool)
    → IsNormal us
    → All IsSmall (to_query (record { units = us; reject_all = r })).units
    → (rejects_all (to_query (record { units = us; reject_all = r })) ≡ true)
      ↔ ((w : Text) → ¬ RegexLang (to_query (record { units = us; reject_all = r })) w)
unfolding to_query
rejects_all-units_iff us true n s = (rejects_all_sound create_reject_all s, λ _. closed)
  where
    closed : rejects_all create_reject_all ≡ true
    closed = unfold rejects_all in unfold create_reject_all in refl
rejects_all-units_iff us false n s =
    let (w, x) = IsNormal-word us n in
    (
      rejects_all_sound (record { units = reverse us }) s,
      λ h. absurd (h w ((UnitsLang-reverse us w).1 x)),
    )

-- For a builder in normal form whose query has sets of fewer than 2^32 characters: the query's test
-- for rejecting all words holds exactly when the query accepts no word.
pub rejects_all_iff :
    (b : RegexQueryBuilder)
    → IsNormal b.units
    → All IsSmall (to_query b).units
    → (rejects_all (to_query b) ≡ true) ↔ ((w : Text) → ¬ RegexLang (to_query b) w)
rejects_all_iff b n s = rejects_all-units_iff b.units b.reject_all n s
