-- ===== src/Normalizer/Expansion/Simple.antt =====
-- Star queries without a star, and how `max_length` tells them from the others.
use netspeak4_application_ng.Prelude.{
  ℕ, suc, ◌+◌, ◌%◌, ◌<◌, ◌≡◌, refl, ap, List, [], ◌∷◌, arith, length, u32_mod, uint32_max, ok,
}
use netspeak4_application_ng.Normalizer.StarQuery.{
  StarQueryUnit, word, qmark, star, max_length_from,
}
use netspeak4_application_ng.Normalizer.StarQuery.Lang.{required}
use netspeak4_application_ng.Normalizer.Expansion.{fill, star_count, simple_units}

-- `max_length` tells whether there is a star.
pub max_length-no_star :
    (m : ℕ) (us : List StarQueryUnit)
    → star_count us ≡ 0
    → m + required us < u32_mod
    → max_length_from m us ≡ m + required us
unfolding max_length_from star_count required
max_length-no_star m [] h k = omega arith
max_length-no_star m (word t s ∷ us) h k =
    omega (arith, max_length-no_star ((m + 1) % u32_mod) us h (omega arith))
max_length-no_star m (qmark s ∷ us) h k =
    omega (arith, max_length-no_star ((m + 1) % u32_mod) us h (omega arith))
max_length-no_star m (star s ∷ us) h k = absurd (omega arith)

pub max_length-star :
    (m : ℕ) (us : List StarQueryUnit) → 0 < star_count us → max_length_from m us ≡ uint32_max
unfolding max_length_from star_count
max_length-star m [] h = absurd (omega arith)
max_length-star m (word t s ∷ us) h = max_length-star ((m + 1) % u32_mod) us h
max_length-star m (qmark s ∷ us) h = max_length-star ((m + 1) % u32_mod) us h
max_length-star m (star s ∷ us) h = refl

pub simple_units-no_star :
    (us : List StarQueryUnit) → star_count us ≡ 0 → simple_units us ≡ ok (fill us [])
unfolding simple_units star_count fill
simple_units-no_star [] h = refl
simple_units-no_star (word t s ∷ us) h = rw (simple_units-no_star us h)
simple_units-no_star (qmark s ∷ us) h = rw (simple_units-no_star us h)
simple_units-no_star (star s ∷ us) h = absurd (omega arith)

pub length-fill_exact :
    (us : List StarQueryUnit) → star_count us ≡ 0 → length (fill us []) ≡ required us
unfolding fill star_count required
length-fill_exact [] h = refl
length-fill_exact (word t s ∷ us) h = ap suc (length-fill_exact us h)
length-fill_exact (qmark s ∷ us) h = ap suc (length-fill_exact us h)
length-fill_exact (star s ∷ us) h = absurd (omega arith)

pub no_segments : (us : List StarQueryUnit) (cs : List ℕ) → length cs ≡ 0 → fill us cs ≡ fill us []
no_segments us [] h = refl
no_segments us (c ∷ cs) h = absurd (omega arith)
