-- ===== src/Interner/Examples.antt =====
-- The theorems about ch04-02-interner.rs at concrete texts.
use model_lib.Base.{name_eq, ◌≡◌, ◌↔◌, some, List, [], ◌∷◌, map, codes, get_name, Name, arith, refl}
use model_lib.Interner.Defs.{Interner, empty, intern, resolve, intern_all}
use model_lib.Interner.RoundTrip.{
  IsSound, empty-IsSound, intern-IsSound, resolve-intern_all, intern-eq_iff,
}

abbrev words : List Name
words = codes "let" ∷ codes "value" ∷ codes "let" ∷ []

shares : (intern_all words empty).0 ≡ 0 ∷ 1 ∷ 0 ∷ []
unfolding intern_all get_name name_eq
shares = refl

abbrev stored : Interner
stored = (intern (codes "let") empty).1

stored-IsSound : IsSound stored
stored-IsSound = intern-IsSound (codes "let") empty empty-IsSound (omega arith)

resolve-intern_all_example :
    map (resolve (intern_all words empty).1) (intern_all words empty).0 ≡ map some words
resolve-intern_all_example = resolve-intern_all words empty empty-IsSound (omega arith)

intern-eq_iff_example :
    ((intern (codes "value") stored).0 ≡ (intern (codes "let") (intern (codes "value") stored).1).0)
    ↔ (codes "value" ≡ codes "let")
unfolding intern get_name
intern-eq_iff_example =
    intern-eq_iff (codes "value") (codes "let") stored stored-IsSound (omega arith)
