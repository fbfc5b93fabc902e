-- ===== src/Interner/RoundTrip.antt =====
-- The interner of ch04-02-interner.rs: how its map and its vector answer to each other.
use mathlib.Core.Path.{subst, ap₂}
use model_lib.Base.{
  ℕ, suc, ◌+◌, ◌^◌, ◌≤◌, ◌<◌, ◌≡◌, ◌↔◌, refl, ap, sym, ◌∙◌, ◌⊎◌, inl, inr, Bool-cases, Option,
  Option-cases, none, some, List, [], ◌∷◌, ◌++◌, map, length, length-append, get_elem?,
  get_elem?-append, get_elem?-keeps, get_elem?-push, get_name, insert_name, Name, name_eq,
  name_eq→eq, name_eq_refl, arith,
}
use model_lib.Interner.Defs.{Symbol, Interner, empty, fresh, added, intern, resolve, intern_all}

-- The map and the vector are inverse to each other.
pub record IsSound (r : Interner) : Type 0 where
  pub stored : (s : Name) (k : Symbol) → get_name s r.map ≡ some k → get_elem? r.strings k ≡ some s
  pub named : (k : Symbol) (s : Name) → get_elem? r.strings k ≡ some s → get_name s r.map ≡ some k

pub empty-IsSound : IsSound empty
unfolding get_name
empty-IsSound = record { stored = λ s k h. cc; named = λ k s h. cc }

-- There is a symbol left for one more text.
abbrev pub HasRoom : Interner → Type 0
HasRoom r = length r.strings < 2 ^ 32

name_inj : {a b : Name} → some a ≡ some b → a ≡ b
name_inj e = cc

some_inj : {a b : ℕ} → some a ≡ some b → a ≡ b
some_inj e = cc

none-some : {a : ℕ} → ◌≡◌ {A = Option ℕ} none (some a) → ⊥
none-some e = cc

get_insert-same :
    (s : Name) (k : Symbol) (m : List (Name × Symbol)) → get_name s (insert_name s k m) ≡ some k
unfolding get_name
get_insert-same s k m = rw (name_eq_refl s) refl

get_insert-cases :
    (s t : Name) (k : Symbol) (m : List (Name × Symbol))
    → ((s ≡ t) × (get_name t (insert_name s k m) ≡ some k))
      ⊎ (get_name t (insert_name s k m) ≡ get_name t m)
unfolding get_name
get_insert-cases s t k m = elim (Bool-cases (name_eq s t)) [
  | inl e ↦ inl (name_eq→eq s t e, rw e refl)
  | inr e ↦ inr (rw e refl)
]

added-IsSound :
    (s : Name) (r : Interner)
    → IsSound r
    → HasRoom r
    → get_name s r.map ≡ none
    → IsSound (added s r)
added-IsSound s r v room new =
    let n : fresh r ≡ length r.strings = omega arith in
    record {
      stored = λ t k h. elim (get_insert-cases s t (fresh r) r.map) [
        | inl (same, e) ↦
            let k_eq : k ≡ length r.strings = some_inj (sym h ∙ e) ∙ n in
            subst (λ j. get_elem? (r.strings ++ s ∷ []) j ≡ some t) (sym k_eq)
              (get_elem?-append r.strings [] s ∙ ap some same)
        | inr e ↦ get_elem?-keeps r.strings (s ∷ []) k t (v.stored t k (sym e ∙ h))
      ];
      named = λ k t h. elim (get_elem?-push r.strings s k t h) [
        | inl e ↦ elim (get_insert-cases s t (fresh r) r.map) [
          | inl (same, _) ↦
              absurd (none-some (sym new ∙ ap (λ x. get_name x r.map) same ∙ v.named k t e))
          | inr q ↦ q ∙ v.named k t e
        ]
        | inr (p, same) ↦
            subst (λ x. get_name x (insert_name s (fresh r) r.map) ≡ some k) same
              (get_insert-same s (fresh r) r.map ∙ ap some (n ∙ sym p))
      ];
    }

-- Interning keeps the map and the vector inverse to each other, while a symbol is left.
pub intern-IsSound : (s : Name) (r : Interner) → IsSound r → HasRoom r → IsSound (intern s r).1
unfolding intern
intern-IsSound s r v room = elim (Option-cases (get_name s r.map)) [
  | inl e ↦ rw (e, intern) (added-IsSound s r v room e)
  | inr (k, e) ↦ rw (e, intern) v
]

resolve-intern_lem :
    (s : Name) (r : Interner)
    → IsSound r
    → HasRoom r
    → resolve (intern s r).1 (intern s r).0 ≡ some s
unfolding intern resolve
resolve-intern_lem s r v room = elim (Option-cases (get_name s r.map)) [
  | inl e ↦
      let n : fresh r ≡ length r.strings = omega arith in
      rw (e, intern)
        (subst (λ j. get_elem? (r.strings ++ s ∷ []) j ≡ some s) (sym n)
          (get_elem?-append r.strings [] s))
  | inr (k, e) ↦ rw (e, intern) (v.stored s k e)
]

-- Symbols that were handed out keep their texts.
pub resolve-intern-keeps :
    (s t : Name) (r : Interner) (k : Symbol)
    → resolve r k ≡ some t
    → resolve (intern s r).1 k ≡ some t
unfolding intern resolve
resolve-intern-keeps s t r k h = elim (Option-cases (get_name s r.map)) [
  | inl e ↦ rw (e, intern) (get_elem?-keeps r.strings (s ∷ []) k t h)
  | inr (j, e) ↦ rw (e, intern) h
]

length-intern : (s : Name) (r : Interner) → length (intern s r).1.strings ≤ suc (length r.strings)
unfolding intern
length-intern s r = elim (Option-cases (get_name s r.map)) [
  | inl e ↦ rw (e, intern) (omega (arith, length-append r.strings (s ∷ [])))
  | inr (j, e) ↦ rw (e, intern) (omega arith)
]

keeps_all :
    (names : List Name) (t : Name) (r : Interner) (k : Symbol)
    → resolve r k ≡ some t
    → resolve (intern_all names r).1 k ≡ some t
unfolding intern_all
keeps_all [] t r k h = h
keeps_all (s ∷ names) t r k h = keeps_all names t (intern s r).1 k (resolve-intern-keeps s t r k h)

-- While there are symbols for all the texts, the symbols that a sound interner gives a list of texts
-- resolve in its last state to those texts.
pub resolve-intern_all :
    (names : List Name) (r : Interner)
    → IsSound r
    → length r.strings + length names ≤ 2 ^ 32
    → map (resolve (intern_all names r).1) (intern_all names r).0 ≡ map some names
unfolding intern_all
resolve-intern_all [] r v room = refl
resolve-intern_all (s ∷ names) r v room =
    let r₁ = (intern s r).1 in
    let room₀ : HasRoom r = omega arith in
    ap₂ (λ x xs. x ∷ xs) (keeps_all names s r₁ (intern s r).0 (resolve-intern_lem s r v room₀))
      (resolve-intern_all names r₁ (intern-IsSound s r v room₀) (omega (arith, length-intern s r)))

intern-again :
    (s : Name) (r : Interner) (k : Symbol) → IsSound r → resolve r k ≡ some s → (intern s r).0 ≡ k
unfolding intern resolve
intern-again s r k v h = rw (v.named k s h, intern) refl

-- Two texts that a sound interner takes one after the other have one symbol just where they are equal,
-- while two symbols are left.
pub intern-eq_iff :
    (s t : Name) (r : Interner)
    → IsSound r
    → suc (length r.strings) < 2 ^ 32
    → ((intern s r).0 ≡ (intern t (intern s r).1).0) ↔ (s ≡ t)
intern-eq_iff s t r v room =
    let r₁ = (intern s r).1 in
    let room₀ : HasRoom r = omega arith in
    let room₁ : HasRoom r₁ = omega (arith, length-intern s r) in
    let v₁ = intern-IsSound s r v room₀ in
    let first = resolve-intern_lem s r v room₀ in
    let second = resolve-intern_lem t r₁ v₁ room₁ in
    (
      (λ e. name_inj (
          sym (resolve-intern-keeps t s r₁ (intern s r).0 first)
          ∙ ap (resolve (intern t r₁).1) e
          ∙ second)),
      (λ e. sym (intern-again t r₁ (intern s r).0 v₁ (first ∙ ap some e))),
    )
