-- ===== src/Regalloc/Scan/Members.antt =====
-- Members and counts in the lists of the linear scan of ch08-01-regalloc.rs.
use mathlib.Core.Path.{subst}
use mathlib.Core.Option.{some-injective, none-ne-some}
use model_lib.Base.{
  ℕ, zero, suc, ◌+◌, ◌≤◌, ◌<◌, ◌≡◌, refl, sym, ap, ◌∙◌, Bool, true, false, Bool-cases, ◌⊎◌, inl,
  inr, Option-cases, none, some, List, [], ◌∷◌, ◌++◌, ltb, leb, ◌&&◌, ◌==◌, if◌then◌else◌, arith,
}
use model_lib.Regalloc.Scan.Defs.{
  Active, expire, ends_first, insert_active, sort_active, split_last, registers,
}

abbrev pub In : {A : Type 0} → A → List A → Type 0
In x [] = ⊥
In x (y ∷ ys) = (x ≡ y) ⊎ In x ys

pub In-append_left : {A : Type 0} (x : A) (xs ys : List A) → In x xs → In x (xs ++ ys)
In-append_left x [] ys h = elim h [ ]
In-append_left x (y ∷ xs) ys (inl e) = inl e
In-append_left x (y ∷ xs) ys (inr h) = inr (In-append_left x xs ys h)

pub In-append_right : {A : Type 0} (x : A) (xs ys : List A) → In x ys → In x (xs ++ ys)
In-append_right x [] ys h = h
In-append_right x (y ∷ xs) ys h = inr (In-append_right x xs ys h)

pub In-append_cases : {A : Type 0} (x : A) (xs ys : List A) → In x (xs ++ ys) → In x xs ⊎ In x ys
In-append_cases x [] ys h = inr h
In-append_cases x (y ∷ xs) ys (inl e) = inl (inl e)
In-append_cases x (y ∷ xs) ys (inr h) = elim (In-append_cases x xs ys h) [
  | inl a ↦ inl (inr a)
  | inr b ↦ inr b
]

-- How often a number stands in a list, and a register among the active intervals.
abbrev pub one_if : Bool → ℕ
one_if true = 1
one_if false = 0

abbrev pub count : ℕ → List ℕ → ℕ
count r [] = 0
count r (x ∷ xs) = one_if (x == r) + count r xs

abbrev pub count_regs : ℕ → List Active → ℕ
count_regs r [] = 0
count_regs r (a ∷ active) = one_if (a.reg == r) + count_regs r active

pub count_regs-append :
    (r : ℕ) (xs ys : List Active) → count_regs r (xs ++ ys) ≡ count_regs r xs + count_regs r ys
count_regs-append r [] ys = omega arith
count_regs-append r (a ∷ xs) ys = omega (arith, count_regs-append r xs ys)

pub same-one : (r : ℕ) → one_if (r == r) ≡ 1
same-one r = ground arith

pub count_regs-In : (a : Active) (active : List Active) → In a active → 1 ≤ count_regs a.reg active
count_regs-In a [] h = elim h [ ]
count_regs-In a (b ∷ active) (inl e) =
    omega (arith, ap (λ c. one_if (c.reg == a.reg)) e, same-one a.reg)
count_regs-In a (b ∷ active) (inr h) = omega (arith, count_regs-In a active h)

-- Sorting.
In-insert_active :
    (x a : Active) (active : List Active)
    → (In x (insert_active a active) → (x ≡ a) ⊎ In x active)
      × ((x ≡ a) ⊎ In x active → In x (insert_active a active))
unfolding insert_active
In-insert_active x a [] = (λ h. h, λ h. h)
In-insert_active x a (b ∷ active) = elim (Bool-cases (ends_first a b)) [
  | inl e ↦ rw e (λ h. h, λ h. h)
  | inr e ↦ let (f, g) = In-insert_active x a active in rw e (to f, from g)
]
  where
    to :
        (In x (insert_active a active) → (x ≡ a) ⊎ In x active)
        → (x ≡ b) ⊎ In x (insert_active a active)
        → (x ≡ a) ⊎ ((x ≡ b) ⊎ In x active)
    to f (inl e) = inr (inl e)
    to f (inr h) = elim (f h) [ inl p ↦ inl p | inr q ↦ inr (inr q) ]

    from :
        ((x ≡ a) ⊎ In x active → In x (insert_active a active))
        → (x ≡ a) ⊎ ((x ≡ b) ⊎ In x active)
        → (x ≡ b) ⊎ In x (insert_active a active)
    from g (inl p) = inr (g (inl p))
    from g (inr (inl p)) = inl p
    from g (inr (inr q)) = inr (g (inr q))

pub In-sort_active :
    (x : Active) (active : List Active)
    → (In x (sort_active active) → In x active) × (In x active → In x (sort_active active))
unfolding sort_active
In-sort_active x [] = (λ h. h, λ h. h)
In-sort_active x (a ∷ active) =
    let (f, g) = In-sort_active x active in
    let (i, j) = In-insert_active x a (sort_active active) in
    (
      λ h. elim (i h) [ inl e ↦ inl e | inr k ↦ inr (f k) ],
      elim [ inl e ↦ j (inl e) | inr k ↦ j (inr (g k)) ],
    )

count-insert_active :
    (r : ℕ) (a : Active) (active : List Active)
    → count_regs r (insert_active a active) ≡ one_if (a.reg == r) + count_regs r active
unfolding insert_active
count-insert_active r a [] = refl
count-insert_active r a (b ∷ active) = elim (Bool-cases (ends_first a b)) [
  | inl e ↦ rw e refl
  | inr e ↦ rw e (omega (arith, count-insert_active r a active))
]

pub count-sort_active :
    (r : ℕ) (active : List Active) → count_regs r (sort_active active) ≡ count_regs r active
unfolding sort_active
count-sort_active r [] = refl
count-sort_active r (a ∷ active) =
    omega (arith, count-insert_active r a (sort_active active), count-sort_active r active)

-- The last one.
pub split_last-some :
    (a : Active) (active : List Active)
    → (p : List Active × Active) × (split_last (a ∷ active) ≡ some p)
unfolding split_last
split_last-some a active = elim (Option-cases (split_last active)) [
  | inl e ↦ (([], a), rw e refl)
  | inr ((bs, b), e) ↦ ((a ∷ bs, b), rw e refl)
]

split_last-none : (active : List Active) → split_last active ≡ none → active ≡ []
split_last-none [] h = refl
split_last-none (a ∷ active) h =
    let (p, e) = split_last-some a active in absurd (none-ne-some p (sym h ∙ e))

pub split_last-append :
    (active : List Active) (p : List Active × Active)
    → split_last active ≡ some p
    → active ≡ p.0 ++ p.1 ∷ []
unfolding split_last
split_last-append [] p h = absurd (none-ne-some p h)
split_last-append (a ∷ active) p h = elim (Option-cases (split_last active)) [
  | inl e ↦
      let q : some ([], a) ≡ some p = rw e at h in
      subst (λ p. (a ∷ active) ≡ p.0 ++ p.1 ∷ []) (some-injective ([], a) p q)
        (ap (λ l. a ∷ l) (split_last-none active e))
  | inr ((bs, b), e) ↦
      let q : some (a ∷ bs, b) ≡ some p = rw e at h in
      subst (λ p. (a ∷ active) ≡ p.0 ++ p.1 ∷ []) (some-injective (a ∷ bs, b) p q)
        (ap (λ l. a ∷ l) (split_last-append active (bs, b) e))
]

-- Intervals that ended give their registers back; nothing else happens.
pub count-expire :
    (r start : ℕ) (active : List Active) (free : List ℕ)
    → count_regs r (expire start active free).0 + count r (expire start active free).1
      ≡ count_regs r active + count r free
unfolding expire
count-expire r start [] free = refl
count-expire r start (a ∷ active) free = elim (Bool-cases (ltb a.end start)) [
  | inl e ↦ rw e (omega (arith, count-expire r start active (a.reg ∷ free)))
  | inr e ↦ rw e (omega (arith, count-expire r start active free))
]

pub expire-In :
    (x : Active) (start : ℕ) (active : List Active) (free : List ℕ)
    → In x (expire start active free).0
    → In x active
unfolding expire
expire-In x start [] free h = h
expire-In x start (a ∷ active) free h = elim (Bool-cases (ltb a.end start)) [
  | inl e ↦ inr (expire-In x start active (a.reg ∷ free) (rw e at h))
  | inr e ↦
      let k : (x ≡ a) ⊎ In x (expire start active free).0 = rw e at h in
      elim k [ inl p ↦ inl p | inr q ↦ inr (expire-In x start active free q) ]
]

pub expire-keeps :
    (x : Active) (start : ℕ) (active : List Active) (free : List ℕ)
    → In x active
    → In x (expire start active free).0 ⊎ (x.end < start)
unfolding expire
expire-keeps x start [] free h = elim h [ ]
expire-keeps x start (a ∷ active) free h = elim (Bool-cases (ltb a.end start)) [
  | inl e ↦ rw e (elim h [
    | inl p ↦ inr (ground (arith, ap (λ c. c.end) p))
    | inr q ↦ expire-keeps x start active (a.reg ∷ free) q
  ])
  | inr e ↦ rw e (elim h [
    | inl p ↦ inl (inl p)
    | inr q ↦ elim (expire-keeps x start active free q) [ inl k ↦ inl (inr k) | inr k ↦ inr k ]
  ])
]

-- Each free register once.
pub count-registers :
    (r lo k : ℕ) → count r (registers lo k) ≡ (if leb lo r && ltb r (lo + k) then 1 else 0)
unfolding registers
count-registers r lo zero = ground arith
count-registers r lo (suc k) = ground (arith, count-registers r (suc lo) k)
