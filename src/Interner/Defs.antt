-- ===== src/Interner/Defs.antt =====
-- `Interner` of ch04-02-interner.rs: each distinct text is stored once, and named by its index.
use model_lib.Base.{
  ℕ, ◌%◌, ◌^◌, Option, none, some, List, [], ◌∷◌, ◌++◌, length, get_elem?, get_name, insert_name,
  Name,
}

-- A symbol is its `u32`.
abbrev pub Symbol : Type 0
Symbol = ℕ

pub record Interner : Type 0 where
  pub map : List (Name × Symbol)
  pub strings : List Name

abbrev pub empty : Interner
empty = record { map = []; strings = [] }

-- The symbol of a text that is not stored yet, and the interner that stores it.
abbrev pub fresh : Interner → Symbol
fresh r = length r.strings % 2 ^ 32

abbrev pub added : Name → Interner → Interner
added s r = record { map = insert_name s (fresh r) r.map; strings = r.strings ++ s ∷ [] }

unfoldable pub intern : Name → Interner → Symbol × Interner
intern s r = elim (get_name s r.map) [ some sym ↦ (sym, r) | none ↦ (fresh r, added s r) ]

-- An index out of range, which panics, is none.
unfoldable pub resolve : Interner → Symbol → Option Name
resolve r sym = get_elem? r.strings sym

-- `identifiers(&src).map(|s| interner.intern(s)).collect()`
unfoldable pub intern_all : List Name → Interner → List Symbol × Interner
unfolding intern
intern_all [] r = ([], r)
intern_all (s ∷ names) r =
    let (sym, r₁) = intern s r in let (syms, r₂) = intern_all names r₁ in (sym ∷ syms, r₂)
