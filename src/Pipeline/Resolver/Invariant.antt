-- ===== src/Pipeline/Resolver/Invariant.antt =====
-- The invariant of the resolver of ch01-01-pipeline.rs, on names, expressions, `let` and assignment.
use model_lib.Base.{
  ℕ, suc, ◌≤◌, ◌<◌, ◌≡◌, refl, Bool, inl, inr, Bool-cases, Option-cases, some, List, [], ◌∷◌, ◌++◌,
  length, length-append, get_elem?-some, get, get_name, insert, Name, arith,
}
use mathlib.Core.Path.{subst, sym}
use model_lib.Pipeline.Syntax.{
  Expr, Stmt, Stmts, int, bool, var, unary, binary, let_in, assign, while, if_else, end, next,
  resolver, CompileError, Outcome,
}
use model_lib.Pipeline.Outcome.{Settles, returns, raises, Settles-bind, Settles-map}
use model_lib.Pipeline.Resolver.Defs.{
  Slot, Scope, Resolver, find_slot, lookup, note_use, resolve_expr, declare, resolve_let,
  check_mutable, resolve_assign,
}
use model_lib.Pipeline.Lowerer.Layout.{IsNoted, NotedExpr, NotedStmt, NotedStmts}

-- Every slot that a map names is below `n`.
abbrev pub Below {ℓ} : {K : Type ℓ} → ℕ → List (K × ℕ) → Type 0
Below n [] = Unit
Below n ((k, s) ∷ m) = (s < n) × Below n m

abbrev pub AllBelow : ℕ → List Scope → Type 0
AllBelow n [] = Unit
AllBelow n (scope ∷ scopes) = Below n scope × AllBelow n scopes

Below-le {ℓ} : {K : Type ℓ} (n m : ℕ) (l : List (K × ℕ)) → n ≤ m → Below n l → Below m l
Below-le n m [] h b = tt
Below-le n m ((k, s) ∷ l) h (b, bs) = (omega arith, Below-le n m l h bs)

AllBelow-le : (n m : ℕ) (l : List Scope) → n ≤ m → AllBelow n l → AllBelow m l
AllBelow-le n m [] h b = tt
AllBelow-le n m (s ∷ l) h (b, bs) = (Below-le n m s h b, AllBelow-le n m l h bs)

pub record IsSound (r : Resolver) : Type 0 where
  pub in_scope : 0 < length r.scopes
  pub scopes_below : AllBelow (length r.slots) r.scopes
  pub uses_below : Below (length r.slots) r.uses

-- What has been noted stays noted.
abbrev pub Extends : List (ℕ × ℕ) → List (ℕ × ℕ) → Type 0
Extends u u' = (pos : ℕ) → IsNoted u pos → IsNoted u' pos

IsNoted-insert : (u : List (ℕ × ℕ)) (pos slot : ℕ) → IsNoted (insert pos slot u) pos
unfolding get
IsNoted-insert u pos slot = ground arith

Extends-insert : (u : List (ℕ × ℕ)) (pos slot : ℕ) → Extends u (insert pos slot u)
unfolding get
Extends-insert u pos slot k h = ground arith

pub NotedExpr-Extends :
    (u u' : List (ℕ × ℕ)) (e : Expr) → Extends u u' → NotedExpr u e → NotedExpr u' e
NotedExpr-Extends u u' (int n) x h = tt
NotedExpr-Extends u u' (bool b) x h = tt
NotedExpr-Extends u u' (var y pos) x h = x pos h
NotedExpr-Extends u u' (unary op e pos) x h = NotedExpr-Extends u u' e x h
NotedExpr-Extends u u' (binary op a b pos) x (ha, hb) =
    (NotedExpr-Extends u u' a x ha, NotedExpr-Extends u u' b x hb)

mutual
  pub noted_stmt : (u u' : List (ℕ × ℕ)) (s : Stmt) → Extends u u' → NotedStmt u s → NotedStmt u' s
  noted_stmt u u' (let_in y m v pos) x (hv, hp) = (NotedExpr-Extends u u' v x hv, x pos hp)
  noted_stmt u u' (assign y v pos) x (hv, hp) = (NotedExpr-Extends u u' v x hv, x pos hp)
  noted_stmt u u' (while c b) x (hc, hb) = (NotedExpr-Extends u u' c x hc, noted_stmts u u' b x hb)
  noted_stmt u u' (if_else c t e) x (hc, ht, he) =
      (NotedExpr-Extends u u' c x hc, noted_stmts u u' t x ht, noted_stmts u u' e x he)

  pub noted_stmts :
      (u u' : List (ℕ × ℕ)) (ss : Stmts) → Extends u u' → NotedStmts u ss → NotedStmts u' ss
  noted_stmts u u' end x h = tt
  noted_stmts u u' (next s ss) x (hs, hss) = (noted_stmt u u' s x hs, noted_stmts u u' ss x hss)

-- What a call of the resolver keeps between the state before and the state after.
pub record Keeps (r r' : Resolver) : Type 0 where
  pub sound : IsSound r'
  pub extends : Extends r.uses r'.uses
  pub grows : length r.slots ≤ length r'.slots
  pub depth : length r'.scopes ≡ length r.scopes

pub Keeps-trans : {r s t : Resolver} → Keeps r s → Keeps s t → Keeps r t
Keeps-trans {r} {s} {t} h k = record {
  sound = k.sound;
  extends = λ pos n. k.extends pos (h.extends pos n);
  grows = omega arith;
  depth = omega arith;
}

abbrev pub InResolver : CompileError → Type 0
InResolver e = e.stage ≡ resolver

abbrev pub Ends : (Resolver → Type 0) → Outcome Resolver → Type 0
Ends P r = Settles P InResolver r

get_name-Below :
    (x : Name) (n : ℕ) (scope : Scope) (s : ℕ) → Below n scope → get_name x scope ≡ some s → s < n
unfolding get_name
get_name-Below x n [] s b h = cc
get_name-Below x n ((y, t) ∷ scope) s (b, bs) h = ground (arith, get_name-Below x n scope s bs)

find_slot-Below :
    (x : Name) (n : ℕ) (scopes : List Scope) (s : ℕ)
    → AllBelow n scopes
    → find_slot x scopes ≡ some s
    → s < n
unfolding find_slot
find_slot-Below x n [] s b h = cc
find_slot-Below x n (scope ∷ scopes) s (b, bs) h =
    ground (arith, get_name-Below x n scope s b, find_slot-Below x n scopes s bs)

lookup-Ends :
    (r : Resolver) (x : Name) (pos : ℕ)
    → IsSound r
    → Settles (λ s. s < length r.slots) InResolver (lookup r x pos)
unfolding lookup
lookup-Ends r x pos v = elim (Option-cases (find_slot x r.scopes)) [
  | inl e ↦ rw (e, lookup) (raises refl)
  | inr (s, e) ↦
      rw (e, lookup) (returns (find_slot-Below x (length r.slots) r.scopes s v.scopes_below e))
]

note-Keeps :
    (r : Resolver) (pos slot : ℕ)
    → IsSound r
    → slot < length r.slots
    → Keeps r (note_use pos slot r)
note-Keeps r pos slot v h = record {
  sound = record {
    in_scope = v.in_scope;
    scopes_below = v.scopes_below;
    uses_below = (h, v.uses_below);
  };
  extends = Extends-insert r.uses pos slot;
  grows = omega arith;
  depth = refl;
}

pub Keeps-refl : (r : Resolver) → IsSound r → Keeps r r
Keeps-refl r v = record { sound = v; extends = λ pos n. n; grows = omega arith; depth = refl }

abbrev pub Noting : (List (ℕ × ℕ) → Type 0) → Resolver → Resolver → Type 0
Noting P r r' = Keeps r r' × P r'.uses

pub resolve_expr-Ends :
    (e : Expr) (r : Resolver) → IsSound r → Ends (Noting (λ u. NotedExpr u e) r) (resolve_expr e r)
unfolding resolve_expr
resolve_expr-Ends (int n) r v = returns (Keeps-refl r v, tt)
resolve_expr-Ends (bool b) r v = returns (Keeps-refl r v, tt)
resolve_expr-Ends (var x pos) r v =
    Settles-bind (lookup-Ends r x pos v)
      λ s h. returns (note-Keeps r pos s v h, IsNoted-insert r.uses pos s)
resolve_expr-Ends (unary op x pos) r v = resolve_expr-Ends x r v
resolve_expr-Ends (binary op a b pos) r v = Settles-bind (resolve_expr-Ends a r v) λ r₁ (k₁, na).
    Settles-map (resolve_expr-Ends b r₁ k₁.sound)
      λ r₂ (k₂, nb). (Keeps-trans k₁ k₂, (NotedExpr-Extends r₁.uses r₂.uses a k₂.extends na, nb))

-- Declaring the slot `n` in a list of scopes below `n`.
declare-Ends :
    (x : Name) (n : ℕ) (scopes : List Scope)
    → 0 < length scopes
    → AllBelow n scopes
    → Settles (λ s. AllBelow (suc n) s × (length s ≡ length scopes)) InResolver (declare x n scopes)
declare-Ends x n [] p b = absurd (omega arith)
declare-Ends x n (scope ∷ scopes) p (b, bs) = returns (
  (
    (omega arith, Below-le n (suc n) scope (omega arith) b),
    AllBelow-le n (suc n) scopes (omega arith) bs,
  ),
  refl,
)

pub resolve_let-Ends :
    (x : Name) (m : Bool) (pos : ℕ) (r : Resolver)
    → IsSound r
    → Ends (Noting (λ u. IsNoted u pos) r) (resolve_let x m pos r)
unfolding resolve_let
resolve_let-Ends x m pos r v =
    let n = length r.slots in
    let longer : length (r.slots ++ record { name = x; mutable = m } ∷ []) ≡ suc n =
      omega (arith, length-append r.slots (record { name = x; mutable = m } ∷ [])) in
    Settles-bind (declare-Ends x n r.scopes v.in_scope v.scopes_below) λ scopes (b, d). returns (
      record {
        sound = record {
          in_scope = omega (arith, v.in_scope);
          scopes_below = subst (λ k. AllBelow k scopes) (sym longer) b;
          uses_below =
              subst (λ k. Below k (insert pos n r.uses)) (sym longer)
                (omega arith, Below-le n (suc n) r.uses (omega arith) v.uses_below);
        };
        extends = Extends-insert r.uses pos n;
        grows = omega arith;
        depth = d;
      },
      IsNoted-insert r.uses pos n,
    )

check_mutable-Ends :
    (x : Name) (pos slot : ℕ) (r : Resolver) (s : Slot)
    → IsSound r
    → slot < length r.slots
    → Ends (Noting (λ u. IsNoted u pos) r) (check_mutable x pos slot r (some s))
check_mutable-Ends x pos slot r s v h = elim (Bool-cases s.mutable) [
  | inl e ↦ rw e (returns (note-Keeps r pos slot v h, IsNoted-insert r.uses pos slot))
  | inr e ↦ rw e (raises refl)
]

pub resolve_assign-Ends :
    (x : Name) (pos : ℕ) (r : Resolver)
    → IsSound r
    → Ends (Noting (λ u. IsNoted u pos) r) (resolve_assign x pos r)
unfolding resolve_assign
resolve_assign-Ends x pos r v = Settles-bind (lookup-Ends r x pos v) λ slot h.
    let (s, e) = get_elem?-some r.slots slot h in rw e (check_mutable-Ends x pos slot r s v h)
