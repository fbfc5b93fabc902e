-- ===== src/Pipeline/Resolver/Defs.antt =====
-- Stage 3 of ch01-01-pipeline.rs: `Resolver`, from names to slots, in a side table that is keyed by
-- the position of the name in the source.
use model_lib.Base.{
  ℕ, Bool, true, false, Option, none, some, List, [], ◌∷◌, ◌++◌, length, get_elem?, get_name,
  insert, insert_name, Name,
}
use model_lib.Pipeline.Syntax.{
  Expr, Stmt, Stmts, Program, int, bool, var, unary, binary, let_in, assign, while, if_else, end,
  next, resolver, cannot_find, assign_twice, Outcome, ok, panicked, bind, fail,
}

pub record Slot : Type 0 where
  pub name : Name
  pub mutable : Bool

abbrev pub Scope : Type 0
Scope = List (Name × ℕ)

-- The innermost scope stands first.
pub record Resolver : Type 0 where
  pub scopes : List Scope
  pub slots : List Slot
  pub uses : List (ℕ × ℕ)

unfoldable pub find_slot : Name → List Scope → Option ℕ
find_slot x [] = none
find_slot x (scope ∷ scopes) = elim (get_name x scope) [
  | some slot ↦ some slot
  | none ↦ find_slot x scopes
]

unfoldable pub lookup : Resolver → Name → ℕ → Outcome ℕ
unfolding find_slot get_name
lookup r x pos = elim (find_slot x r.scopes) [
  | some slot ↦ ok slot
  | none ↦ fail resolver pos (cannot_find x)
]

abbrev pub note_use : ℕ → ℕ → Resolver → Resolver
note_use pos slot r = record r { uses = insert pos slot r.uses }

unfoldable pub resolve_expr : Expr → Resolver → Outcome Resolver
unfolding lookup
resolve_expr (int n) r = ok r
resolve_expr (bool b) r = ok r
resolve_expr (var x pos) r = bind (lookup r x pos) λ slot. ok (note_use pos slot r)
resolve_expr (unary op x pos) r = resolve_expr x r
resolve_expr (binary op a b pos) r = bind (resolve_expr a r) λ r₁. resolve_expr b r₁

-- `self.scopes.last_mut().unwrap().insert(..)`
abbrev pub declare : Name → ℕ → List Scope → Outcome (List Scope)
declare x slot [] = panicked
declare x slot (scope ∷ scopes) = ok (insert_name x slot scope ∷ scopes)

abbrev pub pop_scope : List Scope → List Scope
pop_scope [] = []
pop_scope (scope ∷ scopes) = scopes

-- The new slot, after the initializer.
unfoldable pub resolve_let : Name → Bool → ℕ → Resolver → Outcome Resolver
resolve_let x mutable pos r =
    let slot = length r.slots in
    bind (declare x slot r.scopes) λ scopes. ok (record {
      scopes = scopes;
      slots = r.slots ++ record { name = x; mutable = mutable } ∷ [];
      uses = insert pos slot r.uses;
    })

abbrev pub check_mutable : Name → ℕ → ℕ → Resolver → Option Slot → Outcome Resolver
check_mutable x pos slot r none = panicked
check_mutable x pos slot r (some s) = elim (s.mutable) [
  | true ↦ ok (note_use pos slot r)
  | false ↦ fail resolver pos (assign_twice x)
]

-- The assigned name, after the value.
unfoldable pub resolve_assign : Name → ℕ → Resolver → Outcome Resolver
unfolding lookup
resolve_assign x pos r =
    bind (lookup r x pos) λ slot. check_mutable x pos slot r (get_elem? r.slots slot)

-- A body in a scope of its own.
abbrev pub enter : Resolver → Resolver
enter r = record r { scopes = [] ∷ r.scopes }

abbrev pub leave : Resolver → Resolver
leave r = record r { scopes = pop_scope r.scopes }

unfoldable mutual
  unfolding resolve_expr resolve_let resolve_assign

  pub resolve_stmt : Stmt → Resolver → Outcome Resolver
  resolve_stmt (let_in x mutable init pos) r =
      bind (resolve_expr init r) λ r₁. resolve_let x mutable pos r₁
  resolve_stmt (assign x value pos) r = bind (resolve_expr value r) λ r₁. resolve_assign x pos r₁
  resolve_stmt (while cond body) r =
      bind (resolve_expr cond r) λ r₁. bind (resolve_stmts body (enter r₁)) λ r₂. ok (leave r₂)
  resolve_stmt (if_else cond then_body else_body) r = bind (resolve_expr cond r) λ r₁.
      bind (resolve_stmts then_body (enter r₁))
        λ r₂. bind (resolve_stmts else_body (enter (leave r₂))) λ r₃. ok (leave r₃)

  pub resolve_stmts : Stmts → Resolver → Outcome Resolver
  resolve_stmts end r = ok r
  resolve_stmts (next s ss) r = bind (resolve_stmt s r) λ r₁. resolve_stmts ss r₁

abbrev pub new_resolver : Resolver
new_resolver = record { scopes = [] ∷ []; slots = []; uses = [] }

-- The resolver's calls in `compile`.
unfoldable pub resolve : Program → Outcome Resolver
unfolding resolve_stmts
resolve p = bind (resolve_stmts p.stmts new_resolver) λ r. resolve_expr p.result r
