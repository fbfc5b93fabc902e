-- ===== src/Pipeline/Resolver/Statements.antt =====
-- The resolver of ch01-01-pipeline.rs on statements and programs.
use model_lib.Base.{ℕ, suc, ◌≡◌, List, [], ◌∷◌, length, arith}
use model_lib.Pipeline.Syntax.{Stmt, Stmts, Program, let_in, assign, while, if_else, end, next}
use model_lib.Pipeline.Outcome.{Settles, returns, Settles-bind, Settles-map}
use model_lib.Pipeline.Resolver.Defs.{
  Resolver, Scope, pop_scope, enter, leave, resolve_stmt, resolve_stmts, new_resolver, resolve,
}
use model_lib.Pipeline.Resolver.Invariant.{
  IsSound, Keeps, Keeps-refl, Keeps-trans, AllBelow, InResolver, Ends, Noting, NotedExpr-Extends,
  noted_stmt, noted_stmts, resolve_expr-Ends, resolve_let-Ends, resolve_assign-Ends,
}
use model_lib.Pipeline.Lowerer.Layout.{NotedStmt, NotedStmts, NotedProgram}

enter-IsSound : (r : Resolver) → IsSound r → IsSound (enter r)
enter-IsSound r v = record {
  in_scope = omega arith;
  scopes_below = (tt, v.scopes_below);
  uses_below = v.uses_below;
}

AllBelow-pop : (n : ℕ) (l : List Scope) → AllBelow n l → AllBelow n (pop_scope l)
AllBelow-pop n [] h = tt
AllBelow-pop n (s ∷ l) h = h.1

length-pop : (l : List Scope) (k : ℕ) → length l ≡ suc k → length (pop_scope l) ≡ k
length-pop [] k h = absurd (omega arith)
length-pop (s ∷ l) k h = omega arith

-- A body in a scope of its own keeps what the resolver keeps.
body-Keeps : (r r' : Resolver) → IsSound r → Keeps (enter r) r' → Keeps r (leave r')
body-Keeps r r' v k =
    let d = length-pop r'.scopes (length r.scopes) k.depth in
    record {
      sound = record {
        in_scope = omega (arith, v.in_scope);
        scopes_below = AllBelow-pop (length r'.slots) r'.scopes k.sound.scopes_below;
        uses_below = k.sound.uses_below;
      };
      extends = k.extends;
      grows = k.grows;
      depth = d;
    }

mutual
  unfolding resolve_stmt

  stmt-Ends :
      (s : Stmt) (r : Resolver)
      → IsSound r
      → Ends (Noting (λ u. NotedStmt u s) r) (resolve_stmt s r)
  stmt-Ends (let_in x m init pos) r v = Settles-bind (resolve_expr-Ends init r v) λ r₁ (k₁, n₁).
      Settles-map (resolve_let-Ends x m pos r₁ k₁.sound) λ r₂ (k₂, n₂).
        (Keeps-trans k₁ k₂, (NotedExpr-Extends r₁.uses r₂.uses init k₂.extends n₁, n₂))
  stmt-Ends (assign x value pos) r v = Settles-bind (resolve_expr-Ends value r v) λ r₁ (k₁, n₁).
      Settles-map (resolve_assign-Ends x pos r₁ k₁.sound) λ r₂ (k₂, n₂).
        (Keeps-trans k₁ k₂, (NotedExpr-Extends r₁.uses r₂.uses value k₂.extends n₁, n₂))
  stmt-Ends (while cond body) r v = Settles-bind (resolve_expr-Ends cond r v) λ r₁ (k₁, n₁).
      Settles-bind (stmts_end body (enter r₁) (enter-IsSound r₁ k₁.sound)) λ r₂ (k₂, n₂). returns (
        Keeps-trans k₁ (body-Keeps r₁ r₂ k₁.sound k₂),
        (NotedExpr-Extends r₁.uses r₂.uses cond k₂.extends n₁, n₂),
      )
  stmt-Ends (if_else cond then_body else_body) r v =
      Settles-bind (resolve_expr-Ends cond r v) λ r₁ (k₁, n₁).
        Settles-bind (stmts_end then_body (enter r₁) (enter-IsSound r₁ k₁.sound)) λ r₂ (k₂, n₂).
          let k₂' = body-Keeps r₁ r₂ k₁.sound k₂ in
          Settles-bind (stmts_end else_body (enter (leave r₂)) (enter-IsSound (leave r₂) k₂'.sound))
            λ r₃ (k₃, n₃). returns (
              Keeps-trans k₁ (Keeps-trans k₂' (body-Keeps (leave r₂) r₃ k₂'.sound k₃)),
              (
                NotedExpr-Extends r₁.uses r₃.uses cond (λ pos n. k₃.extends pos (k₂.extends pos n))
                    n₁,
                noted_stmts r₂.uses r₃.uses then_body k₃.extends n₂,
                n₃,
              ),
            )

  stmts_end :
      (ss : Stmts) (r : Resolver)
      → IsSound r
      → Ends (Noting (λ u. NotedStmts u ss) r) (resolve_stmts ss r)
  stmts_end end r v = returns (Keeps-refl r v, tt)
  stmts_end (next s ss) r v = Settles-bind (stmt-Ends s r v) λ r₁ (k₁, n₁).
      Settles-map (stmts_end ss r₁ k₁.sound)
        λ r₂ (k₂, n₂). (Keeps-trans k₁ k₂, (noted_stmt r₁.uses r₂.uses s k₂.extends n₁, n₂))

new_resolver-IsSound : IsSound new_resolver
new_resolver-IsSound = omega arith

-- The resolver comes to an end without a panic: with an error of its own stage, or with a table that
-- holds every name of the program, and scopes and a table whose slots were all handed out.
pub resolve-Settles :
    (p : Program) → Settles (λ r. IsSound r × NotedProgram r.uses p) InResolver (resolve p)
unfolding resolve
resolve-Settles p = Settles-bind (stmts_end p.stmts new_resolver new_resolver-IsSound) λ r (k, n).
    Settles-map (resolve_expr-Ends p.result r k.sound)
      λ r₁ (k₁, n₁). (k₁.sound, (noted_stmts r.uses r₁.uses p.stmts k₁.extends n, n₁))
