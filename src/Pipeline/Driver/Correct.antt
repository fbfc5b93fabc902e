-- ===== src/Pipeline/Driver/Correct.antt =====
-- Compiled programs of ch01-01-pipeline.rs on the machine, from `compile` on a source to the run.
use model_lib.Base.{ℕ, ◌+◌, ◌≡◌, ◌≢◌, refl, List, length, replicate, arith, length-replicate}
use model_lib.Pipeline.Syntax
use model_lib.Pipeline.Syntax.{Program, Outcome, ok, Expr, Token}
use model_lib.Pipeline.Lowerer.Defs.{Op}
use model_lib.Pipeline.Lowerer.Layout.{code_program, slot_of, NotedProgram}
use model_lib.Pipeline.Vm.Defs.{Run, run, panicked, unfinished}
use model_lib.Pipeline.Vm.Stable.{run_loop-stable}
use model_lib.Pipeline.Meaning.Defs.{Answer, value, div_by_zero, stuck, out_of_fuel, meaning}
use model_lib.Pipeline.Outcome.{bind-eq-ok, Settles-ok}
use model_lib.Pipeline.Lexer.Defs.{lex}
use model_lib.Pipeline.Parser.Defs.{parse}
use model_lib.Pipeline.Resolver.Defs.{Resolver, resolve}
use model_lib.Pipeline.Resolver.Invariant.{IsSound}
use model_lib.Pipeline.Resolver.Statements.{resolve-Settles}
use model_lib.Pipeline.Checker.Defs.{check}
use model_lib.Pipeline.Meaning.Safe.{meaning-IsFine, IsFine-ne-stuck}
use model_lib.Pipeline.Lowerer.Defs.{lower}
use model_lib.Pipeline.Lowerer.Patch.{lower-eq-layout}
use model_lib.Pipeline.Driver.Defs.{Compiled, compile}
use model_lib.Pipeline.Driver.Agrees.{Agrees, code_program-Agrees}

-- What `compile` accepts: the program that was parsed, its names resolved, and the code laid out.
pub record Compiles (src : List ℕ) (c : Compiled) : Type 0 where
  pub program : Program
  pub resolved : Resolver
  pub parsed : Syntax.bind (lex src) parse ≡ ok program
  pub resolves : resolve program ≡ ok resolved
  pub noted : NotedProgram resolved.uses program
  pub sound : IsSound resolved
  pub code_eq : c.code ≡ code_program (slot_of resolved.uses) program
  pub nslots_eq : c.nslots ≡ length resolved.slots

-- The back end on a program that was resolved.
back_end : Program → Resolver → Outcome Compiled
back_end p r =
    Syntax.bind (check r p)
      λ _. Syntax.bind (lower r.uses p) λ code. ok (record { code = code; nslots = length r.slots })

back_code :
    (p : Program) (r : Resolver) (c : Compiled) (code : List Op)
    → NotedProgram r.uses p
    → lower r.uses p ≡ ok code
    → ◌≡◌ {A = Outcome Compiled} (ok (record { code = code; nslots = length r.slots })) (ok c)
    → (c.code ≡ code_program (slot_of r.uses) p) × (c.nslots ≡ length r.slots)
back_code p r c code noted e k = ground (arith, lower-eq-layout r.uses p noted)

back_end-eq :
    (p : Program) (r : Resolver) (c : Compiled)
    → NotedProgram r.uses p
    → back_end p r ≡ ok c
    → (c.code ≡ code_program (slot_of r.uses) p) × (c.nslots ≡ length r.slots)
unfolding back_end
back_end-eq p r c noted h =
    let (t, _, h₁) = bind-eq-ok (check r p) _ h in
    let (code, e, k) = bind-eq-ok (lower r.uses p) _ h₁ in back_code p r c code noted e k

front_end :
    (src : List ℕ) (p : Program) (r : Resolver) (c : Compiled)
    → Syntax.bind (lex src) parse ≡ ok p
    → resolve p ≡ ok r
    → back_end p r ≡ ok c
    → Compiles src c
front_end src p r c parsed resolves h =
    let (sound, noted) = Settles-ok (resolve-Settles p) resolves in
    let (code_eq, nslots_eq) = back_end-eq p r c noted h in
    record {
      program = p;
      resolved = r;
      parsed = parsed;
      resolves = resolves;
      noted = noted;
      sound = sound;
      code_eq = code_eq;
      nslots_eq = nslots_eq;
    }

bind_of :
    {A B : Type 0} (m : Outcome A) (f : A → Outcome B) (a : A) (b : B)
    → m ≡ ok a
    → f a ≡ ok b
    → Syntax.bind m f ≡ ok b
bind_of m f a b e h = rw e h

from_toks :
    (src : List ℕ) (toks : List Token) (c : Compiled)
    → lex src ≡ ok toks
    → Syntax.bind (parse toks) (λ p. Syntax.bind (resolve p) (back_end p)) ≡ ok c
    → Compiles src c
from_toks src toks c e h =
    let (p, e₂, h₂) = bind-eq-ok (parse toks) _ h in
    let (r, e₃, h₃) = bind-eq-ok (resolve p) (back_end p) h₂ in
    front_end src p r c (bind_of (lex src) parse toks p e e₂) e₃ h₃

pub compile-Compiles : (src : List ℕ) (c : Compiled) → compile src ≡ ok c → Compiles src c
unfolding compile back_end
compile-Compiles src c h = let (toks, e, k) = bind-eq-ok (lex src) _ h in from_toks src toks c e k

-- Where `compile` accepts a source, the bytes lex and parse to a program that resolves, and the run of
-- the code agrees with the meaning of that program under any bound on the rounds of its loops.
pub compile-Agrees :
    (src : List ℕ) (c : Compiled)
    → compile src ≡ ok c
    → (p : Program) × (r : Resolver) × (Syntax.bind (lex src) parse ≡ ok p)
      × (resolve p ≡ ok r)
      × ((fuel : ℕ)
          → Agrees fuel
              (meaning (slot_of r.uses) fuel p (replicate (length r.slots) 0))
              (λ f. run f c.code c.nslots))
compile-Agrees src c h =
    let k = compile-Compiles src c h in
    let p = k.program in
    let r = k.resolved in
    (
      p,
      r,
      k.parsed,
      k.resolves,
      λ fuel.
          rw (k.code_eq, k.nslots_eq)
            (code_program-Agrees (slot_of r.uses) p (length r.slots) fuel),
    )

not_panicked :
    (fuel : ℕ) (a : Answer ℕ) (r : ℕ → Run)
    → ((f d : ℕ) → r f ≢ unfinished → r (f + d) ≡ r f)
    → a ≢ stuck
    → Agrees fuel a r
    → r fuel ≢ panicked
not_panicked fuel (value v) r stable h (n, k) e =
    cc (stable fuel n (λ u. cc), k (fuel + n) (omega arith))
not_panicked fuel div_by_zero r stable h (n, pc, k) e =
    cc (stable fuel n (λ u. cc), k (fuel + n) (omega arith))
not_panicked fuel stuck r stable h k e = absurd (h refl)
not_panicked fuel out_of_fuel r stable h k e = cc (k fuel (omega arith))

-- Where `compile` accepts a source, the run of its code does not panic, under any bound on its rounds.
pub compile-run-ne-panicked :
    (src : List ℕ) (c : Compiled) (fuel : ℕ)
    → compile src ≡ ok c
    → run fuel c.code c.nslots ≢ panicked
unfolding run
compile-run-ne-panicked src c fuel h =
    let k = compile-Compiles src c h in
    let p = k.program in
    let u = k.resolved.uses in
    let n = length k.resolved.slots in
    let σ : List ℕ = replicate n 0 in
    not_panicked fuel (meaning (slot_of u) fuel p σ) (λ f. run f c.code c.nslots)
      (λ f d. run_loop-stable c.code f d 0 _)
      (IsFine-ne-stuck
        (meaning-IsFine u n k.sound.uses_below fuel p σ (length-replicate n 0) k.noted))
      (rw (k.code_eq, k.nslots_eq) (code_program-Agrees (slot_of u) p n fuel))
