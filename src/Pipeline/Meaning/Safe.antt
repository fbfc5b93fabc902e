-- ===== src/Pipeline/Meaning/Safe.antt =====
-- Where the reference semantics of ch01-01-pipeline.rs can get stuck.
use model_lib.Base.{
  ℕ, zero, suc, ◌<◌, ◌≡◌, ◌≢◌, refl, ◌∙◌, Bool, true, false, some, List, [], ◌∷◌, length,
  length-set, get_elem?, get_elem?-some, get, ◌==◌, if◌then◌else◌, arith,
}
use model_lib.Pipeline.Syntax.{
  BinOp, Expr, Stmt, Stmts, Program, var, unary, binary, let_in, while, if_else, end, next,
}
use model_lib.Pipeline.Lowerer.Layout.{
  slot_of, IsNoted, NotedExpr, NotedStmt, NotedStmts, NotedProgram,
}
use model_lib.Pipeline.Resolver.Invariant.{Below}
use model_lib.Pipeline.Meaning.Defs.{
  Answer, value, div_by_zero, stuck, out_of_fuel, bind, operation, eval, assign_slot, loop, exec,
  exec_all, meaning,
}

-- The answer is not stuck, and `P` holds of its value.
pub data IsFine {A : Type 0} (P : A → Type 0) : Answer A → Type 0 where
  gives : {a : A} → P a → IsFine P (value a)
  divides : IsFine P div_by_zero
  loops : IsFine P out_of_fuel

pub IsFine-ne-stuck : {A : Type 0} {P : A → Type 0} {r : Answer A} → IsFine P r → r ≢ stuck
IsFine-ne-stuck (gives h) = cc
IsFine-ne-stuck divides = cc
IsFine-ne-stuck loops = cc

IsFine-bind :
    {A B : Type 0} {P : A → Type 0} {Q : B → Type 0} {r : Answer A} {f : A → Answer B}
    → IsFine P r
    → ((a : A) → P a → IsFine Q (f a))
    → IsFine Q (bind r f)
IsFine-bind (gives {a} h) k = k a h
IsFine-bind divides k = divides
IsFine-bind loops k = loops

IsFine-if :
    {A : Type 0} {P : A → Type 0} (b : Bool) {x y : Answer A}
    → IsFine P x
    → IsFine P y
    → IsFine P (if b then x else y)
IsFine-if true h k = h
IsFine-if false h k = k

abbrev Any : ℕ → Type 0
Any v = Unit

arith-IsFine :
    (op : BinOp) (v w : ℕ) → op ≢ BinOp.and → op ≢ BinOp.or → IsFine Any (operation op v w)
arith-IsFine BinOp.add v w h k = gives tt
arith-IsFine BinOp.sub v w h k = gives tt
arith-IsFine BinOp.mul v w h k = gives tt
arith-IsFine BinOp.div v w h k = IsFine-if (w == 0) divides (gives tt)
arith-IsFine BinOp.rem v w h k = IsFine-if (w == 0) divides (gives tt)
arith-IsFine BinOp.lt v w h k = gives tt
arith-IsFine BinOp.le v w h k = gives tt
arith-IsFine BinOp.gt v w h k = gives tt
arith-IsFine BinOp.ge v w h k = gives tt
arith-IsFine BinOp.eq v w h k = gives tt
arith-IsFine BinOp.ne v w h k = gives tt
arith-IsFine BinOp.and v w h k = absurd (h refl)
arith-IsFine BinOp.or v w h k = absurd (k refl)

Below-slot_of : (n : ℕ) (u : List (ℕ × ℕ)) (pos : ℕ) → Below n u → IsNoted u pos → slot_of u pos < n
unfolding get
Below-slot_of n [] pos b h = cc
Below-slot_of n ((k, s) ∷ u) pos (b, bs) h = ground (arith, Below-slot_of n u pos bs)

module _ (u : List (ℕ × ℕ)) (n : ℕ) (below : Below n u) where
  abbrev Fits : List ℕ → Type 0
  Fits σ = length σ ≡ n

  read_some :
      (pos : ℕ) (σ : List ℕ)
      → Fits σ
      → IsNoted u pos
      → (v : ℕ) × (get_elem? σ (slot_of u pos) ≡ some v)
  read_some pos σ f h = get_elem?-some σ _ (omega (arith, Below-slot_of n u pos below h))

  eval-IsFine : (e : Expr) (σ : List ℕ) → Fits σ → NotedExpr u e → IsFine Any (eval (slot_of u) e σ)
  unfolding eval
  eval-IsFine (Expr.int k) σ f h = gives tt
  eval-IsFine (Expr.bool b) σ f h = gives tt
  eval-IsFine (var x pos) σ f h = let (v, e) = read_some pos σ f h in rw e (gives tt)
  eval-IsFine (unary op x pos) σ f h = IsFine-bind (eval-IsFine x σ f h) λ v _. gives tt
  eval-IsFine (binary BinOp.and a b pos) σ f (ha, hb) =
      IsFine-bind (eval-IsFine a σ f ha) λ v _. IsFine-if (v == 0) (gives tt) (eval-IsFine b σ f hb)
  eval-IsFine (binary BinOp.or a b pos) σ f (ha, hb) =
      IsFine-bind (eval-IsFine a σ f ha) λ v _. IsFine-if (v == 0) (eval-IsFine b σ f hb) (gives tt)
  eval-IsFine (binary op a b pos) σ f (ha, hb) = IsFine-bind (eval-IsFine a σ f ha) λ v _.
      IsFine-bind (eval-IsFine b σ f hb) λ w _.
        let not_and : op ≢ BinOp.and = cc in
        let not_or : op ≢ BinOp.or = cc in arith-IsFine op v w not_and not_or

  store-IsFine :
      (v : Expr) (pos : ℕ) (σ : List ℕ)
      → Fits σ
      → NotedExpr u v
      → IsNoted u pos
      → IsFine Fits (
          bind
            (eval (slot_of u) v σ)
            λ w. assign_slot (get_elem? σ (slot_of u pos)) (slot_of u pos) w σ)
  store-IsFine v pos σ f hv hp =
      IsFine-bind (eval-IsFine v σ f hv) λ w _.
        let (x, e) = read_some pos σ f hp in rw e (gives (length-set σ (slot_of u pos) w ∙ f))

  loop-IsFine :
      (test : List ℕ → Answer ℕ) (body : List ℕ → Answer (List ℕ))
      → ((σ : List ℕ) → Fits σ → IsFine Any (test σ))
      → ((σ : List ℕ) → Fits σ → IsFine Fits (body σ))
      → (k : ℕ) (σ : List ℕ) → Fits σ
      → IsFine Fits (loop k test body σ)
  unfolding loop
  loop-IsFine test body ht hb zero σ f = loops
  loop-IsFine test body ht hb (suc k) σ f = IsFine-bind (ht σ f) λ v _.
      IsFine-if (v == 0) (gives f)
        (IsFine-bind (hb σ f) λ σ' f'. loop-IsFine test body ht hb k σ' f')

  module _ (fuel : ℕ) where
    mutual
      unfolding exec

      exec-IsFine :
          (s : Stmt) (σ : List ℕ) → Fits σ → NotedStmt u s → IsFine Fits (exec (slot_of u) fuel s σ)
      exec-IsFine (let_in x m v pos) σ f (hv, hp) = store-IsFine v pos σ f hv hp
      exec-IsFine (Stmt.assign x v pos) σ f (hv, hp) = store-IsFine v pos σ f hv hp
      exec-IsFine (while cond body) σ f (hc, hb) =
          loop-IsFine (eval (slot_of u) cond) (exec_all (slot_of u) fuel body)
            (λ τ g. eval-IsFine cond τ g hc) (λ τ g. exec_all-IsFine body τ g hb) fuel σ f
      exec-IsFine (if_else cond t e) σ f (hc, ht, he) =
          IsFine-bind (eval-IsFine cond σ f hc)
            λ v _. IsFine-if (v == 0) (exec_all-IsFine e σ f he) (exec_all-IsFine t σ f ht)

      exec_all-IsFine :
          (ss : Stmts) (σ : List ℕ)
          → Fits σ
          → NotedStmts u ss
          → IsFine Fits (exec_all (slot_of u) fuel ss σ)
      exec_all-IsFine end σ f h = gives f
      exec_all-IsFine (next s ss) σ f (hs, hss) =
          IsFine-bind (exec-IsFine s σ f hs) λ σ' f'. exec_all-IsFine ss σ' f' hss

    pub meaning-IsFine :
        (p : Program) (σ : List ℕ)
        → Fits σ
        → NotedProgram u p
        → IsFine Any (meaning (slot_of u) fuel p σ)
    unfolding meaning
    meaning-IsFine p σ f (hs, he) =
        IsFine-bind (exec_all-IsFine p.stmts σ f hs) λ σ' f'. eval-IsFine p.result σ' f' he
