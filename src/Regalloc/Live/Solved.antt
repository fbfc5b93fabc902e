-- ===== src/Regalloc/Live/Solved.antt =====
-- `liveness` of ch08-01-regalloc.rs: what it returns solves the equations of the data flow.
use mathlib.Core.Path.{subst}
use mathlib.Core.Option.{some-injective}
use model_lib.Base.{
  ℕ, zero, suc, ◌<◌, ◌≡◌, refl, sym, ap, ◌∙◌, Bool, true, false, ◌&&◌, Bool-cases, nat-cases, inl,
  inr, Option-cases, some, List, [], ◌∷◌, length, length-set, length-replicate, get_elem?, name_eq,
  name_eq→eq, if_true, if_false, arith,
}
use model_lib.Regalloc.Code.Defs.{Tac, Outcome, result, panicked, out_of_fuel}
use model_lib.Regalloc.Live.Defs.{
  uses, def, is_def, sorted_set, live_before, targets, gather, Flow, stored, store_at, visit, sweep,
  swept, unchanged, settle, nothing_live, outs_of, liveness,
}
use model_lib.Regalloc.Live.Sets.{
  with_some-inv, sorted_set-Same, live_before-uses, live_before-passes, gather-In,
}
use model_lib.Regalloc.Scan.Members.{In}

-- The sets of an instruction are what its equations give.
pub record Stable (code : List Tac) (s : Flow) (i : ℕ) : Type 0 where
  pub tac : Tac
  pub next : List ℕ
  pub all : List ℕ
  pub at : get_elem? code i ≡ some tac
  pub next_of : targets code i tac ≡ some next
  pub gathered : gather s.ins next ≡ some all
  pub in_of : get_elem? s.ins i ≡ some (live_before tac (sorted_set all))
  pub out_of : get_elem? s.outs i ≡ some (sorted_set all)

and-true : (a b : Bool) → (a && b) ≡ true → (a ≡ true) × (b ≡ true)
and-true true b h = (refl, h)
and-true false b h = cc

visit-Stable :
    (code : List Tac) (i : ℕ) (s t : Flow)
    → visit code i s ≡ some t
    → t.changed ≡ false
    → (t ≡ s) × Stable code s i
unfolding visit
visit-Stable code i s t e c =
    let (u, at, e₁) = with_some-inv (get_elem? code i) _ t e in
    let (ss, next, e₂) = with_some-inv (targets code i u) _ t e₁ in
    let (all, gathered, e₃) = with_some-inv (gather s.ins ss) _ t e₂ in
    let (old_in, p, e₄) = with_some-inv (get_elem? s.ins i) _ t e₃ in
    let (old_out, q, e₅) = with_some-inv (get_elem? s.outs i) _ t e₄ in
    let out = sorted_set all in
    let inn = live_before u out in
    let same = some-injective (store_at i inn out s old_in old_out) t e₅ in
    elim (Bool-cases (name_eq inn old_in && name_eq out old_out)) [
      | inr b ↦
          let k : stored i inn out s ≡ t = rw b at same in
          let bad : true ≡ t.changed = ap (λ f. f.changed) k in cc
      | inl b ↦
          let k : s ≡ t = rw b at same in
          let (x, y) = and-true (name_eq inn old_in) (name_eq out old_out) b in
          (
            sym k,
            record {
              tac = u;
              next = ss;
              all = all;
              at = at;
              next_of = next;
              gathered = gathered;
              in_of = p ∙ ap some (sym (name_eq→eq inn old_in x));
              out_of = q ∙ ap some (sym (name_eq→eq out old_out y));
            },
          )
    ]

sweep-Stable :
    (code : List Tac) (n : ℕ) (s t : Flow)
    → sweep code n s ≡ some t
    → t.changed ≡ false
    → (t ≡ s) × ((i : ℕ) → i < n → Stable code s i)
unfolding sweep
sweep-Stable code zero s t e c = (sym (some-injective s t e), λ i h. absurd (omega (arith, h)))
sweep-Stable code (suc n) s t e c =
    let (u, p, q) = with_some-inv (visit code n s) _ t e in
    let (same, below) = sweep-Stable code n u t q c in
    let (same', here) = visit-Stable code n s u p (ap (λ f. f.changed) (sym same) ∙ c) in
    (
      same ∙ same',
      λ i h. elim (nat-cases i n) [
        | inl d ↦ subst (Stable code s) (sym d) here
        | inr d ↦ subst (λ f. Stable code f i) same' (below i (ground (arith, h, d)))
      ],
    )

-- `settle` comes back with sets that are stable.
pub settle-Stable :
    (code : List Tac) (f : ℕ) (s t : Flow)
    → settle code f s ≡ result t
    → (i : ℕ) → i < length code
    → Stable code t i
unfolding settle
settle-Stable code zero s t e = cc
settle-Stable code (suc f) s t e = elim (Option-cases (sweep code (length code) (unchanged s))) [
  | inl n ↦ let bad : panicked ≡ result t = rw n at e in cc
  | inr (u, p) ↦ elim (Bool-cases u.changed) [
    | inl c ↦ settle-Stable code f u t (
        sym (if_true (settle code f u) (result u) c)
        ∙ sym (ap (λ o. swept o (settle code f)) p)
        ∙ e)
    | inr c ↦
        let done : result u ≡ result t =
          sym (if_false (settle code f u) (result u) c)
          ∙ sym (ap (λ o. swept o (settle code f)) p)
          ∙ e in
        let same : u ≡ t = cc in
        let (here, all) = sweep-Stable code (length code) (unchanged s) u p c in
        λ i h. subst (λ f. Stable code f i) (sym here ∙ same) (all i h)
  ]
]

-- The sets of the registers that are live before and behind each instruction: what is used is live before, what
-- is live behind and not defined is live before, and what is live before a next instruction is live behind.
pub record Solves (code : List Tac) (ins outs : List (List ℕ)) (i : ℕ) (t : Tac) : Type 0 where
  pub inn : List ℕ
  pub out : List ℕ
  pub next : List ℕ
  pub in_of : get_elem? ins i ≡ some inn
  pub out_of : get_elem? outs i ≡ some out
  pub next_of : targets code i t ≡ some next
  pub uses_live : (w : ℕ) → In w (uses t) → In w inn
  pub passes : (w : ℕ) → In w out → is_def (def t) w ≡ false → In w inn
  pub flows :
      (s : ℕ)
      → In s next
      → (later : List ℕ) × (get_elem? ins s ≡ some later) × ((w : ℕ) → In w later → In w out)

Stable-Solves :
    (code : List Tac) (s : Flow) (i : ℕ) (t : Tac)
    → get_elem? code i ≡ some t
    → Stable code s i
    → Solves code s.ins s.outs i t
Stable-Solves code s i t e k =
    let same = some-injective k.tac t (sym k.at ∙ e) in
    let out = sorted_set k.all in
    subst (Solves code s.ins s.outs i) same (record {
      inn = live_before k.tac out;
      out = out;
      next = k.next;
      in_of = k.in_of;
      out_of = k.out_of;
      next_of = k.next_of;
      uses_live = live_before-uses k.tac out;
      passes = live_before-passes k.tac out;
      flows = λ n h.
          let (later, p, q) = gather-In s.ins k.next k.all n k.gathered h in
          (later, p, λ w j. (sorted_set-Same k.all w).1 (q w j));
    })

pub get_elem?-lt {ℓ} :
    {A : Type ℓ} (xs : List A) (i : ℕ) (a : A) → get_elem? xs i ≡ some a → i < length xs
get_elem?-lt [] i a h = cc
get_elem?-lt (x ∷ xs) zero a h = omega arith
get_elem?-lt (x ∷ xs) (suc i) a h = omega (arith, get_elem?-lt xs i a h)

-- The lists keep their lengths.
store_at-length :
    (i : ℕ) (inn out : List ℕ) (s : Flow) (a b : List ℕ)
    → length (store_at i inn out s a b).outs ≡ length s.outs
store_at-length i inn out s a b = elim (Bool-cases (name_eq inn a && name_eq out b)) [
  | inl e ↦ rw e refl
  | inr e ↦ rw e (length-set s.outs i out)
]

visit-length :
    (code : List Tac) (i : ℕ) (s t : Flow) → visit code i s ≡ some t → length t.outs ≡ length s.outs
unfolding visit
visit-length code i s t e =
    let (u, at, e₁) = with_some-inv (get_elem? code i) _ t e in
    let (ss, next, e₂) = with_some-inv (targets code i u) _ t e₁ in
    let (all, gathered, e₃) = with_some-inv (gather s.ins ss) _ t e₂ in
    let (old_in, p, e₄) = with_some-inv (get_elem? s.ins i) _ t e₃ in
    let (old_out, q, e₅) = with_some-inv (get_elem? s.outs i) _ t e₄ in
    let out = sorted_set all in
    let inn = live_before u out in
    let same = some-injective (store_at i inn out s old_in old_out) t e₅ in
    ap (λ f. length f.outs) (sym same) ∙ store_at-length i inn out s old_in old_out

sweep-length :
    (code : List Tac) (n : ℕ) (s t : Flow) → sweep code n s ≡ some t → length t.outs ≡ length s.outs
unfolding sweep
sweep-length code zero s t e = ap (λ f. length f.outs) (sym (some-injective s t e))
sweep-length code (suc n) s t e =
    let (u, p, q) = with_some-inv (visit code n s) _ t e in
    sweep-length code n u t q ∙ visit-length code n s u p

pub settle-length :
    (code : List Tac) (f : ℕ) (s t : Flow)
    → settle code f s ≡ result t
    → length t.outs ≡ length s.outs
unfolding settle
settle-length code zero s t e = cc
settle-length code (suc f) s t e = elim (Option-cases (sweep code (length code) (unchanged s))) [
  | inl n ↦ let bad : panicked ≡ result t = rw n at e in cc
  | inr (u, p) ↦
      let q = sym (ap (λ o. swept o (settle code f)) p) ∙ e in
      let first = sweep-length code (length code) (unchanged s) u p in
      elim (Bool-cases u.changed) [
        | inl c ↦
            settle-length code f u t (sym (if_true (settle code f u) (result u) c) ∙ q) ∙ first
        | inr c ↦
            let done : result u ≡ result t = sym (if_false (settle code f u) (result u) c) ∙ q in
            let same : u ≡ t = cc in ap (λ f. length f.outs) (sym same) ∙ first
      ]
]

pub outs_of-inv :
    (o : Outcome Flow) (outs : List (List ℕ))
    → outs_of o ≡ result outs
    → (s : Flow) × (o ≡ result s) × (s.outs ≡ outs)
outs_of-inv (result s) outs e = (s, refl, cc)
outs_of-inv panicked outs e = cc
outs_of-inv out_of_fuel outs e = cc

abbrev pub HasSets : List Tac → List (List ℕ) → Type 0
HasSets code outs =
    (length code ≡ length outs)
    × ((ins : List (List ℕ)) × ((i : ℕ) (t : Tac)
          → get_elem? code i ≡ some t
          → Solves code ins outs i t))

-- Where `liveness` returns, it gives each instruction the registers that are live behind it.
pub liveness-HasSets :
    (f : ℕ) (code : List Tac) (outs : List (List ℕ))
    → liveness f code ≡ result outs
    → HasSets code outs
unfolding liveness
liveness-HasSets f code outs e =
    let (s, q, o) = outs_of-inv (settle code f (nothing_live code)) outs e in
    let len : length s.outs ≡ length code =
      settle-length code f (nothing_live code) s q ∙ length-replicate (length code) [] in
    (
      sym len ∙ ap length o,
      (
        s.ins,
        λ i t h.
            let stable = settle-Stable code f (nothing_live code) s q i (get_elem?-lt code i t h) in
            subst (λ o. Solves code s.ins o i t) o (Stable-Solves code s i t h stable),
      ),
    )
