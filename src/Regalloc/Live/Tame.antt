-- ===== src/Regalloc/Live/Tame.antt =====
-- What holds of the sets of `liveness` in ch08-01-regalloc.rs while they grow.
use mathlib.Core.Path.{subst}
use mathlib.Core.Option.{some-injective}
use model_lib.Base.{
  ℕ, ◌+◌, ◌<◌, ◌≡◌, sym, ap, ◌∙◌, nat-cases, inl, inr, some, List, length, length-set, get_elem?,
  get_elem?-some, set, arith,
}
use model_lib.Regalloc.Code.Defs.{Tac}
use model_lib.Regalloc.Live.Defs.{uses, sorted_set, live_before, targets, gather, Flow, stored}
use model_lib.Regalloc.Live.Ascending.{Sub, Above, sorted_set-Above}
use model_lib.Regalloc.Live.Grows.{
  live_before-Sub, sorted_set-Sub, Below, sorted_set-Below, live_before-Below, gather-Sub,
  gather-total, gather-Below, get_elem?-set_same, get_elem?-set_other, size, set-Wider,
}
use model_lib.Regalloc.Scan.Members.{In}

-- Every instruction has a next one inside the code: labels that are there, and no end without a return.
abbrev pub Closed : List Tac → Type 0
Closed code =
    (i : ℕ) (t : Tac)
    → get_elem? code i ≡ some t
    → (ss : List ℕ) × (targets code i t ≡ some ss) × ((s : ℕ) → In s ss → s < length code)

abbrev pub UsesBelow : ℕ → List Tac → Type 0
UsesBelow bound code = (i : ℕ) (t : Tac) → get_elem? code i ≡ some t → Below bound (uses t)

-- A set as the program keeps it.
abbrev pub IsKept : ℕ → List ℕ → Type 0
IsKept bound xs = Above 0 xs × Below bound xs

abbrev pub Kept : ℕ → List (List ℕ) → Type 0
Kept bound sets = (i : ℕ) (xs : List ℕ) → get_elem? sets i ≡ some xs → IsKept bound xs

-- No set is larger than what its equation gives.
pub record Tame (bound : ℕ) (code : List Tac) (s : Flow) : Type 0 where
  pub len_ins : length s.ins ≡ length code
  pub len_outs : length s.outs ≡ length code
  pub in_sets : Kept bound s.ins
  pub out_sets : Kept bound s.outs
  pub grows :
      (i : ℕ) (t : Tac) (ss all inn out : List ℕ)
      → get_elem? code i ≡ some t
      → targets code i t ≡ some ss
      → gather s.ins ss ≡ some all
      → get_elem? s.ins i ≡ some inn
      → get_elem? s.outs i ≡ some out
      → Sub inn (live_before t (sorted_set all)) × Sub out (sorted_set all)

abbrev pub total : Flow → ℕ
total s = size s.ins + size s.outs

set-Kept :
    (bound i : ℕ) (sets : List (List ℕ)) (old a : List ℕ)
    → get_elem? sets i ≡ some old
    → IsKept bound a
    → Kept bound sets
    → Kept bound (set sets i a)
set-Kept bound i sets old a e k h j x at = elim (nat-cases i j) [
  | inl p ↦
      let same : a ≡ x =
        some-injective a x
          (sym (get_elem?-set_same sets i old a e) ∙ ap (get_elem? (set sets i a)) p ∙ at) in
      subst (IsKept bound) same k
  | inr n ↦ h j x (sym (get_elem?-set_other sets i j a n) ∙ at)
]

-- What a visit of an instruction finds.
pub record Finds (code : List Tac) (i : ℕ) (s : Flow) : Type 0 where
  pub tac : Tac
  pub next : List ℕ
  pub all : List ℕ
  pub old_in : List ℕ
  pub old_out : List ℕ
  pub at : get_elem? code i ≡ some tac
  pub next_of : targets code i tac ≡ some next
  pub gathered : gather s.ins next ≡ some all
  pub in_at : get_elem? s.ins i ≡ some old_in
  pub out_at : get_elem? s.outs i ≡ some old_out

module _ (bound : ℕ) (code : List Tac) (closed : Closed code) (small : UsesBelow bound code) where
  gathers :
      (s : Flow) (t : Tame bound code s) (i : ℕ) (u : Tac) (ss : List ℕ)
      → get_elem? code i ≡ some u
      → targets code i u ≡ some ss
      → (a : List ℕ) × (gather s.ins ss ≡ some a)
  gathers s t i u ss at next =
      let (ss', e, h) = closed i u at in
      let same : ss' ≡ ss = some-injective ss' ss (sym e ∙ next) in
      gather-total s.ins ss (λ w k. omega (arith, t.len_ins, h w (subst (In w) (sym same) k)))

  pub finds : (s : Flow) (i : ℕ) → Tame bound code s → i < length code → Finds code i s
  finds s i t lt =
      let (u, at) = get_elem?-some code i lt in
      let (ss, next, h) = closed i u at in
      let (a, gathered) = gathers s t i u ss at next in
      let (old_in, p) = get_elem?-some s.ins i (omega (arith, lt, t.len_ins)) in
      let (old_out, q) = get_elem?-some s.outs i (omega (arith, lt, t.len_outs)) in
      record {
        tac = u;
        next = ss;
        all = a;
        old_in = old_in;
        old_out = old_out;
        at = at;
        next_of = next;
        gathered = gathered;
        in_at = p;
        out_at = q;
      }

  abbrev pub new_out : (s : Flow) (i : ℕ) → Finds code i s → List ℕ
  new_out s i f = sorted_set f.all

  abbrev pub new_in : (s : Flow) (i : ℕ) → Finds code i s → List ℕ
  new_in s i f = live_before f.tac (sorted_set f.all)

  pub out-IsKept :
      (s : Flow) (i : ℕ) (f : Finds code i s) → Tame bound code s → IsKept bound (new_out s i f)
  out-IsKept s i f t = (
    sorted_set-Above f.all,
    sorted_set-Below bound f.all
        (gather-Below bound s.ins f.next f.all (λ j xs e. (t.in_sets j xs e).1) f.gathered),
  )

  pub in-IsKept :
      (s : Flow) (i : ℕ) (f : Finds code i s) → Tame bound code s → IsKept bound (new_in s i f)
  in-IsKept s i f t = (
    sorted_set-Above _,
    live_before-Below bound f.tac (new_out s i f) (out-IsKept s i f t).1 (small i f.tac f.at),
  )

  -- Each set lies in what its equation gave before the visit.
  stored-Sub :
      (s : Flow) (i : ℕ) (f : Finds code i s)
      → Tame bound code s
      → (j : ℕ) (u : Tac) (ss a inn' out' : List ℕ) → get_elem? code j ≡ some u
      → targets code j u ≡ some ss
      → gather s.ins ss ≡ some a
      → get_elem? (set s.ins i (new_in s i f)) j ≡ some inn'
      → get_elem? (set s.outs i (new_out s i f)) j ≡ some out'
      → Sub inn' (live_before u (sorted_set a)) × Sub out' (sorted_set a)
  stored-Sub s i f t j u ss a inn' out' at next e in_at out_at =
      let inn = new_in s i f in
      let out = new_out s i f in
      elim (nat-cases i j) [
        | inl p ↦
            let same_in : inn ≡ inn' = some-injective inn inn' (
              sym (get_elem?-set_same s.ins i f.old_in inn f.in_at)
              ∙ ap (get_elem? (set s.ins i inn)) p
              ∙ in_at) in
            let same_out : out ≡ out' = some-injective out out' (
              sym (get_elem?-set_same s.outs i f.old_out out f.out_at)
              ∙ ap (get_elem? (set s.outs i out)) p
              ∙ out_at) in
            let same_tac : f.tac ≡ u =
              some-injective f.tac u (sym f.at ∙ ap (get_elem? code) p ∙ at) in
            let same_next : f.next ≡ ss = some-injective f.next ss (
              sym f.next_of
              ∙ ap (λ j. targets code j f.tac) p
              ∙ ap (targets code j) same_tac
              ∙ next) in
            let same_all : f.all ≡ a =
              some-injective f.all a (sym f.gathered ∙ ap (gather s.ins) same_next ∙ e) in
            (
              λ w h.
                  subst (λ a. In w (live_before u (sorted_set a))) same_all
                    (subst (λ u. In w (live_before u out)) same_tac (subst (In w) (sym same_in) h)),
              λ w h. subst (λ a. In w (sorted_set a)) same_all (subst (In w) (sym same_out) h),
            )
        | inr n ↦
            t.grows j u ss a inn' out' at next e (sym (get_elem?-set_other s.ins i j inn n) ∙ in_at)
              (sym (get_elem?-set_other s.outs i j out n) ∙ out_at)
      ]

  pub stored-Tame :
      (s : Flow) (i : ℕ) (f : Finds code i s)
      → Tame bound code s
      → Tame bound code (stored i (new_in s i f) (new_out s i f) s)
  stored-Tame s i f t =
      let (sub_in, sub_out) =
        t.grows i f.tac f.next f.all f.old_in f.old_out f.at f.next_of f.gathered f.in_at
          f.out_at in
      let inn = new_in s i f in
      let out = new_out s i f in
      let wide = set-Wider s.ins i f.old_in inn f.in_at sub_in in
      record {
        len_ins = length-set s.ins i inn ∙ t.len_ins;
        len_outs = length-set s.outs i out ∙ t.len_outs;
        in_sets = set-Kept bound i s.ins f.old_in inn f.in_at (in-IsKept s i f t) t.in_sets;
        out_sets = set-Kept bound i s.outs f.old_out out f.out_at (out-IsKept s i f t) t.out_sets;
        grows = λ j u ss all inn' out' at next gathered in_at out_at.
            let (a, e) = gathers s t j u ss at next in
            let (b, g, sub) = gather-Sub s.ins (set s.ins i inn) ss a wide e in
            let sub_all : Sub a all =
              λ w h. subst (In w) (some-injective b all (sym g ∙ gathered)) (sub w h) in
            let wider = stored-Sub s i f t j u ss a inn' out' at next e in_at out_at in
            (
              λ w h.
                  live_before-Sub u (sorted_set a) (sorted_set all) (sorted_set-Sub a all sub_all) w
                    (wider.0 w h),
              λ w h. sorted_set-Sub a all sub_all w (wider.1 w h),
            );
      }
