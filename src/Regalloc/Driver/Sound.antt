-- ===== src/Regalloc/Driver/Sound.antt =====
-- What the code that the passes of ch08-01-regalloc.rs select does.
use Prim.Native.Nat.{◌*◌, ◌^◌}
use model_lib.Base.{
  Bool, ◌&&◌, ℕ, suc, ◌≤◌, ◌<◌, ◌≡◌, refl, sym, ap, ◌∙◌, some, inl, inr, List, [], ◌∷◌, ◌++◌,
  get_elem?, ltb, true, if_true, arith,
}
use model_lib.Regalloc.Code.Defs.{
  Opnd, v, imm, arg, Tac, bin, copy, label, jump_if_ge, jump, ret, with_some, no_values, interpret,
  result,
}
use model_lib.Regalloc.Live.Defs.{vregs, uses, def}
use model_lib.Regalloc.Live.Total.{is_closed, rounds, both-true, liveness-returns}
use model_lib.Regalloc.Live.Reads.{touched-cases}
use model_lib.Regalloc.Live.Solved.{HasSets, liveness-HasSets}
use model_lib.Regalloc.Scan.Defs.{Interval, Loc, reg, slot, Locs, listed, touched, linear_scan}
use model_lib.Regalloc.Scan.Members.{In, In-append_left, In-append_right, In-append_cases}
use model_lib.Regalloc.Scan.Covers.{IsCover, intervals-IsCover}
use model_lib.Regalloc.Scan.Sound.{IsAllocation, linear_scan-IsAllocation}
use model_lib.Regalloc.Select.Defs.{
  Text, register, stack, number, args, Line, mov, rax, ret_line, at_loc, place, select_one, select,
  mnemonic, copy_lines, bin_lines, compare_lines, emulate, booted, arguments,
}
use model_lib.Regalloc.Select.Alive.{Separate}
use model_lib.Regalloc.Select.Assigned.{Selected}
use model_lib.Regalloc.Select.Simulates.{run-Follows}
use model_lib.Regalloc.Driver.Defs.{and_then, or_panic, assembled, back_end}

-- The offset of every argument of a code fits into a `u32`.
abbrev pub offset_fits : Opnd → Bool
offset_fits (arg i) = ltb (8 * i) (2 ^ 32)
offset_fits o = true

abbrev pub both_fit : Tac → Bool
both_fit (bin d o a b) = offset_fits a && offset_fits b
both_fit (copy d a) = offset_fits a
both_fit (jump_if_ge a b l) = offset_fits a && offset_fits b
both_fit (ret a) = offset_fits a
both_fit t = true

abbrev pub offsets_fit : List Tac → Bool
offsets_fit [] = true
offsets_fit (t ∷ code) = both_fit t && offsets_fit code

-- A register that has a text.
abbrev Placed : Locs → ℕ → Type 0
Placed loc w = (t : Text) × (place loc (v w) ≡ some t)

place-succeeds :
    (loc : Locs) (o : Opnd)
    → offset_fits o ≡ true
    → ((w : ℕ) → In w (vregs o) → Placed loc w)
    → (t : Text) × (place loc o ≡ some t)
place-succeeds loc (v w) f h = h w (inl refl)
place-succeeds loc (imm c) f h = (number c, refl)
place-succeeds loc (arg i) f h = (args i, if_true _ _ f)

select_one-succeeds :
    (loc : Locs) (t : Tac)
    → both_fit t ≡ true
    → ((w : ℕ) → In w (uses t ++ listed (def t)) → Placed loc w)
    → (lines : List Line) × (select_one loc t ≡ some lines)
unfolding select_one
select_one-succeeds loc (copy d a) f h =
    let (p, e) = h d (In-append_right d (vregs a) (d ∷ []) (inl refl)) in
    let (q, g) = place-succeeds loc a f (λ w i. h w (In-append_left w (vregs a) (d ∷ []) i)) in
    (copy_lines p q, rw (e, g) refl)
select_one-succeeds loc (bin d o a b) f h =
    let (fa, fb) = both-true (offset_fits a) (offset_fits b) f in
    let both = vregs a ++ vregs b in
    let (p, e) = h d (In-append_right d both (d ∷ []) (inl refl)) in
    let (q, g) =
      place-succeeds loc a fa
        (λ w i. h w (In-append_left w both (d ∷ []) (In-append_left w (vregs a) (vregs b) i))) in
    let (r, k) =
      place-succeeds loc b fb
        (λ w i. h w (In-append_left w both (d ∷ []) (In-append_right w (vregs a) (vregs b) i))) in
    (bin_lines (mnemonic o) p q r, rw (e, g, k) refl)
select_one-succeeds loc (label l) f h = (_, refl)
select_one-succeeds loc (jump_if_ge a b l) f h =
    let (fa, fb) = both-true (offset_fits a) (offset_fits b) f in
    let both = vregs a ++ vregs b in
    let (q, g) =
      place-succeeds loc a fa
        (λ w i. h w (In-append_left w both [] (In-append_left w (vregs a) (vregs b) i))) in
    let (r, k) =
      place-succeeds loc b fb
        (λ w i. h w (In-append_left w both [] (In-append_right w (vregs a) (vregs b) i))) in
    (compare_lines q r l, rw (g, k) refl)
select_one-succeeds loc (jump l) f h = (_, refl)
select_one-succeeds loc (ret a) f h =
    let (q, g) = place-succeeds loc a f (λ w i. h w (In-append_left w (vregs a) [] i)) in
    (mov rax q ∷ ret_line ∷ [], rw g refl)

select-succeeds :
    (code : List Tac) (loc : Locs)
    → offsets_fit code ≡ true
    → ((i : ℕ) (t : Tac) (w : ℕ)
        → get_elem? code i ≡ some t
        → In w (uses t ++ listed (def t))
        → Placed loc w)
    → (asm : List Line) × (select code loc ≡ some asm)
unfolding select
select-succeeds [] loc f h = ([], refl)
select-succeeds (t ∷ code) loc f h =
    let (ft, fs) = both-true (both_fit t) (offsets_fit code) f in
    let (lines, e) = select_one-succeeds loc t ft (λ w. h 0 t w refl) in
    let (rest, g) = select-succeeds code loc fs (λ i. h (suc i)) in (lines ++ rest, rw (e, g) refl)

module _ (k : ℕ) (code : List Tac) (outs : List (List ℕ)) (spans : List Interval) (loc : Locs)
    (few : k ≤ 12) (cover : IsCover code outs spans) (allocation : IsAllocation k spans loc) where
  at_loc-succeeds : (l : Loc) → ((r : ℕ) → l ≡ reg r → r < k) → (t : Text) × (at_loc l ≡ some t)
  at_loc-succeeds (slot s) h = (stack s, refl)
  at_loc-succeeds (reg r) h =
      let lt : ltb r 12 ≡ true = ground (arith, few, h r refl) in (register r, if_true _ _ lt)

  touched-Placed :
      (i : ℕ) (t : Tac) (out : List ℕ) (w : ℕ)
      → get_elem? code i ≡ some t
      → get_elem? outs i ≡ some out
      → In w (touched t out)
      → Placed loc w
  touched-Placed i t out w at out_at h =
      let c = cover.covers i t out w at out_at (touched-cases t out w h) in
      let (l, e) = allocation.placed c.interval c.listed in
      let (u, p) =
        at_loc-succeeds l (λ r q. allocation.in_reach c.interval r c.listed (e ∙ ap some q)) in
      (u, ap (λ w. with_some (loc w) at_loc) (sym c.named) ∙ ap (λ o. with_some o at_loc) e ∙ p)

  touched-Separate : Separate code outs loc
  touched-Separate i t out w u at out_at h g n e =
      let c = cover.covers i t out w at out_at (touched-cases t out w h) in
      let d = cover.covers i t out u at out_at (touched-cases t out u g) in
      allocation.apart c.interval d.interval c.listed d.listed (λ q. n (sym c.named ∙ q ∙ d.named))
        (omega (arith, c.from_start, d.to_end), omega (arith, d.from_start, c.to_end))
        (ap loc c.named ∙ e ∙ sym (ap loc d.named))

  touched_by-Placed :
      (sets : HasSets code outs) (i : ℕ) (t : Tac) (w : ℕ)
      → get_elem? code i ≡ some t
      → In w (uses t ++ listed (def t))
      → Placed loc w
  touched_by-Placed (len, (ins, solves)) i t w at h =
      let s = solves i t at in
      let inside : In w (touched t s.out) = elim (In-append_cases w (uses t) (listed (def t)) h) [
        | inl a ↦ In-append_left w (uses t) (listed (def t) ++ s.out) a
        | inr b ↦
            In-append_right w (uses t) (listed (def t) ++ s.out)
              (In-append_left w (listed (def t)) s.out b)
      ] in
      touched-Placed i t s.out w at s.out_of inside

-- The emulator returns what the interpreter returns, for every list of arguments.
abbrev pub Simulates : List Tac → List Line → Type 0
Simulates code asm =
    (f : ℕ) (xs : List ℕ) (x : ℕ)
    → interpret f code xs ≡ result x
    → (g : ℕ) × ((ops : ℕ) × (emulate g asm xs ≡ result (x, ops)))

Selected-Simulates :
    (code : List Tac) (ins outs : List (List ℕ)) (loc : Locs) (asm : List Line)
    → Selected code ins outs loc asm
    → Simulates code asm
unfolding arguments
Selected-Simulates code ins outs loc asm made f xs x e =
    run-Follows made xs f 0 no_values (booted xs) x
      (record { values = λ w x l live e p. cc; arguments = λ i. refl }) e

-- The code that is selected for one number of registers.
pub record Allocated (k : ℕ) (code : List Tac) (spans : List Interval) : Type 0 where
  pub loc : Locs
  pub asm : List Line
  pub scanned : linear_scan spans k ≡ some loc
  pub chosen : select code loc ≡ some asm
  pub simulates : Simulates code asm

pub spans-Allocated :
    (k : ℕ) (code : List Tac) (outs : List (List ℕ)) (spans : List Interval)
    → 0 < k
    → k ≤ 12
    → offsets_fit code ≡ true
    → HasSets code outs
    → IsCover code outs spans
    → Allocated k code spans
spans-Allocated k code outs spans pos few fit sets cover =
    let (len, (ins, solves)) = sets in
    let (loc, q, allocation) = linear_scan-IsAllocation k spans pos cover.ordered in
    let (asm, r) =
      select-succeeds code loc fit
        (touched_by-Placed k code outs spans loc few cover allocation sets) in
    record {
      loc = loc;
      asm = asm;
      scanned = q;
      chosen = r;
      simulates = Selected-Simulates code ins outs loc asm (record {
        chosen = r;
        sets = solves;
        apart = touched-Separate k code outs spans loc few cover allocation;
      });
    }

-- For any number of registers from one to twelve, where every jump of a code has its label, the code ends in a
-- jump or a return, and the offsets of its arguments fit into 32 bits, the passes select assembly without a panic,
-- with the rounds that are enough for the liveness analysis, and for every arguments the emulator of that
-- assembly returns the value which the interpreter of the code returns, where it returns one.
pub back_end-Simulates :
    (f k : ℕ) (code : List Tac)
    → 0 < k
    → k ≤ 12
    → is_closed code ≡ true
    → offsets_fit code ≡ true
    → rounds code ≤ f
    → (asm : List Line) × (back_end f k code ≡ result asm) × Simulates code asm
unfolding back_end
back_end-Simulates f k code pos few closed fit le =
    let (outs, e) = liveness-returns f code closed le in
    let sets = liveness-HasSets f code outs e in
    let (spans, p, cover) = intervals-IsCover code outs sets.0 in
    let a = spans-Allocated k code outs spans pos few fit sets cover in
    (
      a.asm,
      ap (λ o. and_then o (assembled k code)) e
          ∙ ap
              (λ o. or_panic o (λ spans.
                or_panic (linear_scan spans k) (λ loc. or_panic (select code loc) result)))
              p
          ∙ ap (λ o. or_panic o (λ loc. or_panic (select code loc) result)) a.scanned
          ∙ ap (λ o. or_panic o result) a.chosen,
      a.simulates,
    )
