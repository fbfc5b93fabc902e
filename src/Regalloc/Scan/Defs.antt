-- ===== src/Regalloc/Scan/Defs.antt =====
-- Live intervals and the linear scan of ch08-01-regalloc.rs. The stack of free registers has its top first.
use model_lib.Base.{
  ℕ, zero, suc, Bool, ◌&&◌, ◌||◌, Option, none, some, List, [], ◌∷◌, ◌++◌, ltb, leb, ◌==◌,
  if◌then◌else◌,
}
use model_lib.Regalloc.Code.Defs.{Tac, with_some}
use model_lib.Regalloc.Live.Defs.{uses, def}

pub record Interval : Type 0 where
  pub vreg : ℕ
  pub start : ℕ
  pub end : ℕ

abbrev pub minimum : ℕ → ℕ → ℕ
minimum a b = if ltb b a then b else a

abbrev pub maximum : ℕ → ℕ → ℕ
maximum a b = if ltb a b then b else a

-- The entry of a register, widened to an index.
unfoldable pub touch : ℕ → ℕ → List Interval → List Interval
touch w i [] = record { vreg = w; start = i; end = i } ∷ []
touch w i (x ∷ span) =
    let rest = touch w i span in
    if x.vreg == w
    then record x { start = minimum x.start i; end = maximum x.end i } ∷ span
    else x ∷ rest

unfoldable pub touch_all : List ℕ → ℕ → List Interval → List Interval
unfolding touch
touch_all [] i span = span
touch_all (w ∷ ws) i span = touch_all ws i (touch w i span)

abbrev pub listed : Option ℕ → List ℕ
listed none = []
listed (some d) = d ∷ []

abbrev pub touched : Tac → List ℕ → List ℕ
touched t out = uses t ++ (listed (def t) ++ out)

unfoldable pub spans : ℕ → List Tac → List (List ℕ) → List Interval → Option (List Interval)
unfolding touch_all
spans i [] outs span = some span
spans i (t ∷ code) [] span = none
spans i (t ∷ code) (out ∷ outs) span = spans (suc i) code outs (touch_all (touched t out) i span)

-- `sort_by_key`
abbrev pub starts_first : Interval → Interval → Bool
starts_first x y = ltb x.start y.start || ((x.start == y.start) && leb x.vreg y.vreg)

unfoldable pub insert_interval : Interval → List Interval → List Interval
insert_interval x [] = x ∷ []
insert_interval x (y ∷ ys) =
    let rest = insert_interval x ys in if starts_first x y then x ∷ y ∷ ys else y ∷ rest

unfoldable pub sort_intervals : List Interval → List Interval
unfolding insert_interval
sort_intervals [] = []
sort_intervals (x ∷ xs) = insert_interval x (sort_intervals xs)

unfoldable pub intervals : List Tac → List (List ℕ) → Option (List Interval)
unfolding spans sort_intervals
intervals code outs = with_some (spans 0 code outs []) (λ span. some (sort_intervals span))

pub data Loc : Type 0 where
  reg slot : ℕ → Loc

pub record Active : Type 0 where
  pub end : ℕ
  pub vreg : ℕ
  pub reg : ℕ

abbrev pub Locs : Type 0
Locs = ℕ → Option Loc

abbrev pub located : Locs → ℕ → Loc → Locs
located loc w l u = if w == u then some l else loc u

pub record Scan : Type 0 where
  pub loc : Locs
  pub active : List Active
  pub free : List ℕ
  pub slots : ℕ

-- `retain`, which frees the registers of what ended.
abbrev pub keep : Active → List Active × List ℕ → List Active × List ℕ
keep a (active, free) = (a ∷ active, free)

unfoldable pub expire : ℕ → List Active → List ℕ → List Active × List ℕ
expire start [] free = ([], free)
expire start (a ∷ active) free =
    let gone = expire start active (a.reg ∷ free) in
    let kept = keep a (expire start active free) in if ltb a.end start then gone else kept

-- The order of the triples.
abbrev pub ends_first : Active → Active → Bool
ends_first a b =
    ltb a.end b.end
    || ((a.end == b.end) && (ltb a.vreg b.vreg || ((a.vreg == b.vreg) && leb a.reg b.reg)))

unfoldable pub insert_active : Active → List Active → List Active
insert_active a [] = a ∷ []
insert_active a (b ∷ bs) =
    let rest = insert_active a bs in if ends_first a b then a ∷ b ∷ bs else b ∷ rest

unfoldable pub sort_active : List Active → List Active
unfolding insert_active
sort_active [] = []
sort_active (a ∷ active) = insert_active a (sort_active active)

-- The last one, and those before it.
abbrev pub before_last : Active → Option (List Active × Active) → Option (List Active × Active)
before_last a none = some ([], a)
before_last a (some (bs, b)) = some (a ∷ bs, b)

unfoldable pub split_last : List Active → Option (List Active × Active)
split_last [] = none
split_last (a ∷ active) = before_last a (split_last active)

abbrev pub assign : Interval → Scan → List Active → ℕ → List ℕ → Scan
assign x s active r free = record {
  loc = located s.loc x.vreg (Loc.reg r);
  active = sort_active (active ++ record { end = x.end; vreg = x.vreg; reg = r } ∷ []);
  free = free;
  slots = s.slots;
}

-- The interval that ends last goes to a slot.
abbrev pub evict : Interval → Scan → List Active → List Active → Active → Scan
evict x s active init last =
    if ltb x.end last.end
    then record {
      loc = located (located s.loc last.vreg (slot s.slots)) x.vreg (Loc.reg last.reg);
      active = sort_active (init ++ record { end = x.end; vreg = x.vreg; reg = last.reg } ∷ []);
      free = [];
      slots = suc s.slots;
    }
    else record {
      loc = located s.loc x.vreg (slot s.slots);
      active = sort_active active;
      free = [];
      slots = suc s.slots;
    }

abbrev pub place_interval : Interval → Scan → List Active × List ℕ → Option Scan
place_interval x s (active, r ∷ free) = some (assign x s active r free)
place_interval x s (active, []) =
    with_some (split_last active) (λ (init, last). some (evict x s active init last))

unfoldable pub scan_one : Interval → Scan → Option Scan
unfolding expire sort_active split_last
scan_one x s = place_interval x s (expire x.start s.active s.free)

unfoldable pub scan_all : List Interval → Scan → Option Scan
unfolding scan_one
scan_all [] s = some s
scan_all (x ∷ xs) s = with_some (scan_one x s) (scan_all xs)

-- The registers from one number on.
unfoldable pub registers : ℕ → ℕ → List ℕ
registers r zero = []
registers r (suc k) = r ∷ registers (suc r) k

abbrev pub unscanned : ℕ → Scan
unscanned k = record { loc = λ w. none; active = []; free = registers 0 k; slots = 0 }

unfoldable pub linear_scan : List Interval → ℕ → Option Locs
unfolding scan_all registers
linear_scan xs k = with_some (scan_all xs (unscanned k)) (λ s. some s.loc)
