-- ===== src/Plan/Window/Thresholds.antt =====
-- context/plan/window.go: the thresholds of a window that Validate accepts.
use mivia_ai_sdk.Base.{
  ℕ, zero, suc, ◌&&◌, ◌+◌, ◌-◌, ◌*◌, ◌/◌, ◌^◌, ◌≤◌, ◌<◌, ◌≡◌, refl, sym, ◌∙◌, ap, subst, inl, inr,
  none, Bool-cases, Option-cases, leb, arith, false,
}
use mivia_ai_sdk.Base.Int.{
  ℤ, pos, negsuc, ◌≤ℤ◌, ◌<ℤ◌, pos_part, neg_part, leb_int, ltb_int, int64, sub_int, mul_int,
  quot_int, int64-small,
}
use mivia_ai_sdk.Plan.Window.{
  Window, Compaction, outside, or_default, trigger_percent_of, target_percent_of, validate_percents,
  validate_compaction, validate_window, budget, compact_trigger, compact_target,
}

-- A percentage of a budget that does not overflow.
part-le : (b t : ℕ) → t ≤ 100 → b * t ≤ b * 100
part-le zero t h = omega arith
part-le (suc b) t h = omega (arith, part-le b t h)

percent :
    (b t : ℕ)
    → t ≤ 100
    → b * 100 < 2 ^ 63
    → quot_int (mul_int (pos b) (pos t)) 100 ≡ pos (b * t / 100)
unfolding mul_int quot_int
percent b t h l =
    let e : int64 (b * t + 0 * 0) (b * 0 + 0 * t) ≡ pos (b * t) =
      int64-small (b * t + 0 * 0) (b * 0 + 0 * t) (omega arith) (omega (arith, part-le b t h))
      ∙ ap pos (omega arith) in
    rw e refl

not_negative : (a : ℤ) → ltb_int a (pos 0) ≡ false → (n : ℕ) × (a ≡ pos n)
not_negative (pos n) h = (n, refl)
not_negative (negsuc n) h = absurd (ground (arith, h))

-- The parts of an accepted window.
record IsWindow (w : Window) : Type 0 where
  pub max : ℕ
  pub reserved : ℕ
  pub max_eq : w.max_tokens ≡ pos max
  pub reserve_eq : w.reserve ≡ pos reserved
  pub fits : reserved < max
  pub rules : validate_compaction w.compaction ≡ none
  pub target :
      (ltb_int (pos 0) w.compaction.target_tokens && leb_int (budget w) w.compaction.target_tokens)
      ≡ false

validate_window-IsWindow : (w : Window) → validate_window w ≡ none → IsWindow w
unfolding validate_window
validate_window-IsWindow w h =
    let a : leb_int w.max_tokens (pos 0) ≡ false = ground (arith, h) in
    let b : ltb_int w.reserve (pos 0) ≡ false = ground (arith, h) in
    let c : leb_int w.max_tokens w.reserve ≡ false = ground (arith, h) in
    let (m, em) = not_negative w.max_tokens (ground (arith, a)) in
    let (r, er) = not_negative w.reserve b in
    elim (Option-cases (validate_compaction w.compaction)) [
      | inr (x, e) ↦ absurd (ground (arith, rw (a, b, c, e, validate_window) at h))
      | inl e ↦ record {
        max = m;
        reserved = r;
        max_eq = em;
        reserve_eq = er;
        fits = below m r (
            subst (λ x. leb_int x (pos r) ≡ false) em
              (subst (λ x. leb_int w.max_tokens x ≡ false) er c));
        rules = e;
        target = ground (arith, rw (a, b, c, e, validate_window) at h);
      }
    ]
  where
    below : (m r : ℕ) → leb_int (pos m) (pos r) ≡ false → r < m
    below m r h = ground (arith, h)

or_default-percent :
    (p : ℤ) (default : ℕ)
    → outside p ≡ false
    → default ≤ 100
    → (t : ℕ) × (or_default p default ≡ pos t) × (t ≤ 100)
unfolding or_default
or_default-percent (pos n) default h l = elim (Bool-cases (leb n 0)) [
  | inl e ↦ (default, ground (arith, e), l)
  | inr e ↦ (n, ground (arith, e), ground (arith, h))
]
or_default-percent (negsuc n) default h l = (default, ground arith, l)

percents :
    (c : Compaction)
    → validate_compaction c ≡ none
    → (outside c.trigger_percent ≡ false) × (outside c.target_percent ≡ false)
unfolding validate_compaction validate_percents
percents c h = elim (Option-cases (validate_percents c)) [
  | inr (x, e) ↦ absurd (ground (arith, rw (e, validate_compaction) at h))
  | inl e ↦ (ground (arith, e), ground (arith, e))
]

-- The budget of an accepted window is positive, and its thresholds lie between nought and the budget;
-- the window is small enough for a hundred times its tokens to be an int.
pub validate_window-thresholds :
    (w : Window)
    → validate_window w ≡ none
    → pos_part w.max_tokens * 100 < 2 ^ 63
    → (pos 0 <ℤ budget w)
      × (pos 0 ≤ℤ compact_trigger w)
      × (compact_trigger w ≤ℤ budget w)
      × (pos 0 ≤ℤ compact_target w)
      × (compact_target w ≤ℤ budget w)
unfolding budget compact_trigger compact_target trigger_percent_of target_percent_of sub_int
validate_window-thresholds w h l =
    let q = validate_window-IsWindow w h in
    let (a, b) = percents w.compaction q.rules in
    let (t, et, lt) = or_default-percent w.compaction.trigger_percent 100 a (omega arith) in
    let (g, eg, lg) = or_default-percent w.compaction.target_percent 10 b (omega arith) in
    let small : q.max * 100 < 2 ^ 63 = subst (λ x. pos_part x * 100 < 2 ^ 63) q.max_eq l in
    let n = q.max - q.reserved in
    let f = q.fits in
    let whole : budget w ≡ pos n =
      ap (λ x. sub_int x w.reserve) q.max_eq
      ∙ (ap (λ x. sub_int (pos q.max) x) q.reserve_eq
          ∙ (int64-small (q.max + 0) (q.reserved + 0) (omega (arith, f)) (omega (arith, small))
              ∙ ap pos (omega arith))) in
    let over : n * 100 < 2 ^ 63 = omega (arith, small, f) in
    let trigger : compact_trigger w ≡ pos (n * t / 100) =
      ap (λ x. quot_int (mul_int x (trigger_percent_of w.compaction)) 100) whole
      ∙ (ap (λ x. quot_int (mul_int (pos n) x) 100) et ∙ percent n t lt over) in
    let share : quot_int (mul_int (budget w) (target_percent_of w.compaction)) 100
        ≡ pos (n * g / 100) =
      ap (λ x. quot_int (mul_int x (target_percent_of w.compaction)) 100) whole
      ∙ (ap (λ x. quot_int (mul_int (pos n) x) 100) eg ∙ percent n g lg over) in
    let target : (pos 0 ≤ℤ compact_target w) × (compact_target w ≤ℤ budget w) =
      elim (Bool-cases (ltb_int (pos 0) w.compaction.target_tokens)) [
        | inl e ↦
            rw (e, compact_target)
              (let below : leb_int (budget w) w.compaction.target_tokens ≡ false =
                  ground (arith, q.target, e) in
                (ground (arith, e), ground (arith, below)))
        | inr e ↦
            rw (e, compact_target)
              (subst (λ x. (pos 0 ≤ℤ x) × (x ≤ℤ budget w)) (sym share)
                (
                  omega arith,
                  subst (λ x. pos (n * g / 100) ≤ℤ x) (sym whole) (omega (arith, part-le n g lg)),
                ))
      ] in
    in_window (budget w) (compact_trigger w) (compact_target w) n (n * t / 100) whole trigger
      (omega (arith, f)) (omega (arith, part-le n t lt)) target
  where
    in_window :
        (whole trigger target : ℤ) (b p : ℕ)
        → whole ≡ pos b
        → trigger ≡ pos p
        → 0 < b
        → p ≤ b
        → (pos 0 ≤ℤ target) × (target ≤ℤ whole)
        → (pos 0 <ℤ whole)
          × (pos 0 ≤ℤ trigger)
          × (trigger ≤ℤ whole)
          × (pos 0 ≤ℤ target)
          × (target ≤ℤ whole)
    in_window whole trigger target b p e f k l h =
        let e0 = ap pos_part e in
        let e1 = ap neg_part e in
        let f0 = ap pos_part f in
        let f1 = ap neg_part f in
        (omega (arith, e0, e1), omega (arith, f0, f1), omega (arith, e0, e1, f0, f1), h.0, h.1)
