-- ===== src/Viewer/Graph/Positions.antt =====
-- The columns of a graph: when the line of a call has a length.
use goapptrace.Base.{
  ℕ, ◌+◌, ◌-◌, ◌*◌, ◌≤◌, ◌<◌, ◌≡◌, ◌⊎◌, inl, inr, refl, ap, arith, Bool, true, false, List, [], ◌∷◌,
  ok, panic, leb, Bool-cases, if◌then◌else◌, All, All-map, map,
}
use goapptrace.Base.Int.{ℤ, ◌<ℤ◌, ◌≤ℤ◌, ltb_ℤ}
use goapptrace.Types.{FuncLog, is_ended}
use goapptrace.Viewer.Graph.{is_ended_at, is_running_at, calc_x_pos, stop_time, position, positions}

abbrev pub IsIn : FuncLog → List FuncLog → Type 0
IsIn fc [] = ⊥
IsIn fc (x ∷ xs) = (x ≡ fc) ⊎ IsIn fc xs

abbrev count : Bool → ℕ
count b = if b then 1 else 0

-- What one record adds to the column of a time.
weight : FuncLog → ℤ → ℕ
weight fc t = count (is_ended_at t fc) * 2 + count (is_running_at t fc)

calc_x_pos-weight :
    (fc : FuncLog) (fcs : List FuncLog) (t : ℤ)
    → calc_x_pos (fc ∷ fcs) t ≡ weight fc t + calc_x_pos fcs t
unfolding calc_x_pos weight
calc_x_pos-weight fc fcs t = elim (Bool-cases (is_ended_at t fc)) [
  | inl e ↦ elim (Bool-cases (is_running_at t fc)) [
    | inl r ↦ rw (e, r) (omega arith)
    | inr r ↦ rw (e, r) (omega arith)
  ]
  | inr e ↦ elim (Bool-cases (is_running_at t fc)) [
    | inl r ↦ rw (e, r) (omega arith)
    | inr r ↦ rw (e, r) (omega arith)
  ]
]

weight_mono : (fc : FuncLog) (t u : ℤ) → t ≤ℤ u → weight fc t ≤ weight fc u
unfolding weight
weight_mono fc t u h = ground arith

weight_lt :
    (fc : FuncLog) (u : ℤ)
    → fc.start_time <ℤ u
    → (is_ended fc ≡ false) ⊎ (u ≡ fc.end_time)
    → weight fc fc.start_time < weight fc u
unfolding weight
weight_lt fc u h k = ground arith

calc_x_pos_mono : (fcs : List FuncLog) (t u : ℤ) → t ≤ℤ u → calc_x_pos fcs t ≤ calc_x_pos fcs u
unfolding calc_x_pos
calc_x_pos_mono [] t u h = omega arith
calc_x_pos_mono (fc ∷ fcs) t u h =
    rw (calc_x_pos-weight fc fcs t, calc_x_pos-weight fc fcs u)
      (omega (arith, weight_mono fc t u h, calc_x_pos_mono fcs t u h))

calc_x_pos_lt :
    (fc : FuncLog) (fcs : List FuncLog) (u : ℤ)
    → IsIn fc fcs
    → fc.start_time <ℤ u
    → (is_ended fc ≡ false) ⊎ (u ≡ fc.end_time)
    → calc_x_pos fcs fc.start_time < calc_x_pos fcs u
calc_x_pos_lt fc [] u inside h k = absurd inside
calc_x_pos_lt fc (x ∷ fcs) u (inl same) h k =
    let own : weight x fc.start_time < weight x u = rw same (weight_lt fc u h k) in
    let others : calc_x_pos fcs fc.start_time ≤ calc_x_pos fcs u =
      calc_x_pos_mono fcs fc.start_time u (omega arith) in
    rw (calc_x_pos-weight x fcs fc.start_time, calc_x_pos-weight x fcs u) (omega arith)
calc_x_pos_lt fc (x ∷ fcs) u (inr inside) h k =
    let other : weight x fc.start_time ≤ weight x u = weight_mono x fc.start_time u (omega arith) in
    let rest : calc_x_pos fcs fc.start_time < calc_x_pos fcs u =
      calc_x_pos_lt fc fcs u inside h k in
    rw (calc_x_pos-weight x fcs fc.start_time, calc_x_pos-weight x fcs u) (omega arith)

-- The line of the record has a length: it starts before it stops.
abbrev pub HasLength : List FuncLog → FuncLog → Type 0
HasLength records fc = fc.start_time <ℤ stop_time records fc

stop_time-cases :
    (records : List FuncLog) (fc : FuncLog)
    → (is_ended fc ≡ false) ⊎ (stop_time records fc ≡ fc.end_time)
stop_time-cases records fc = elim (Bool-cases (is_ended fc)) [
  | inl e ↦ inr (rw e refl)
  | inr e ↦ inl e
]

-- The result of `position`, on both sides of its test.
position-cases :
    (records : List FuncLog) (fc : FuncLog)
    → IsIn fc records
    → ((HasLength records fc) × ((x : ℕ) × (len : ℕ) × (position records fc ≡ ok (x, len))))
      ⊎ ((HasLength records fc → ⊥) × (position records fc ≡ panic))
unfolding position
position-cases records fc inside =
    let left = calc_x_pos records fc.start_time in
    let right = calc_x_pos records (stop_time records fc) in
    elim (Bool-cases (ltb_ℤ fc.start_time (stop_time records fc))) [
      | inl before ↦
          let h : HasLength records fc = ground arith in
          let wide : left < right =
            calc_x_pos_lt fc records (stop_time records fc) inside h (stop_time-cases records fc) in
          let test : leb right left ≡ false = ground arith in
          inl (h, (left, right - left + 1, rw test refl))
      | inr after ↦
          let h : stop_time records fc ≤ℤ fc.start_time = ground arith in
          let narrow : right ≤ left =
            calc_x_pos_mono records (stop_time records fc) fc.start_time h in
          let test : leb right left ≡ true = ground arith in inr ((λ k. omega arith), rw test refl)
    ]

abbrev pub records_of : List (FuncLog × ℕ × ℕ) → List FuncLog
records_of ps = map (λ p. p.0) ps

-- The positions of some of the records are computed exactly where the line of each has a length.
pub positions_iff :
    (records fcs : List FuncLog)
    → All (λ fc. IsIn fc records) fcs
    → ((positions records fcs ≡ panic) × (All (HasLength records) fcs → ⊥))
      ⊎ ((All (HasLength records) fcs)
          × ((ps : List (FuncLog × ℕ × ℕ)) × (positions records fcs ≡ ok ps)
              × (records_of ps ≡ fcs)))
unfolding positions
positions_iff records [] inside = inr (tt, ([], refl, refl))
positions_iff records (fc ∷ fcs) (here, inside) = elim (position-cases records fc here) [
  | inr (short, e) ↦ inl (rw e refl, (λ all. short all.0))
  | inl (h, (x, len, e)) ↦ elim (positions_iff records fcs inside) [
    | inl (e', short) ↦ inl (rw (e, e') refl, (λ all. short all.1))
    | inr (all, (ps, e', same)) ↦
        inr ((h, all), ((fc, x, len) ∷ ps, rw (e, e') refl, ap (◌∷◌ fc) same))
  ]
]

IsIn-tail :
    (fc : FuncLog) (records fcs : List FuncLog)
    → All (λ x. IsIn x records) fcs
    → All (λ x. IsIn x (fc ∷ records)) fcs
IsIn-tail fc records fcs =
    All-map (λ x. IsIn x records) (λ x. IsIn x (fc ∷ records)) (λ x h. inr h) fcs

pub all-IsIn : (records : List FuncLog) → All (λ fc. IsIn fc records) records
all-IsIn [] = tt
all-IsIn (fc ∷ records) = (inl refl, IsIn-tail fc records records (all-IsIn records))
