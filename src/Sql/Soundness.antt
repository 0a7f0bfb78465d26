-- ===== src/Sql/Soundness.antt =====
-- Bool of a well-typed expression does not panic, on one row after another.
use goapptrace.Base.{
  ℕ, zero, suc, ◌+◌, ◌≤◌, ◌<◌, ◌≡◌, ◌⊎◌, inl, inr, refl, sym, ap, subst, ◌∙◌, arith, Bool, true,
  false, not, ◌&&◌, ◌||◌, Option, none, some, ok, ◌>>=◌, ◌==◌, ==_iff, Bool-cases, length,
}
use goapptrace.Base.Int.{leb_ℤ}
use goapptrace.Types.{FuncLog}
use goapptrace.Symbols.{Symbols}
use goapptrace.Sql.{
  SqlType, bool_type, big_int_type, string_type, datetime_type, SqlValue, sql_bool, sql_big_int,
  sql_string, sql_datetime, value_type, value_bool,
}
use goapptrace.Sql.Rows.{
  Row, func_log_row, goroutine_row, go_func_row, go_module_row, set_offset, max_offset,
}
use goapptrace.Sql.Expressions.{
  Operator, SqlAny, literal, sql_field, and_op, or_op, not_op, comp_op, range_op, func_frame,
  func_call, func_now, func_add_time, func_sub_time,
}
use goapptrace.Sql.Evaluation.{
  Libraries, State, Comparison, of_type, glob_like, matches, keep_comparison, run_comparison,
  compare_of, frame_loop, eval, Result, compare_bools, same_bool,
}
use goapptrace.Sql.Typing.{
  Kind, IsRow, IsOperand, IsComparison, IsCondition, IsState, Typing, Fits, compares,
}
use goapptrace.Sql.Readings.{field-Gives, big_int_returns, string_returns}
use goapptrace.Sql.Comparisons.{
  compare_bools_returns, compare_big_ints_returns, compare_strings_returns, compare_fn-Fits,
}

-- The second row is the first, but for the offset.
abbrev pub Moves : Row → Row → Type 0
Moves (func_log_row f s offset) r = (o : ℕ) × (r ≡ func_log_row f s o)
Moves (goroutine_row g) r = r ≡ goroutine_row g
Moves (go_func_row f s) r = r ≡ go_func_row f s
Moves (go_module_row m) r = r ≡ go_module_row m

Moves-refl : (r : Row) → Moves r r
Moves-refl (func_log_row f s o) = (o, refl)
Moves-refl (goroutine_row g) = refl
Moves-refl (go_func_row f s) = refl
Moves-refl (go_module_row m) = refl

Moves-trans : (a b c : Row) → Moves a b → Moves b c → Moves a c
Moves-trans (func_log_row f s o) b c (p, e) m = subst (λ x. Moves x c) e m
Moves-trans (goroutine_row g) b c e m = subst (λ x. Moves x c) e m
Moves-trans (go_func_row f s) b c e m = subst (λ x. Moves x c) e m
Moves-trans (go_module_row m') b c e m = subst (λ x. Moves x c) e m

some-injective {ℓ} : {A : Type ℓ} {a b : A} → some a ≡ some b → a ≡ b
some-injective h = cc

module _ (lib : Libraries) (k : Kind) (typing : Typing) where
  abbrev IsGood : Bool → State → Type 0
  IsGood framed s = IsState lib k typing framed s

  -- A value is returned, and the state stays good.
  abbrev pub Returns : Bool → State → Result lib → Type 0
  Returns framed s o =
      (b : Bool) × (s' : State) × (o ≡ ok (b, s'))
      × IsState lib k typing framed s'
      × Moves s.row s'.row

  unmoved :
      (framed : Bool) (s : State) (o : Result lib) (b : Bool)
      → IsGood framed s
      → o ≡ ok (b, s)
      → Returns framed s o
  unmoved framed s o b g e = (b, s, e, g, Moves-refl s.row)

  -- One call after another.
  then-Returns :
      (framed : Bool) (s : State) (o : Result lib) (f : Bool × State → Result lib)
      → Returns framed s o
      → ((b : Bool) (t : State) → IsGood framed t → Returns framed t (f (b, t)))
      → Returns framed s (o >>= f)
  then-Returns framed s o f (b, t, e, g, m) next =
      let (b', u, e', g', m') = next b t g in
      (b', u, ap (λ x. x >>= f) e ∙ e', g', Moves-trans s.row t.row u.row m m')

  value_bool_returns :
      (v : SqlValue)
      → (value_type v ≡ bool_type) ⊎ (value_type v ≡ big_int_type)
      → (b : Bool) × (value_bool v ≡ ok b)
  unfolding value_bool
  value_bool_returns (sql_bool b) h = (b, refl)
  value_bool_returns (sql_big_int n) h = (_, refl)
  value_bool_returns (sql_string n) (inl h) = cc
  value_bool_returns (sql_string n) (inr h) = cc
  value_bool_returns (sql_datetime n) (inl h) = cc
  value_bool_returns (sql_datetime n) (inr h) = cc

  keep-IsGood :
      (framed : Bool) (s : State) (i : ℕ) (c : Comparison) (t : SqlType) (op : Operator)
      → IsGood framed s
      → typing i ≡ some (t, op)
      → Fits lib k typing t op c
      → IsGood framed (keep_comparison i c s)
  keep-IsGood framed s i c t op g h fits = record {
    row = g.row;
    comparisons = λ j c' t' op' e h'. elim (Bool-cases (i == j)) [
      | inl same ↦
          let ij : i ≡ j = (==_iff i j).0 same in
          let ec : c ≡ c' = some-injective (rw same at e) in
          let pairs : some (t, op) ≡ some (t', op') = sym h ∙ ap typing ij ∙ h' in
          let et : t ≡ t' = ap (λ p. p.0) (some-injective pairs) in
          let eo : op ≡ op' = ap (λ p. p.1) (some-injective pairs) in
          subst (λ x. Fits lib k typing x op' c') et
            (subst (λ x. Fits lib k typing t x c') eo
              (subst (λ x. Fits lib k typing t op x) ec fits))
      | inr other ↦ g.comparisons j c' t' op' (rw other at e) h'
    ];
  }

  -- The comparison of a CompOp is there, or is made.
  compare_of_returns :
      (framed : Bool) (o : Option Comparison) (i : ℕ) (t : SqlType) (op : Operator) (A B : Type 0)
      (a b : SqlAny) (s : State)
      → s.compare i ≡ o
      → typing i ≡ some (t, op)
      → IsComparison lib k typing framed t op A B a b
      → IsGood framed s
      → (c : Comparison) × (s' : State) × (compare_of lib o i op a b s ≡ ok (c, s'))
        × Fits lib k typing t op c
        × IsGood framed s'
        × (s'.row ≡ s.row)
  compare_of_returns framed none i t op A B a b s e h typed g =
      let (c, made, fits) = compare_fn-Fits lib k typing framed s.row g.row t op A B a b typed in
      (c, keep_comparison i c s, rw made refl, fits, keep-IsGood framed s i c t op g h fits, refl)
  compare_of_returns framed (some c) i t op A B a b s e h typed g =
      (c, s, refl, g.comparisons i c t op e h, g, refl)

  module _ (framed : Bool) (left right : State → Result lib) (A B : Type 0) (a b : SqlAny)
      (op : Operator) (left_returns : A → (s : State) → IsGood framed s → Returns framed s (left s))
      (right_returns : B → (s : State) → IsGood framed s → Returns framed s (right s)) where
    abbrev Runs : Comparison → State → Type 0
    Runs c s = Returns framed s (run_comparison lib c left right a b s)

    of_type-Runs :
        (t : SqlType) (s : State)
        → compares t op ≡ true
        → IsComparison lib k typing framed t op A B a b
        → IsGood framed s
        → Runs (of_type t op) s
    unfolding run_comparison
    of_type-Runs bool_type s c (_, ha, hb, _, _) g =
        then-Returns framed s (left s)
          (λ l. right l.1 >>= λ r. compare_bools op l.0 r.0 >>= λ v. ok (v, r.1))
          (left_returns ha s g)
          λ x t gt.
            then-Returns framed t (right t) (λ r. compare_bools op x r.0 >>= λ v. ok (v, r.1))
              (right_returns hb t gt)
              λ y u gu.
                let (v, e) = compare_bools_returns op x y c in unmoved framed u _ v gu (rw e refl)
    of_type-Runs big_int_type s c (_, ha, hb) g =
        let (x, ex) = big_int_returns lib k framed s.row g.row a ha in
        let (y, ey) = big_int_returns lib k framed s.row g.row b hb in
        let (v, e) = compare_big_ints_returns op x y c in
        unmoved framed s _ v g (rw (ex, ey, e) refl)
    of_type-Runs string_type s c (_, ha, hb) g =
        let (x, ex) = string_returns lib k framed s.row g.row a ha in
        let (y, ey) = string_returns lib k framed s.row g.row b hb in
        let (v, e) = compare_strings_returns op x y c in
        unmoved framed s _ v g (rw (ex, ey, e) refl)
    of_type-Runs datetime_type s c h g = absurd h

    left_string :
        (t : SqlType)
        → t ≡ string_type
        → IsComparison lib k typing framed t op A B a b
        → IsOperand k framed string_type a
    left_string t e h = (subst (λ x. IsComparison lib k typing framed x op A B a b) e h).1

    run_comparison-Returns :
        (t : SqlType) (c : Comparison) (s : State)
        → Fits lib k typing t op c
        → IsComparison lib k typing framed t op A B a b
        → IsGood framed s
        → Runs c s
    run_comparison-Returns t (of_type t' op') s (et, eo, c) h g =
        subst (λ x. Runs (of_type x op') s) et
          (subst (λ x. Runs (of_type t x) s) eo (of_type-Runs t s c h g))
    run_comparison-Returns t (glob_like is_like p) s e h g =
        let (x, ex) = string_returns lib k framed s.row g.row a (left_string t e h) in
        unmoved framed s (run_comparison lib (glob_like is_like p) left right a b s)
          (same_bool is_like (lib.glob p x)) g (unfold run_comparison in rw ex refl)
    run_comparison-Returns t (matches is_match m) s e h g =
        let (x, ex) = string_returns lib k framed s.row g.row a (left_string t e h) in
        unmoved framed s (run_comparison lib (matches is_match m) left right a b s)
          (same_bool is_match (m x)) g (unfold run_comparison in rw ex refl)

  framed_IsRow : (framed : Bool) (r : Row) → IsRow k true r → IsRow k framed r
  framed_IsRow framed (func_log_row f s o) (e, v, inl h) = cc
  framed_IsRow framed (func_log_row f s o) (e, v, inr h) = (e, v, inr h)
  framed_IsRow framed (goroutine_row g) h = h
  framed_IsRow framed (go_func_row f s) h = h
  framed_IsRow framed (go_module_row m) h = h

  framed_IsGood : (framed : Bool) (s : State) → IsGood true s → IsGood framed s
  framed_IsGood framed s g = record {
    row = framed_IsRow framed s.row g.row;
    comparisons = g.comparisons;
  }

  set_offset_func_log :
      (i : ℕ) (f : FuncLog) (s : Symbols) (o : ℕ)
      → set_offset i (func_log_row f s o) ≡ ok (func_log_row f s i)
  unfolding set_offset
  set_offset_func_log i f s o = refl

  max_offset_func_log :
      (f : FuncLog) (s : Symbols) (o : ℕ) → max_offset (func_log_row f s o) ≡ ok (length f.frames)
  unfolding max_offset
  max_offset_func_log f s o = refl

  module _ (framed : Bool) (body : State → Result lib) (f : FuncLog) (table : Symbols)
      (body_returns : (s : State) → IsGood true s → Returns true s (body s)) where
    at_offset : State → ℕ → State
    at_offset s i = record s { row = func_log_row f table i }

    at_offset-IsGood :
        (s : State) (i o : ℕ)
        → s.row ≡ func_log_row f table o
        → i < length f.frames
        → IsGood framed s
        → IsGood true (at_offset s i)
    unfolding at_offset
    at_offset-IsGood s i o e h g =
        let (same, v, _) = subst (IsRow k framed) e g.row in
        record { row = (same, v, inr h); comparisons = g.comparisons }

    -- Every offset of FRAME is one of a frame.
    frame_loop-Returns :
        (n i : ℕ) (s : State) (o : ℕ)
        → s.row ≡ func_log_row f table o
        → i + n ≤ length f.frames
        → IsGood framed s
        → Returns framed s (frame_loop lib body n i s)
    unfolding frame_loop at_offset
    frame_loop-Returns zero i s o e h g = unmoved framed s _ false g refl
    frame_loop-Returns (suc n) i s o e h g =
        let (b, t, eb, gt, (o', et)) =
          body_returns (at_offset s i) (at_offset-IsGood s i o e (omega arith) g) in
        let set : set_offset i s.row ≡ ok (func_log_row f table i) =
          ap (set_offset i) e ∙ set_offset_func_log i f table o in
        let gt' : IsGood framed t = framed_IsGood framed t gt in
        let moved : Moves s.row t.row = subst (λ r. Moves r t.row) (sym e) (o', et) in
        elim (Bool-cases b) [
          | inl found ↦ (true, t, rw (set, eb, found) refl, gt', moved)
          | inr not_found ↦
              let (b', u, e', g', m') = frame_loop-Returns n (i + 1) t o' et (omega arith) gt' in
              (b', u, rw (set, eb, not_found) e', g', Moves-trans s.row t.row u.row moved m')
        ]

  func_log_row_of :
      (framed : Bool) (r : Row)
      → k ≡ Kind.of_func_logs
      → IsRow k framed r
      → (f : FuncLog) × (s : Symbols) × (o : ℕ) × (r ≡ func_log_row f s o)
  func_log_row_of framed (func_log_row f s o) e h = (f, s, o, refl)
  func_log_row_of framed (goroutine_row g) e h = cc
  func_log_row_of framed (go_func_row f s) e h = cc
  func_log_row_of framed (go_module_row m) e h = cc

  -- Bool of a well-typed expression returns, on a row of its kind, and moves nothing of it but the offset.
  pub eval-Returns :
      (e : SqlAny) (framed : Bool) (s : State)
      → IsCondition lib k typing framed e
      → IsState lib k typing framed s
      → Returns framed s (eval lib e s)
  unfolding eval
  eval-Returns (literal v) framed s h g =
      let (b, e) = value_bool_returns v h in unmoved framed s _ b g (rw e refl)
  eval-Returns (sql_field f none) framed s h g = absurd h
  eval-Returns (sql_field f (some gt)) framed s h g =
      let (v, e, typed) = field-Gives lib.format_uint k framed big_int_type gt s.row h g.row in
      let (b, e') = value_bool_returns v (inr typed) in unmoved framed s _ b g (rw (e, e') refl)
  eval-Returns (and_op a b) framed s (ha, hb) g =
      then-Returns framed s (eval lib a s) (λ l. eval lib b l.1 >>= λ r. ok (l.0 && r.0, r.1))
        (eval-Returns a framed s ha g)
        λ x t gt.
          then-Returns framed t (eval lib b t) (λ r. ok (x && r.0, r.1))
            (eval-Returns b framed t hb gt) λ y u gu. unmoved framed u _ (x && y) gu refl
  eval-Returns (or_op a b) framed s (ha, hb) g =
      then-Returns framed s (eval lib a s) (λ l. eval lib b l.1 >>= λ r. ok (l.0 || r.0, r.1))
        (eval-Returns a framed s ha g)
        λ x t gt.
          then-Returns framed t (eval lib b t) (λ r. ok (x || r.0, r.1))
            (eval-Returns b framed t hb gt) λ y u gu. unmoved framed u _ (x || y) gu refl
  eval-Returns (not_op a) framed s h g =
      then-Returns framed s (eval lib a s) (λ r. ok (not r.0, r.1)) (eval-Returns a framed s h g)
        λ x t gt. unmoved framed t _ (not x) gt refl
  eval-Returns (comp_op i op a b) framed s (t, at_i, h) g =
      let A : Type 0 = IsCondition lib k typing framed a in
      let B : Type 0 = IsCondition lib k typing framed b in
      let (c, s', e, fits, g', same) =
        compare_of_returns framed (s.compare i) i t op A B a b s refl at_i h g in
      let (x, u, e', gu, m) =
        run_comparison-Returns framed (eval lib a) (eval lib b) A B a b op
          (λ ha v gv. eval-Returns a framed v ha gv) (λ hb v gv. eval-Returns b framed v hb gv) t c
          s' fits h g' in
      (x, u, rw e e', gu, subst (λ r. Moves r u.row) same m)
  eval-Returns (range_op a b c) framed s (ha, hb, hc) g =
      let (x, ex) = big_int_returns lib k framed s.row g.row a ha in
      let (y, ey) = big_int_returns lib k framed s.row g.row b hb in
      let (z, ez) = big_int_returns lib k framed s.row g.row c hc in
      unmoved framed s _ (leb_ℤ y x && leb_ℤ x z) g (rw (ex, ey, ez) refl)
  eval-Returns (func_frame false a) framed s h g = cc
  eval-Returns (func_frame true a) framed s (_, kind, h) g =
      let (f, sy, o, e) = func_log_row_of framed s.row kind g.row in
      let bound : max_offset s.row ≡ ok (length f.frames) =
        ap max_offset e ∙ max_offset_func_log f sy o in
      let (b, t, e', gt, m) =
        frame_loop-Returns framed (eval lib a) f sy (λ v gv. eval-Returns a true v h gv)
          (length f.frames) 0 s o e (omega arith) g in
      (b, t, rw bound e', gt, m)
  eval-Returns (func_call has_row a) framed s h g = eval-Returns a framed s h g
  eval-Returns func_now framed s h g = absurd h
  eval-Returns func_add_time framed s h g = absurd h
  eval-Returns func_sub_time framed s h g = absurd h
