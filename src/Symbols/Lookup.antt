-- ===== src/Symbols/Lookup.antt =====
-- GoModule, GoFunc, GoLine, File and Line on a well-formed table.
use goapptrace.Base.{
  ℕ, zero, suc, ◌≤◌, ◌<◌, ◌≡◌, refl, ◌∙◌, ap, arith, Option, none, some, List, [], ◌∷◌, ok, length,
  get_elem?, inl, inr,
}
use goapptrace.Types.{GoModule, GoFunc, GoLine}
use goapptrace.Symbols.{Symbols, find_module, go_module, indexed, go_func, go_line}
use goapptrace.Symbols.Validity.{AreModules, AreFuncs, AreLines, IsValidTable}
use goapptrace.Symbols.Scan.{
  Ascending, scan_elem, indexed-scan, scan_elem_sound, scan_elem-last, FoundIn, AtLeast,
}
use native.Mathlib.Nat.{zero-add}

find_module-covers :
    (ms : List GoModule) (pc : ℕ) (m : GoModule)
    → find_module ms pc ≡ some m
    → (m.min_pc ≤ pc) × (pc ≤ m.max_pc)
unfolding find_module
find_module-covers [] pc m e = cc
find_module-covers (x ∷ xs) pc m e = ground (arith, find_module-covers xs pc m)

-- The range of the module that GoModule returns covers the PC.
pub go_module-covers :
    (s : Symbols) (pc : ℕ) (m : GoModule)
    → go_module s pc ≡ some m
    → (m.min_pc ≤ pc) × (pc ≤ m.max_pc)
unfolding go_module
go_module-covers s pc m e = find_module-covers s.table.mods pc m e

above_all : (ms : List GoModule) (lo pc : ℕ) → AreModules lo ms → pc ≤ lo → find_module ms pc ≡ none
unfolding find_module
above_all [] lo pc a h = refl
above_all (m ∷ ms) lo pc a h = ground (arith, above_all ms m.max_pc pc a.2)

elem_above :
    (ms : List GoModule) (lo i : ℕ) (m : GoModule)
    → AreModules lo ms
    → get_elem? ms i ≡ some m
    → lo < m.min_pc
elem_above [] lo i m a e = cc
elem_above (x ∷ xs) lo zero m a e = ground arith
elem_above (x ∷ xs) lo (suc i) m a e = let r = elem_above xs x.max_pc i m a.2 e in omega arith

find_module_unique :
    (ms : List GoModule) (lo pc i : ℕ) (m : GoModule)
    → AreModules lo ms
    → get_elem? ms i ≡ some m
    → m.min_pc ≤ pc
    → pc ≤ m.max_pc
    → find_module ms pc ≡ some m
unfolding find_module
find_module_unique [] lo pc i m a e p q = cc
find_module_unique (x ∷ xs) lo pc zero m a e p q = ground arith
find_module_unique (x ∷ xs) lo pc (suc i) m a e p q =
    ground
      (arith, elem_above xs x.max_pc i m a.2 e, find_module_unique xs x.max_pc pc i m a.2 e p q)

AreFuncs-Ascending :
    (m : GoModule) (pc lo : ℕ) (fs : List GoFunc)
    → AreFuncs lo fs
    → Ascending (λ f. f.entry) m pc lo fs
AreFuncs-Ascending m pc lo [] a = tt
AreFuncs-Ascending m pc lo (f ∷ fs) a = (a.1, AreFuncs-Ascending m pc f.entry fs a.2)

AreLines-Ascending :
    (m : GoModule) (pc files lo : ℕ) (ls : List GoLine)
    → AreLines files lo ls
    → Ascending (λ l. l.pc) m pc lo ls
AreLines-Ascending m pc files lo [] a = tt
AreLines-Ascending m pc files lo (l ∷ ls) a = (a.1, AreLines-Ascending m pc files l.pc ls a.3)

-- The functions are the loop over elements.
pub go_func-scan :
    (s : Symbols) (pc : ℕ) (m : GoModule)
    → go_module s pc ≡ some m
    → go_func s pc ≡ ok (scan_elem (λ f. f.entry) m pc s.table.funcs none)
unfolding go_func
go_func-scan s pc m e =
    rw (e, go_func)
      (indexed-scan (λ f. f.entry) m pc s.table.funcs s.table.funcs 0 none none (λ j. rw zero-add)
        (unfold indexed in refl))

pub go_line-scan :
    (s : Symbols) (pc : ℕ) (m : GoModule)
    → go_module s pc ≡ some m
    → go_line s pc ≡ ok (scan_elem (λ l. l.pc) m pc s.table.lines none)
unfolding go_line
go_line-scan s pc m e =
    rw (e, go_line)
      (indexed-scan (λ l. l.pc) m pc s.table.lines s.table.lines 0 none none (λ j. rw zero-add)
        (unfold indexed in refl))

AtLeast-some {ℓ} :
    {A : Type ℓ} (key : A → ℕ) (m : GoModule) (pc k : ℕ) (o : Option A)
    → AtLeast key m pc k o
    → (x : A) × (o ≡ some x) × (k ≤ key x)
AtLeast-some key m pc k none h = absurd h
AtLeast-some key m pc k (some x) h = (x, refl, h)

-- A result of the loop that starts with nothing found is in the list.
pub scan_elem-found {ℓ} :
    {A : Type ℓ} (key : A → ℕ) (m : GoModule) (pc : ℕ) (xs : List A) (x : A)
    → scan_elem key m pc xs none ≡ some x
    → FoundIn key m pc xs x
scan_elem-found key m pc xs x e = elim (scan_elem_sound key m pc xs none x e) [
  | inl old ↦ absurd (cc old)
  | inr new ↦ new
]

-- In a well-formed table, where `m` is the i-th module and its range covers the PC, GoModule
-- returns `m`.
pub go_module_unique :
    (s : Symbols) (pc i : ℕ) (m : GoModule)
    → IsValidTable s.table
    → get_elem? s.table.mods i ≡ some m
    → m.min_pc ≤ pc
    → pc ≤ m.max_pc
    → go_module s pc ≡ some m
unfolding go_module
go_module_unique s pc i m v e p q = find_module_unique s.table.mods 0 pc i m v.mods e p q

-- In a well-formed table, where the PC is in the module `m` and the i-th function `g` has its entry
-- at or below the PC and not below the module: GoFunc does not panic and finds a function of the
-- table whose entry is in the module, at or below the PC, and not below the entry of `g`. So it
-- finds the nearest function below the PC.
pub go_func-nearest :
    (s : Symbols) (pc i : ℕ) (m : GoModule) (g : GoFunc)
    → IsValidTable s.table
    → go_module s pc ≡ some m
    → get_elem? s.table.funcs i ≡ some g
    → m.min_pc ≤ g.entry
    → g.entry ≤ pc
    → (f : GoFunc) × (go_func s pc ≡ ok (some f))
      × (g.entry ≤ f.entry)
      × FoundIn (λ x. x.entry) m pc s.table.funcs f
go_func-nearest s pc i m g v em eg p q =
    let key = λ (x : GoFunc). x.entry in
    let (f, ef, h) = AtLeast-some key m pc g.entry (scan_elem key m pc s.table.funcs none) (
      scan_elem-last key m pc s.table.funcs none 0 i g (go_module-covers s pc m em).1
        (AreFuncs-Ascending m pc 0 s.table.funcs v.funcs) eg (p, q)) in
    (f, go_func-scan s pc m em ∙ ap ok ef, h, scan_elem-found key m pc s.table.funcs f ef)

-- In a well-formed table, where the PC is in the module `m` and the i-th line `g` has its address at
-- or below the PC and not below the module: GoLine does not panic and finds a line of the table whose
-- address is in the module, at or below the PC, and not below that of `g`. So it finds the nearest
-- line below the PC.
pub go_line-nearest :
    (s : Symbols) (pc i : ℕ) (m : GoModule) (g : GoLine)
    → IsValidTable s.table
    → go_module s pc ≡ some m
    → get_elem? s.table.lines i ≡ some g
    → m.min_pc ≤ g.pc
    → g.pc ≤ pc
    → (l : GoLine) × (go_line s pc ≡ ok (some l))
      × (g.pc ≤ l.pc)
      × FoundIn (λ x. x.pc) m pc s.table.lines l
go_line-nearest s pc i m g v em eg p q =
    let key = λ (x : GoLine). x.pc in
    let (l, el, h) = AtLeast-some key m pc g.pc (scan_elem key m pc s.table.lines none) (
      scan_elem-last key m pc s.table.lines none 0 i g (go_module-covers s pc m em).1
        (AreLines-Ascending m pc (length s.table.files) 0 s.table.lines v.lines) eg (p, q)) in
    (l, go_line-scan s pc m em ∙ ap ok el, h, scan_elem-found key m pc s.table.lines l el)
