-- ===== src/Symbols/Names.antt =====
-- The names that a table gives to a PC, and the two halves of a function's name.

use goapptrace.Base.{
  ℕ, zero, suc, ◌≤◌, ◌<◌, ◌≡◌, refl, arith, Option, none, some, List, [], ◌∷◌, ◌++◌, ok, length,
  get_elem?, inl, inr, Option-cases, le→leb, ◌⊎◌,
}
use goapptrace.Base.Int.{ℤ, pos, negsuc}
use goapptrace.Types.{GoModule, GoFunc, GoLine}
use goapptrace.Symbols.{
  Symbols, go_module, go_func, go_line, func_name, file_of, file, line, name_of, file_line_of,
  file_line, unknown,
}
use goapptrace.Symbols.Validity.{AreLines, IsValidTable}
use goapptrace.Symbols.Scan.{scan_elem}
use goapptrace.Symbols.Lookup.{go_func-nearest, go_func-scan, go_line-scan, scan_elem-found}

pub get_elem?-some {ℓ} :
    {A : Type ℓ} (xs : List A) (i : ℕ) → i < length xs → (x : A) × (get_elem? xs i ≡ some x)
get_elem?-some [] i h = absurd (omega arith)
get_elem?-some (x ∷ xs) zero h = (x, refl)
get_elem?-some (x ∷ xs) (suc i) h = get_elem?-some xs i (omega arith)

file_id-lt :
    (files lo : ℕ) (ls : List GoLine) (i : ℕ) (l : GoLine)
    → AreLines files lo ls
    → get_elem? ls i ≡ some l
    → l.file_id < files
file_id-lt files lo [] i l a e = cc
file_id-lt files lo (x ∷ xs) zero l a e = ground arith
file_id-lt files lo (x ∷ xs) (suc i) l a e = file_id-lt files x.pc xs i l a.3 e

-- GoLine returns, with none or with a line of the table.
go_line_cases :
    (s : Symbols) (pc : ℕ)
    → (o : Option GoLine) × (go_line s pc ≡ ok o)
      × ((l : GoLine) → o ≡ some l → (j : ℕ) × (get_elem? s.table.lines j ≡ some l))
go_line_cases s pc = elim (Option-cases (go_module s pc)) [
  | inl outside ↦ (none, unfold go_line in rw (outside, go_line), λ l e. cc)
  | inr (m, inside) ↦ (
    scan_elem (λ l. l.pc) m pc s.table.lines none,
    go_line-scan s pc m inside,
    λ l e. let (j, at_j, c) = scan_elem-found (λ l. l.pc) m pc s.table.lines l e in (j, at_j),
  )
]

file_of-known :
    (s : Symbols) (o : Option GoLine)
    → IsValidTable s.table
    → ((l : GoLine) → o ≡ some l → (j : ℕ) × (get_elem? s.table.lines j ≡ some l))
    → (path : List ℕ) × (file_of s o ≡ ok path)
      × ((path ≡ unknown) ⊎ ((k : ℕ) × (get_elem? s.table.files k ≡ some path)))
unfolding file_of
file_of-known s none v from = (unknown, refl, inl refl)
file_of-known s (some l) v from =
    let (j, at_j) = from l refl in
    let below : l.file_id < length s.table.files =
      file_id-lt (length s.table.files) 0 s.table.lines j l v.lines at_j in
    let (path, at_id) = get_elem?-some s.table.files l.file_id below in
    (
      path,
      rw (le→leb l.file_id (length s.table.files) (omega arith), at_id),
      inr (l.file_id, at_id),
    )

-- In a well-formed table File never panics: it returns "?" or the path of one of the files.
pub file-known :
    (s : Symbols) (pc : ℕ)
    → IsValidTable s.table
    → (path : List ℕ) × (file s pc ≡ ok path)
      × ((path ≡ unknown) ⊎ ((k : ℕ) × (get_elem? s.table.files k ≡ some path)))
unfolding file
file-known s pc v = let (o, e, from) = go_line_cases s pc in rw e (file_of-known s o v from)

-- GoFunc, Line and FileLine return too.
pub go_func_cases : (s : Symbols) (pc : ℕ) → (o : Option GoFunc) × (go_func s pc ≡ ok o)
go_func_cases s pc = elim (Option-cases (go_module s pc)) [
  | inl outside ↦ (none, unfold go_func in rw (outside, go_func))
  | inr (m, inside) ↦ (scan_elem (λ f. f.entry) m pc s.table.funcs none, go_func-scan s pc m inside)
]

pub line_cases : (s : Symbols) (pc : ℕ) → (n : ℤ) × (line s pc ≡ ok n)
unfolding line
line_cases s pc =
    let (o, e, from) = go_line_cases s pc in
    rw e ((elim o [ some ln ↦ pos ln.line | none ↦ negsuc 0 ]), refl)

name_of-known :
    (s : Symbols) (l : GoLine) (j : ℕ)
    → IsValidTable s.table
    → get_elem? s.table.lines j ≡ some l
    → (path : List ℕ) × (name_of s l ≡ ok path)
unfolding name_of
name_of-known s l j v at_j =
    let below : l.file_id < length s.table.files =
      file_id-lt (length s.table.files) 0 s.table.lines j l v.lines at_j in
    let (path, at_id) = get_elem?-some s.table.files l.file_id below in
    (path, rw (le→leb l.file_id (length s.table.files) (omega arith), at_id))

file_line_of-known :
    (format_uint : ℕ → List ℕ) (s : Symbols) (o : Option GoLine)
    → IsValidTable s.table
    → ((l : GoLine) → o ≡ some l → (j : ℕ) × (get_elem? s.table.lines j ≡ some l))
    → (text : List ℕ) × (file_line_of format_uint s o ≡ ok text)
unfolding file_line_of
file_line_of-known format_uint s none v from = (_, refl)
file_line_of-known format_uint s (some l) v from =
    let (j, at_j) = from l refl in
    let (path, named) = name_of-known s l j v at_j in
    (path ++ (b':' ∷ format_uint l.line), rw named refl)

pub file_line-known :
    (format_uint : ℕ → List ℕ) (s : Symbols) (pc : ℕ)
    → IsValidTable s.table
    → (text : List ℕ) × (file_line format_uint s pc ≡ ok text)
unfolding file_line
file_line-known format_uint s pc v =
    let (o, e, from) = go_line_cases s pc in rw e (file_line_of-known format_uint s o v from)

-- A PC that lies in a known function has no name: where GoFunc finds a function, FuncName returns
-- "?". (In a well-formed table, `m` is the module of the PC and the i-th function has its entry in
-- it, at or below the PC.)
pub func_name-unknown :
    (s : Symbols) (pc i : ℕ) (m : GoModule) (g : GoFunc)
    → IsValidTable s.table
    → go_module s pc ≡ some m
    → get_elem? s.table.funcs i ≡ some g
    → m.min_pc ≤ g.entry
    → g.entry ≤ pc
    → func_name s pc ≡ ok unknown
unfolding func_name
func_name-unknown s pc i m g v em eg p q =
    let r = go_func-nearest s pc i m g v em eg p q in rw (r.1)

-- A PC below every function of its module, or outside every module, has the empty name.
pub func_name_empty : (s : Symbols) (pc : ℕ) → go_func s pc ≡ ok none → func_name s pc ≡ ok []
unfolding func_name
func_name_empty s pc e = rw e
