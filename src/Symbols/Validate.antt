-- ===== src/Symbols/Validate.antt =====
-- Validate accepts the well-formed tables and no others.
use goapptrace.Base.{
  ℕ, ◌+◌, ◌≡◌, refl, arith, none, some, List, [], ◌∷◌, ok, length, ◌↔◌, Option-cases, inl, inr,
  subst,
}
use goapptrace.Types.{GoModule, GoFunc, GoLine, SymbolsData}
use goapptrace.Symbols.{
  Symbols, Failure, ◌or_else◌, validate_files, validate_mods, validate_funcs, validate_lines,
  validate, load,
}
use goapptrace.Symbols.Validity.{AreFiles, AreModules, AreFuncs, AreLines, IsValidTable}

or_else-eq-none : (a b : Failure) → (a or_else b) ≡ none → (a ≡ none) × (b ≡ none)
or_else-eq-none none b h = (refl, h)
or_else-eq-none (some e) b h = cc

validate_files_sound : (i : ℕ) (fs : List (List ℕ)) → validate_files i fs ≡ none → AreFiles fs
unfolding validate_files
validate_files_sound i [] h = tt
validate_files_sound i ([] ∷ fs) h = cc
validate_files_sound i ((b ∷ bs) ∷ fs) h = (omega arith, validate_files_sound (i + 1) fs h)

validate_files_complete : (i : ℕ) (fs : List (List ℕ)) → AreFiles fs → validate_files i fs ≡ none
unfolding validate_files
validate_files_complete i [] h = refl
validate_files_complete i ([] ∷ fs) h = absurd (omega arith)
validate_files_complete i ((b ∷ bs) ∷ fs) h = validate_files_complete (i + 1) fs h.1

validate_mods_sound :
    (i pc : ℕ) (ms : List GoModule) → validate_mods i pc ms ≡ none → AreModules pc ms
unfolding validate_mods
validate_mods_sound i pc [] h = tt
validate_mods_sound i pc (m ∷ ms) h = ground (arith, validate_mods_sound (i + 1) m.max_pc ms)

validate_mods_complete :
    (i pc : ℕ) (ms : List GoModule) → AreModules pc ms → validate_mods i pc ms ≡ none
unfolding validate_mods
validate_mods_complete i pc [] h = refl
validate_mods_complete i pc (m ∷ ms) h =
    ground (arith, validate_mods_complete (i + 1) m.max_pc ms h.2)

validate_funcs_sound :
    (i pc : ℕ) (fs : List GoFunc) → validate_funcs i pc fs ≡ none → AreFuncs pc fs
unfolding validate_funcs
validate_funcs_sound i pc [] h = tt
validate_funcs_sound i pc (f ∷ fs) h = ground (arith, validate_funcs_sound (i + 1) f.entry fs)

validate_funcs_complete :
    (i pc : ℕ) (fs : List GoFunc) → AreFuncs pc fs → validate_funcs i pc fs ≡ none
unfolding validate_funcs
validate_funcs_complete i pc [] h = refl
validate_funcs_complete i pc (f ∷ fs) h =
    ground (arith, validate_funcs_complete (i + 1) f.entry fs h.2)

validate_lines_sound :
    (files i pc : ℕ) (ls : List GoLine) → validate_lines files i pc ls ≡ none → AreLines files pc ls
unfolding validate_lines
validate_lines_sound files i pc [] h = tt
validate_lines_sound files i pc (l ∷ ls) h =
    ground (arith, validate_lines_sound files (i + 1) l.pc ls)

validate_lines_complete :
    (files i pc : ℕ) (ls : List GoLine) → AreLines files pc ls → validate_lines files i pc ls ≡ none
unfolding validate_lines
validate_lines_complete files i pc [] h = refl
validate_lines_complete files i pc (l ∷ ls) h =
    ground (arith, validate_lines_complete files (i + 1) l.pc ls h.3)

-- Validate returns nil on a symbol table exactly when the table is well formed: no file path and no
-- function name is empty, the modules' address ranges are not empty, start above 0 and follow one
-- another without touching, the entries of the functions and the addresses of the lines are above 0
-- and rise strictly, and each line has a number above 0 and the index of a file in the table.
pub validate_iff : (d : SymbolsData) → (validate d ≡ none) ↔ IsValidTable d
unfolding validate
validate_iff d = (
  λ h.
      let (f, h1) = or_else-eq-none (validate_files 0 d.files) _ h in
      let (m, h2) = or_else-eq-none (validate_mods 0 0 d.mods) _ h1 in
      let (fn, l) = or_else-eq-none (validate_funcs 0 0 d.funcs) _ h2 in
      record {
        files = validate_files_sound 0 d.files f;
        mods = validate_mods_sound 0 0 d.mods m;
        funcs = validate_funcs_sound 0 0 d.funcs fn;
        lines = validate_lines_sound (length d.files) 0 0 d.lines l;
      },
  λ v. rw (
    validate_files_complete 0 d.files v.files,
    validate_mods_complete 0 0 d.mods v.mods,
    validate_funcs_complete 0 0 d.funcs v.funcs,
    validate_lines_complete (length d.files) 0 0 d.lines v.lines,
  ),
)

pub load-ok :
    (s : Symbols) (d : SymbolsData) → IsValidTable d → load s d ≡ ok (record s { table = d })
unfolding load
load-ok s d v = rw ((validate_iff d).1 v, load)

-- A table that Load has taken is well formed.
pub load-IsValidTable :
    (s s' : Symbols) (d : SymbolsData) → load s d ≡ ok s' → IsValidTable s'.table
unfolding load
load-IsValidTable s s' d e = elim (Option-cases (validate d)) [
  | inl nil ↦
      let same : d ≡ s'.table = ground arith in subst IsValidTable same ((validate_iff d).0 nil)
  | inr (x, failed) ↦ absurd (ground arith)
]
