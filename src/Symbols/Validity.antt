-- ===== src/Symbols/Validity.antt =====
-- Which symbol tables are well formed, said without the loops of Validate.
use goapptrace.Base.{ℕ, ◌<◌, List, [], ◌∷◌, length}
use goapptrace.Types.{GoModule, GoFunc, GoLine, SymbolsData}

-- No path is empty.
abbrev pub AreFiles : List (List ℕ) → Type 0
AreFiles [] = Unit {0}
AreFiles (f ∷ fs) = (0 < length f) × AreFiles fs

-- The address ranges are not empty, and follow one another above `pc`.
abbrev pub AreModules : ℕ → List GoModule → Type 0
AreModules pc [] = Unit {0}
AreModules pc (m ∷ ms) = (pc < m.min_pc) × (m.min_pc < m.max_pc) × AreModules m.max_pc ms

-- The functions have names, and their entries rise above `pc`.
abbrev pub AreFuncs : ℕ → List GoFunc → Type 0
AreFuncs pc [] = Unit {0}
AreFuncs pc (f ∷ fs) = (0 < length f.name) × (pc < f.entry) × AreFuncs f.entry fs

-- The lines have numbers and one of `files` files, and their addresses rise above `pc`.
abbrev pub AreLines : ℕ → ℕ → List GoLine → Type 0
AreLines files pc [] = Unit {0}
AreLines files pc (l ∷ ls) =
    (0 < l.line) × (pc < l.pc) × (l.file_id < files) × AreLines files l.pc ls

pub record IsValidTable (d : SymbolsData) : Type 0 where
  pub files : AreFiles d.files
  pub mods : AreModules 0 d.mods
  pub funcs : AreFuncs 0 d.funcs
  pub lines : AreLines (length d.files) 0 d.lines
