-- ===== src/Storage/Log/Updates.antt =====
-- Updates of the metadata by several writers at once: each reads the version and the metadata, and later
-- sends what it makes of them with that version.
use goapptrace.Base.{
  some-injective, ℕ, ◌+◌, ◌^◌, ◌≤◌, ◌<◌, ◌≡◌, refl, sym, ap, ◌∙◌, arith, true, List, [], ◌++◌, ◌∷◌,
  Option, none, some, Option-cases, Bool-cases, inl, inr, length, length-append, if◌then◌else◌,
  ◌==◌,
}
use goapptrace.Base.Int.{ℤ, pos, incr_int64, incr_int64-pos, ◌==ℤ◌, ==ℤ_iff}
use goapptrace.Base.Maps.{nat_eq, lookup, insert, lookup-insert, lookup-insert_self}
use goapptrace.Types.LogId.{Hex}
use goapptrace.Types.Metadata.{LogMetadata}
use goapptrace.Storage.Log.{Log, with_metadata, update_metadata}

pos-injective : {a b : ℕ} → pos a ≡ pos b → a ≡ b
pos-injective h = cc

abbrev pub Edit : Type 0
Edit = LogMetadata → LogMetadata

pub data Step : Type 0 where
  read_log : (writer : ℕ) → Step
  write_log : (writer : ℕ) → Edit → Step

-- The log, and what each writer has read last.
pub record Writers : Type 0 where
  pub log : Log
  pub copies : List (ℕ × (ℤ × LogMetadata))

module _ (lib : Hex) where
  -- An update, and the edit if it is accepted.
  abbrev pub write_copy : Edit → Option (ℤ × LogMetadata) → Writers → Writers × List Edit
  write_copy f none s = (s, [])
  write_copy f (some (v, m)) s =
      let r = update_metadata lib v (f m) s.log in
      (record s { log = r.0 }, if r.1 then f ∷ [] else [])

  unfoldable pub step : Step → Writers → Writers × List Edit
  unfolding update_metadata
  step (read_log i) s =
      (record s { copies = insert i (s.log.version, s.log.metadata) s.copies }, [])
  step (write_log i f) s = write_copy f (lookup i s.copies) s

  -- The steps one after the other, with the edits that are accepted.
  unfoldable pub run : List Step → Writers → Writers × List Edit
  unfolding step
  run [] s = (s, [])
  run (t ∷ ts) s = let (s1, edits) = step t s in let (s2, later) = run ts s1 in (s2, edits ++ later)

-- The edits one after the other, each on the result of the one before.
abbrev pub edited : List Edit → LogMetadata → LogMetadata
edited [] m = m
edited (f ∷ fs) m = edited fs (f m)

edited-append :
    (fs gs : List Edit) (m : LogMetadata) → edited (fs ++ gs) m ≡ edited gs (edited fs m)
edited-append [] gs m = refl
edited-append (f ∷ fs) gs m = edited-append fs gs (f m)

-- The log has the version `n`, and a copy of that version is the metadata of the log.
abbrev pub IsCurrent : ℕ → Writers → Type 0
IsCurrent n s =
    (s.log.version ≡ pos n)
    × ((i : ℕ) (v : ℤ) (m : LogMetadata)
        → lookup i s.copies ≡ some (v, m)
        → (k : ℕ) × (v ≡ pos k) × (k ≤ n) × (k ≡ n → m ≡ s.log.metadata))

module _ (lib : Hex) where
  -- What a step that accepts the edits does to the metadata.
  abbrev Serial : ℕ → Writers → Writers × List Edit → Type 0
  Serial n s r =
      IsCurrent (n + length r.1) r.0
      × (r.0.log.metadata ≡ edited r.1 s.log.metadata)
      × (length r.1 ≤ 1)

  unchanged-Serial : (n : ℕ) (s : Writers) → IsCurrent n s → Serial n s (s, [])
  unchanged-Serial n s current =
      let same : n + 0 ≡ n = omega arith in rw same (current, refl, omega arith)

  read-Serial : (n i : ℕ) (s : Writers) → IsCurrent n s → Serial n s (step lib (read_log i) s)
  unfolding step
  read-Serial n i s (version, copies) =
      let same : n + 0 ≡ n = omega arith in
      rw same (
        (
          version,
          λ j v m found. elim (Bool-cases (i == j)) [
            | inl e ↦
                let own : (s.log.version, s.log.metadata) ≡ (v, m) =
                  some-injective (rw (lookup-insert i j _ s.copies, e) at found) in
                (n, sym (ap (λ x. x.0) own) ∙ version, omega arith, λ k. sym (ap (λ x. x.1) own))
            | inr e ↦ copies j v m (rw (lookup-insert i j _ s.copies, e) at found)
          ],
        ),
        refl,
        omega arith,
      )

  -- The update of a copy of the version that the log has.
  fresh-Serial :
      (n i : ℕ) (f : Edit) (v : ℤ) (m : LogMetadata) (s : Writers)
      → IsCurrent n s
      → n + 1 < 2 ^ 63
      → lookup i s.copies ≡ some (v, m)
      → s.log.version ≡ v
      → Serial n s (record s { log = with_metadata lib (f m) s.log }, f ∷ [])
  fresh-Serial n i f v m s (version, copies) room found fits =
      let (k, copied, below, same) = copies i v m found in
      let now : k ≡ n = pos-injective (sym copied ∙ sym fits ∙ version) in
      (
        (
          ap incr_int64 version ∙ incr_int64-pos n room,
          λ j v' m' found'.
              let (k', copied', below', same') = copies j v' m' found' in
              (k', copied', omega arith, λ h. absurd (omega arith)),
        ),
        ap f (same now),
        omega arith,
      )

  write-Serial :
      (n i : ℕ) (f : Edit) (s : Writers)
      → IsCurrent n s
      → n + 1 < 2 ^ 63
      → Serial n s (step lib (write_log i f) s)
  unfolding step update_metadata
  write-Serial n i f s current room = elim (Option-cases (lookup i s.copies)) [
    | inl none_read ↦ rw none_read (unchanged-Serial n s current)
    | inr ((v, m), found) ↦ elim (Bool-cases (s.log.version ==ℤ v)) [
      | inl fits ↦
          rw (found, fits)
            (fresh-Serial n i f v m s current room found ((==ℤ_iff s.log.version v).0 fits))
      | inr conflict ↦ rw (found, conflict) (unchanged-Serial n s current)
    ]
  ]

  step-Serial :
      (n : ℕ) (t : Step) (s : Writers) → IsCurrent n s → n + 1 < 2 ^ 63 → Serial n s (step lib t s)
  step-Serial n (read_log i) s current room = read-Serial n i s current
  step-Serial n (write_log i f) s current room = write-Serial n i f s current room

  run-serial :
      (ts : List Step) (n : ℕ) (s : Writers)
      → IsCurrent n s
      → n + length ts < 2 ^ 63
      → ((run lib ts s).0.log.metadata ≡ edited (run lib ts s).1 s.log.metadata)
        × ((run lib ts s).0.log.version ≡ pos (n + length (run lib ts s).1))
  unfolding run
  run-serial [] n s (version, copies) room = (refl, version ∙ ap pos (omega arith))
  run-serial (t ∷ ts) n s current room =
      let (now, metadata, one) = step-Serial n t s current (omega arith) in
      let edits = (step lib t s).1 in
      let (rest, version) = run-serial ts (n + length edits) (step lib t s).0 now (omega arith) in
      let later = (run lib ts (step lib t s).0).1 in
      (
        rest ∙ ap (edited later) metadata ∙ sym (edited-append edits later s.log.metadata),
        version ∙ ap pos (omega (arith, length-append edits later)),
      )

  retried :
      (i : ℕ) (f : Edit) (s : Writers) → (run lib (read_log i ∷ write_log i f ∷ []) s).1 ≡ f ∷ []
  unfolding run step update_metadata
  retried i f s =
      let fits : (s.log.version ==ℤ s.log.version) ≡ true =
        (==ℤ_iff s.log.version s.log.version).1 refl in
      rw (lookup-insert_self i (s.log.version, s.log.metadata) s.copies, fits) refl

  -- Where no writer has a copy that the log has not had, and the version has room for the steps, in any
  -- order of the reads and updates of any writers: the metadata is that before with the accepted
  -- edits made one after the other, each on the result of the one before; the version counts them;
  -- and an update right after its read is accepted then.
  pub run-edited :
      (ts : List Step) (n : ℕ) (s : Writers)
      → IsCurrent n s
      → n + length ts < 2 ^ 63
      → ((run lib ts s).0.log.metadata ≡ edited (run lib ts s).1 s.log.metadata)
        × ((run lib ts s).0.log.version ≡ pos (n + length (run lib ts s).1))
        × ((i : ℕ) (f : Edit)
            → (run lib (read_log i ∷ write_log i f ∷ []) (run lib ts s).0).1 ≡ f ∷ [])
  run-edited ts n s current room =
      let (metadata, version) = run-serial ts n s current room in
      (metadata, version, λ i f. retried i f (run lib ts s).0)
