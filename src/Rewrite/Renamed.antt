-- ===== src/Rewrite/Renamed.antt =====
-- What the shell's commands of `re_name_ini_file`, v2.0.0/inifile.c, leave on the disk.
use ini.Base.{
  Bool-cases, Bytes, [], arith, bytes_eq, false, inl, inr, none, refl, some, true, ℕ, ◌++◌, ◌∷◌,
  ◌≡◌, ◌⊎◌,
}
use ini.Memory.{World}
use ini.Rewrite.{re_name_ini_file, after_commands, tmp_name}

-- Every file but the copy with the suffix is as it was.
abbrev pub SameContent : Bytes → World → World → Type 0
SameContent name w w' =
    (n : Bytes) → bytes_eq (tmp_name name) n ≡ false → w'.disk.content n ≡ w.disk.content n

abbrev pub SameMemory : World → World → Type 0
SameMemory w w' =
    (w'.mem ≡ w.mem) × (w'.files ≡ w.files) × (w'.sections ≡ w.sections) × (w'.keyvals ≡ w.keyvals)

pub bytes_eq_refl : (s : Bytes) → bytes_eq s s ≡ true
unfolding bytes_eq
bytes_eq_refl [] = refl
bytes_eq_refl (x ∷ s) = ground (arith, bytes_eq_refl s)

pub bytes_eq_longer : (s t : Bytes) (c : ℕ) → bytes_eq s (s ++ (c ∷ t)) ≡ false
unfolding bytes_eq
bytes_eq_longer [] t c = refl
bytes_eq_longer (x ∷ s) t c = ground (arith, bytes_eq_longer s t c)

bytes_eq_shorter : (s t : Bytes) (c : ℕ) → bytes_eq (s ++ (c ∷ t)) s ≡ false
unfolding bytes_eq
bytes_eq_shorter [] t c = refl
bytes_eq_shorter (x ∷ s) t c = ground (arith, bytes_eq_shorter s t c)

-- The file with a new text: where the shell's commands are successful it is in the file's place and
-- the copy is gone; where `rm` is not the file is as it was; in every case the text is in the file
-- or in the copy; and no other file has changed.
pub record IsRenamed (name new : Bytes) (w w' : World) : Type 0 where
  pub moved :
      w.disk.removable name ≡ true
      → w.disk.movable name ≡ true
      → (w'.disk.content name ≡ some new) × (w'.disk.content (tmp_name name) ≡ none)
  pub left_alone : w.disk.removable name ≡ false → w'.disk.content name ≡ w.disk.content name
  pub not_lost : (w'.disk.content name ≡ some new) ⊎ (w'.disk.content (tmp_name name) ≡ some new)
  pub others :
      (n : Bytes)
      → bytes_eq name n ≡ false
      → bytes_eq (tmp_name name) n ≡ false
      → w'.disk.content n ≡ w.disk.content n

module _ (name : Bytes) (w : World) where
  pub re_name_ini_file-IsRenamed :
      (new : Bytes) → IsRenamed name new w (re_name_ini_file name new w)
  unfolding re_name_ini_file after_commands
  re_name_ini_file-IsRenamed new =
      let tmp_refl = bytes_eq_refl (tmp_name name) in
      let name_refl = bytes_eq_refl name in
      let other = bytes_eq_longer name (b't' ∷ b'm' ∷ b'p' ∷ []) b'.' in
      let other' = bytes_eq_shorter name (b't' ∷ b'm' ∷ b'p' ∷ []) b'.' in
      record {
        moved = λ a b. ground (arith, tmp_refl, name_refl, other, other');
        left_alone = λ a. ground (arith, tmp_refl, name_refl, other, other');
        not_lost = elim (Bool-cases (w.disk.removable name)) [
          | inl a ↦ elim (Bool-cases (w.disk.movable name)) [
            | inl b ↦ inl (ground (arith, tmp_refl, name_refl, other, other'))
            | inr b ↦ inr (ground (arith, tmp_refl, name_refl, other, other'))
          ]
          | inr a ↦ inr (ground (arith, tmp_refl, name_refl, other, other'))
        ];
        others = λ n a b. ground arith;
      }
