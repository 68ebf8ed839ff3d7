-- ===== src/Fuse/Codes.antt =====
-- How the names of attributes are given to a caller.
use darling_dmg.Common.{
  ℕ, ◌≤◌, ◌<◌, ◌≡◌, refl, sym, ap, ◌∙◌, lt→ltb, le→ltb, ◌==◌, if◌then◌else◌, none, some, List, [],
  ◌∷◌, ◌++◌, Bytes, length, ok,
}
use darling_dmg.Apm.Entries.{IsText, more_text}
use darling_dmg.Fuse.{returned, minus, erange, name_list, give_all, hfs_listxattr}

-- An independent reading of the buffer: the strings that end with a zero; `name` is what was read of the next one.
pub names_of : Bytes → Bytes → List Bytes
names_of name [] = []
names_of name (c ∷ bytes) =
    if c == 0 then name ∷ names_of [] bytes else names_of (name ++ c ∷ []) bytes

pub data AreNames : List Bytes → Type 0 where
  no_names : AreNames []
  more_names : (s : Bytes) (names : List Bytes) → IsText s → AreNames names → AreNames (s ∷ names)

append_assoc : (a b c : Bytes) → a ++ b ++ c ≡ a ++ (b ++ c)
append_assoc [] b c = refl
append_assoc (x ∷ a) b c = ap (◌∷◌ x) (append_assoc a b c)

append_nil : (a : Bytes) → a ++ [] ≡ a
append_nil [] = refl
append_nil (x ∷ a) = ap (◌∷◌ x) (append_nil a)

names_of-name :
    (pre s rest : Bytes)
    → IsText s
    → names_of pre (s ++ 0 ∷ [] ++ rest) ≡ (pre ++ s) ∷ names_of [] rest
unfolding names_of
names_of-name pre [] rest t = ap (λ n. n ∷ names_of [] rest) (sym (append_nil pre))
names_of-name pre (c ∷ s) rest (more_text _ _ h t) = rw h (
    names_of-name (pre ++ c ∷ []) s rest t
    ∙ ap (λ n. n ∷ names_of [] rest) (append_assoc pre (c ∷ []) s))

names_of-name_list : (names : List Bytes) → AreNames names → names_of [] (name_list names) ≡ names
unfolding names_of name_list
names_of-name_list [] a = refl
names_of-name_list (s ∷ names) (more_names _ _ t a) =
    names_of-name [] s (name_list names) t ∙ ap (λ l. s ∷ l) (names_of-name_list names a)

-- The answers to the calls with all sizes of the buffer.
pub record Answers (names : List Bytes) : Type 0 where
  pub size : ℕ
  pub list : Bytes
  pub same_size : size ≡ length list
  pub probe : hfs_listxattr (ok names) none ≡ (returned size, [])
  pub enough :
      (room : ℕ) → size ≤ room → hfs_listxattr (ok names) (some room) ≡ (returned size, list)
  pub too_small :
      (room : ℕ) → room < size → hfs_listxattr (ok names) (some room) ≡ (minus erange, [])
  pub read_back : names_of [] list ≡ names

-- Without a buffer the size of the list of names is returned; with a buffer of this size or more the list is, with one that is
-- smaller an error. The list holds the names, which are read back from it if none has a zero in it.
pub hfs_listxattr-Answers : (names : List Bytes) → AreNames names → Answers names
unfolding hfs_listxattr give_all
hfs_listxattr-Answers names a = record {
  size = length (name_list names);
  list = name_list names;
  same_size = refl;
  probe = refl;
  enough = λ room h. rw (le→ltb room (length (name_list names)) h) refl;
  too_small = λ room h. rw (lt→ltb room (length (name_list names)) h) refl;
  read_back = names_of-name_list names a;
}
