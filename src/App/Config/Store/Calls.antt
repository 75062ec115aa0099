-- ===== src/App/Config/Store/Calls.antt =====
-- What the documentation of Windows says of the calls of src/app/Config.cpp, and the paths that it
-- gives them.
use ipad_second_display.Common.{
  ℕ, suc, ◌≡◌, ◌≢◌, refl, ap, ◌∙◌, sym, ◌⊎◌, arith, true, false, ◌++◌, none, some, length,
  length-append, drop, drop_length_append, Bytes, codes,
}
use ipad_second_display.App.Config.Store.{Disk, temporary_of, backup_of}

-- What the calls do to what can be read.
pub record IsDisk {S : Type 0} (disk : Disk S) : Type 0 where
  -- A call on one file leaves the others alone.
  pub create_keeps :
      (p q : Bytes) (s : S) → p ≢ q → disk.contents (disk.create_file p s).0 q ≡ disk.contents s q
  pub write_keeps :
      (p q json : Bytes) (s : S)
      → p ≢ q
      → disk.contents (disk.write_file p json s).0 q ≡ disk.contents s q
  pub flush_keeps :
      (p q : Bytes) (s : S) → p ≢ q → disk.contents (disk.flush_file p s).0 q ≡ disk.contents s q
  pub close_keeps :
      (p q : Bytes) (s : S) → p ≢ q → disk.contents (disk.close_file p s) q ≡ disk.contents s q
  pub delete_keeps :
      (p q : Bytes) (s : S) → p ≢ q → disk.contents (disk.delete_file p s) q ≡ disk.contents s q
  -- What is written whole into a new file, flushed and closed is read back.
  pub written :
      (p json : Bytes) (s : S)
      → (disk.create_file p s).1 ≡ true
      → (disk.write_file p json (disk.create_file p s).0).1 ≡ true
      → (disk.write_file p json (disk.create_file p s).0).2 ≡ length json
      → (disk.flush_file p (disk.write_file p json (disk.create_file p s).0).0).1 ≡ true
      → disk.contents
          (disk.close_file p
            (disk.flush_file p (disk.write_file p json (disk.create_file p s).0).0).0)
          p
        ≡ some json
  -- A successful replacement or move puts one file's contents in the other's place.
  pub replaced :
      (t r b : Bytes) (s : S)
      → (disk.replace_file t r b s).1 ≡ true
      → disk.contents (disk.replace_file t r b s).0 t ≡ disk.contents s r
  pub moved :
      (r t : Bytes) (s : S)
      → (disk.move_file r t s).1 ≡ true
      → disk.contents (disk.move_file r t s).0 t ≡ disk.contents s r
  -- A failed replacement leaves the target as it was, or under the backup's name alone
  -- (`ERROR_UNABLE_TO_MOVE_REPLACEMENT_2`).
  pub not_replaced :
      (t r b : Bytes) (s : S)
      → (disk.replace_file t r b s).1 ≡ false
      → (disk.contents (disk.replace_file t r b s).0 t ≡ disk.contents s t)
        ⊎ ((disk.contents (disk.replace_file t r b s).0 t ≡ none)
            × (disk.contents (disk.replace_file t r b s).0 b ≡ disk.contents s t))
  pub not_moved :
      (r t : Bytes) (s : S)
      → (disk.move_file r t s).1 ≡ false
      → disk.contents (disk.move_file r t s).0 t ≡ disk.contents s t

-- The three paths differ.
pub other_path :
    (path extension : Bytes) (n : ℕ) → length extension ≡ suc n → path ++ extension ≢ path
other_path path extension n h e = absurd (omega (arith, length-append path extension, ap length e))

pub temporary-target : (path : Bytes) → temporary_of path ≢ path
temporary-target path = other_path path (codes ".tmp") 3 refl

pub backup-target : (path : Bytes) → backup_of path ≢ path
backup-target path = other_path path (codes ".bak") 3 refl

pub temporary-backup : (path : Bytes) → temporary_of path ≢ backup_of path
temporary-backup path e =
    let tails : codes ".tmp" ≡ codes ".bak" =
      sym (drop_length_append path (codes ".tmp"))
      ∙ ap (drop (length path)) e
      ∙ drop_length_append path (codes ".bak") in
    absurd (ground (arith, tails))
