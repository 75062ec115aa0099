-- ===== src/App/Config/Store/Recovery.antt =====
-- `Config::SaveToFile` and `LoadFromFile` of src/app/Config.cpp, one after the other, by what the
-- documentation of Windows says of the calls.
use ipad_second_display.Common.{
  ℕ, ◌≡◌, refl, ◌∙◌, sym, subst, ◌⊎◌, inl, inr, arith, Bool, true, false, ◌&&◌, Option, none, some,
  ◌==◌, ==_iff, length, Bytes, if◌then◌else◌,
}
use ipad_second_display.App.Config.{Config}
use ipad_second_display.App.Config.Json.{ok}
use ipad_second_display.App.Config.Parse.{try_parse_config}
use ipad_second_display.App.Config.Serialize.{serialize}
use ipad_second_display.App.Config.Store.{
  Disk, temporary_of, backup_of, load_from_file, replace_target, clean_up, close_temporary,
  flush_written, finish_save, write_created, save_to_file,
}
use ipad_second_display.App.Config.Valid.{IsValid, IsKept}
use ipad_second_display.App.Config.RoundTrip.{try_parse_config-serialize}
use ipad_second_display.App.Config.Store.Calls.{
  IsDisk, temporary-target, backup-target, temporary-backup,
}

both : (a b : Bool) → (a && b) ≡ true → (a ≡ true) × (b ≡ true)
both a b h = ground arith

module _ {S : Type 0} (disk : Disk S) (laws : IsDisk disk) where
  -- The old settings are in the target, or in the backup with the target gone.
  abbrev Recoverable : Option Bytes → S → Bytes → Type 0
  Recoverable old s path =
      (disk.contents s path ≡ old)
      ⊎ ((disk.contents s path ≡ none) × (disk.contents s (backup_of path) ≡ old))

  delete-Recoverable :
      (old : Option Bytes) (s : S) (path : Bytes)
      → Recoverable old s path
      → Recoverable old (disk.delete_file (temporary_of path) s) path
  delete-Recoverable old s path (inl h) =
      inl (laws.delete_keeps (temporary_of path) path s (temporary-target path) ∙ h)
  delete-Recoverable old s path (inr h) = inr (
    laws.delete_keeps (temporary_of path) path s (temporary-target path) ∙ h.0,
    laws.delete_keeps (temporary_of path) (backup_of path) s (temporary-backup path) ∙ h.1,
  )

  clean_up-Recoverable :
      (old : Option Bytes) (path : Bytes) (r : S × Bool)
      → (r.1 ≡ false → Recoverable old r.0 path)
      → (clean_up disk path r).1 ≡ false
      → Recoverable old (clean_up disk path r).0 path
  clean_up-Recoverable old path (s, true) h e = absurd (ground (arith, e))
  clean_up-Recoverable old path (s, false) h e = delete-Recoverable old s path (h refl)

  -- Either way of putting the temporary file in the target's place.
  abbrev attempt : Bool → S → Bytes → S × Bool
  attempt b s path =
      if b
      then disk.replace_file path (temporary_of path) (backup_of path)
          (disk.delete_file (backup_of path) s)
      else disk.move_file (temporary_of path) path s

  attempt-Recoverable :
      (b : Bool) (old : Option Bytes) (s : S) (path : Bytes)
      → disk.contents s path ≡ old
      → (attempt b s path).1 ≡ false
      → Recoverable old (attempt b s path).0 path
  attempt-Recoverable false old s path h e = inl (laws.not_moved (temporary_of path) path s e ∙ h)
  attempt-Recoverable true old s path h e =
      let t = disk.delete_file (backup_of path) s in
      let kept = laws.delete_keeps (backup_of path) path s (backup-target path) in
      elim (laws.not_replaced path (temporary_of path) (backup_of path) t e) [
        | inl same ↦ inl (same ∙ kept ∙ h)
        | inr gone ↦ inr (gone.0, gone.1 ∙ kept ∙ h)
      ]

  replace_target-Recoverable :
      (old : Option Bytes) (s : S) (path : Bytes)
      → disk.contents s path ≡ old
      → (replace_target disk s path).1 ≡ false
      → Recoverable old (replace_target disk s path).0 path
  unfolding replace_target
  replace_target-Recoverable old s path h e =
      clean_up-Recoverable old path (attempt (disk.exists s path) s path)
        (attempt-Recoverable (disk.exists s path) old s path h) e

  finish_save-Recoverable :
      (old : Option Bytes) (path : Bytes) (r : S × Bool)
      → disk.contents r.0 path ≡ old
      → (finish_save disk path r).1 ≡ false
      → Recoverable old (finish_save disk path r).0 path
  finish_save-Recoverable old path (s, true) h e = replace_target-Recoverable old s path h e
  finish_save-Recoverable old path (s, false) h e = delete-Recoverable old s path (inl h)

  if-keeps :
      (b : Bool) (s : S) (path : Bytes)
      → disk.contents (if b then disk.flush_file (temporary_of path) s else (s, false)).0 path
        ≡ disk.contents s path
  if-keeps true s path = laws.flush_keeps (temporary_of path) path s (temporary-target path)
  if-keeps false s path = refl

  write_created-Recoverable :
      (old : Option Bytes) (json path : Bytes) (r : S × Bool)
      → disk.contents r.0 path ≡ old
      → (write_created disk path json r).1 ≡ false
      → Recoverable old (write_created disk path json r).0 path
  write_created-Recoverable old json path (s, false) h e = inl h
  write_created-Recoverable old json path (s, true) h e =
      let w = disk.write_file (temporary_of path) json s in
      let f = flush_written disk path json w in
      finish_save-Recoverable old path (close_temporary disk path f)
        (laws.close_keeps (temporary_of path) path f.0 (temporary-target path)
          ∙ if-keeps (w.1 && (w.2 == length json)) w.0 path
          ∙ laws.write_keeps (temporary_of path) path json s (temporary-target path)
          ∙ h)
        e

  save_to_file-Recoverable :
      (old : Option Bytes) (c : Config) (s : S) (path : Bytes)
      → disk.contents s path ≡ old
      → (save_to_file disk c s path).1 ≡ false
      → Recoverable old (save_to_file disk c s path).0 path
  unfolding save_to_file
  save_to_file-Recoverable old c s path h e =
      write_created-Recoverable old (serialize c) path (disk.create_file (temporary_of path) s)
        (laws.create_keeps (temporary_of path) path s (temporary-target path) ∙ h) e

  load-Recoverable :
      (json : Bytes) (old : Config) (s : S) (path : Bytes)
      → try_parse_config json ≡ ok old
      → Recoverable (some json) s path
      → load_from_file disk s path ≡ old
  unfolding load_from_file
  load-Recoverable json old s path h (inl here) = rw (here, h) refl
  load-Recoverable json old s path h (inr backup) = rw (backup.0, backup.1, h) refl

  -- On a disk whose calls do what Windows documents, a save that fails, at whatever call, loses nothing: if the file held settings that parse, they load from the target or, with the target gone, from its backup.
  pub failed_save-load :
      (c old : Config) (json : Bytes) (s : S) (path : Bytes)
      → disk.contents s path ≡ some json
      → try_parse_config json ≡ ok old
      → (save_to_file disk c s path).1 ≡ false
      → load_from_file disk (save_to_file disk c s path).0 path ≡ old
  failed_save-load c old json s path h k e =
      load-Recoverable json old (save_to_file disk c s path).0 path k
        (save_to_file-Recoverable (some json) c s path h e)

  attempt-saved :
      (b : Bool) (s : S) (path json : Bytes)
      → disk.contents s (temporary_of path) ≡ some json
      → (attempt b s path).1 ≡ true
      → disk.contents (attempt b s path).0 path ≡ some json
  attempt-saved false s path json h e = laws.moved (temporary_of path) path s e ∙ h
  attempt-saved true s path json h e =
      laws.replaced path (temporary_of path) (backup_of path) (disk.delete_file (backup_of path) s)
        e
      ∙ laws.delete_keeps (backup_of path) (temporary_of path) s
          (λ same. temporary-backup path (sym same))
      ∙ h

  clean_up-saved :
      (json path : Bytes) (r : S × Bool)
      → (r.1 ≡ true → disk.contents r.0 path ≡ some json)
      → (clean_up disk path r).1 ≡ true
      → disk.contents (clean_up disk path r).0 path ≡ some json
  clean_up-saved json path (s, true) h e = h refl
  clean_up-saved json path (s, false) h e = absurd (ground (arith, e))

  finish_save-saved :
      (json path : Bytes) (r : S × Bool)
      → (r.1 ≡ true → disk.contents r.0 (temporary_of path) ≡ some json)
      → (finish_save disk path r).1 ≡ true
      → disk.contents (finish_save disk path r).0 path ≡ some json
  unfolding replace_target
  finish_save-saved json path (s, true) h e =
      clean_up-saved json path (attempt (disk.exists s path) s path)
        (attempt-saved (disk.exists s path) s path json (h refl)) e
  finish_save-saved json path (s, false) h e = absurd (ground (arith, e))

  -- The call of `WriteFile`, on the file just created.
  abbrev write_new : Bytes → Bytes → S → S × Bool × ℕ
  write_new json path s =
      disk.write_file (temporary_of path) json (disk.create_file (temporary_of path) s).0

  flushed-read :
      (json path : Bytes) (s : S) (b : Bool)
      → (disk.create_file (temporary_of path) s).1 ≡ true
      → ((write_new json path s).1 && ((write_new json path s).2 == length json)) ≡ b
      → (if b
          then disk.flush_file (temporary_of path) (write_new json path s).0
          else ((write_new json path s).0, false)).1
        ≡ true
      → disk.contents
          (disk.close_file
            (temporary_of path)
            (if b
              then disk.flush_file (temporary_of path) (write_new json path s).0
              else ((write_new json path s).0, false)).0)
          (temporary_of path)
        ≡ some json
  flushed-read json path s false h k e = absurd (ground (arith, e))
  flushed-read json path s true h k e =
      let whole = both (write_new json path s).1 ((write_new json path s).2 == length json) k in
      laws.written (temporary_of path) json s h whole.0
        ((==_iff (write_new json path s).2 (length json)).0 whole.1) e

  created-saved :
      (json path : Bytes) (s : S) (r : S × Bool)
      → disk.create_file (temporary_of path) s ≡ r
      → r.1 ≡ true
      → (flush_written disk path json (disk.write_file (temporary_of path) json r.0)).1 ≡ true
      → disk.contents
          (disk.close_file
            (temporary_of path)
            (flush_written disk path json (disk.write_file (temporary_of path) json r.0)).0)
          (temporary_of path)
        ≡ some json
  created-saved json path s r e =
      subst
        (λ r.
          r.1 ≡ true
          → (flush_written disk path json (disk.write_file (temporary_of path) json r.0)).1 ≡ true
          → disk.contents
              (disk.close_file (temporary_of path)
                (flush_written disk path json (disk.write_file (temporary_of path) json r.0)).0)
              (temporary_of path)
            ≡ some json)
        e (λ h k. flushed-read json path s _ h refl k)

  write_created-saved :
      (json path : Bytes) (s : S) (r : S × Bool)
      → disk.create_file (temporary_of path) s ≡ r
      → (write_created disk path json r).1 ≡ true
      → disk.contents (write_created disk path json r).0 path ≡ some json
  write_created-saved json path s (s', false) e h = absurd (ground (arith, h))
  write_created-saved json path s (s', true) e h =
      finish_save-saved json path
        (close_temporary disk path
          (flush_written disk path json (disk.write_file (temporary_of path) json s')))
        (created-saved json path s (s', true) e refl) h

  -- On a disk whose calls do what Windows documents, valid settings whose devices can be reached, and whose save succeeds, are what the file then loads as.
  pub save_to_file-load :
      (c : Config) (s : S) (path : Bytes)
      → IsValid c
      → IsKept c
      → (save_to_file disk c s path).1 ≡ true
      → load_from_file disk (save_to_file disk c s path).0 path ≡ c
  unfolding save_to_file
  save_to_file-load c s path h k e =
      load-Recoverable (serialize c) c (save_to_file disk c s path).0 path
        (try_parse_config-serialize c h k)
        (inl (
          write_created-saved (serialize c) path s (disk.create_file (temporary_of path) s) refl e))
