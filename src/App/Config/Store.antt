-- ===== src/App/Config/Store.antt =====
-- `Config::Load`, `LoadFromFile`, `Save` and `SaveToFile` of src/app/Config.cpp, over the calls of
-- Windows that they make.
pub mod Calls
pub mod Recovery
mod Tests
use ipad_second_display.Common.{
  ℕ, Bool, true, false, not, ◌&&◌, List, [], ◌∷◌, ◌++◌, Option, none, some, ◌==◌, if◌then◌else◌,
  length, Bytes, codes, ◌≡◌, ◌⊎◌,
}
use ipad_second_display.App.Config.{Config, default_config}
use ipad_second_display.App.Config.Json.{Result, ok, failed, out_of_fuel}
use ipad_second_display.App.Config.Parse.{try_parse_config}
use ipad_second_display.App.Config.Serialize.{serialize}

-- The calls, on a state of the disk. A path is its text; a call that reports success has `true`
-- beside the new state. `contents` is what `ReadFile` of the source gets, `none` where it fails.
pub record Disk (S : Type 0) : Type 0 where
  pub contents : S → Bytes → Option Bytes
  pub exists : S → Bytes → Bool
  -- `CreateDirectoryW`, or the directory is there.
  pub create_directory : S → S × Bool
  -- `CreateFileW` with `CREATE_ALWAYS`.
  pub create_file : Bytes → S → S × Bool
  -- `WriteFile`, with the count of bytes that it wrote.
  pub write_file : Bytes → Bytes → S → S × Bool × ℕ
  -- `FlushFileBuffers`.
  pub flush_file : Bytes → S → S × Bool
  -- `CloseHandle`.
  pub close_file : Bytes → S → S
  -- `DeleteFileW`.
  pub delete_file : Bytes → S → S
  -- `ReplaceFileW`: the target, the replacement and the backup.
  pub replace_file : Bytes → Bytes → Bytes → S → S × Bool
  -- `MoveFileExW`: from and to.
  pub move_file : Bytes → Bytes → S → S × Bool

abbrev pub temporary_of : Bytes → Bytes
temporary_of path = path ++ codes ".tmp"

abbrev pub backup_of : Bytes → Bytes
backup_of path = path ++ codes ".bak"

abbrev pub or_else : Result Config → Config → Config
or_else (ok c) other = c
or_else failed other = other
or_else out_of_fuel other = other

-- `ReadFile(path, json) && TryParseConfig(json, cfg)`.
abbrev pub parse_contents : Option Bytes → Result Config
parse_contents none = failed
parse_contents (some json) = try_parse_config json

module _ {S : Type 0} (disk : Disk S) where
  -- `Config::LoadFromFile`.
  unfoldable pub load_from_file : S → Bytes → Config
  load_from_file s path =
      or_else (parse_contents (disk.contents s path))
        (or_else (parse_contents (disk.contents s (backup_of path))) default_config)

  -- The end of `SaveToFile`: the temporary file goes if it did not take the target's place.
  abbrev pub clean_up : Bytes → S × Bool → S × Bool
  clean_up path (s, true) = (s, true)
  clean_up path (s, false) = (disk.delete_file (temporary_of path) s, false)

  -- From the temporary file, once it is written and closed, to the target.
  unfoldable pub replace_target : S → Bytes → S × Bool
  replace_target s path = clean_up path (
      if disk.exists s path
      then disk.replace_file path (temporary_of path) (backup_of path)
          (disk.delete_file (backup_of path) s)
      else disk.move_file (temporary_of path) path s)

  -- The file is closed, written or not.
  abbrev pub close_temporary : Bytes → S × Bool → S × Bool
  close_temporary path (s, flushed) = (disk.close_file (temporary_of path) s, flushed)

  -- It is flushed only if all of the text was written.
  abbrev pub flush_written : Bytes → Bytes → S × Bool × ℕ → S × Bool
  flush_written path json (s, wrote, written) =
      if wrote && (written == length json)
      then disk.flush_file (temporary_of path) s
      else (s, false)

  abbrev pub finish_save : Bytes → S × Bool → S × Bool
  finish_save path (s, true) = replace_target s path
  finish_save path (s, false) = (disk.delete_file (temporary_of path) s, false)

  abbrev pub write_created : Bytes → Bytes → S × Bool → S × Bool
  write_created path json (s, false) = (s, false)
  write_created path json (s, true) =
      finish_save path (
        close_temporary path (flush_written path json (disk.write_file (temporary_of path) json s)))

  -- `Config::SaveToFile`.
  unfoldable pub save_to_file : Config → S → Bytes → S × Bool
  save_to_file c s path = write_created path (serialize c) (disk.create_file (temporary_of path) s)

  abbrev pub save_in : Config → Bytes → S × Bool → S × Bool
  save_in c path (s, false) = (s, false)
  save_in c path (s, true) = save_to_file c s path

  -- `Config::Save`, for the path of the settings.
  unfoldable pub save : Config → S → Bytes → S × Bool
  save c s path = save_in c path (disk.create_directory s)

  -- `Config::Load`, for the paths of the settings and of the settings before the product's
  -- renaming. Their one-time copy is not checked.
  unfoldable pub load : S → Bytes → Bytes → S × Config
  load s path legacy =
      if disk.exists s path
      then (s, load_from_file s path)
      else if not (disk.exists s legacy)
      then (s, default_config)
      else ((save (load_from_file s legacy) s path).0, load_from_file s legacy)
