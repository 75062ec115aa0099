-- ===== src/App/Config/Store/Tests.antt =====
-- Saves of src/app/Config.cpp on a disk that is a table of files.
use ipad_second_display.Common.{
  ◌≡◌, ◌≢◌, ◌⊎◌, refl, inl, inr, [], Option, none, some, codes, Bytes, Bool, true, false, arith,
  length, bytes_eq, bytes_eq_iff, ==_iff, if◌then◌else◌, Bool-cases,
}
use ipad_second_display.App.Config.{Config, default_config}
use ipad_second_display.App.Config.Serialize.{serialize}
use ipad_second_display.App.Config.Valid.{IsValid}
use ipad_second_display.App.Config.RoundTrip.{try_parse_config-serialize}
use ipad_second_display.App.Config.Store.{Disk, load_from_file, save_to_file, replace_target}
use ipad_second_display.App.Config.Store.Calls.{IsDisk}
use ipad_second_display.App.Config.Store.Recovery.{save_to_file-load, failed_save-load}

abbrev Files : Type 0
Files = Bytes → Option Bytes

abbrev put : Bytes → Option Bytes → Files → Files
put p v s q = if bytes_eq p q then v else s q

abbrev is_file : Option Bytes → Bool
is_file none = false
is_file (some json) = true

-- On the second kind of disk a replacement fails halfway, and a move at once.
abbrev replace : Bool → Bytes → Bytes → Bytes → Files → Files × Bool
replace true t r b s = (put t (s r) (put r none (put b (s t) s)), true)
replace false t r b s = (put b (s t) (put t none s), false)

abbrev move : Bool → Bytes → Bytes → Files → Files × Bool
move true r t s = (put t (s r) (put r none s), true)
move false r t s = (s, false)

abbrev table : Bool → Disk Files
table works = record {
  contents = λ s p. s p;
  exists = λ s p. is_file (s p);
  create_directory = λ s. (s, true);
  create_file = λ p s. (put p (some []) s, true);
  write_file = λ p json s. (put p (some json) s, true, length json);
  flush_file = λ p s. (s, true);
  close_file = λ p s. s;
  delete_file = λ p s. put p none s;
  replace_file = replace works;
  move_file = move works;
}

put_same : (p : Bytes) (v : Option Bytes) (s : Files) → put p v s p ≡ v
put_same p v s = let same : bytes_eq p p ≡ true = (bytes_eq_iff p p).1 refl in rw same refl

put_other : (p q : Bytes) (v : Option Bytes) (s : Files) → p ≢ q → put p v s q ≡ s q
put_other p q v s h = elim (Bool-cases (bytes_eq p q)) [
  | inl same ↦ absurd (h ((bytes_eq_iff p q).0 same))
  | inr other ↦ rw other refl
]

replaced_lem :
    (works : Bool) (t r b : Bytes) (s : Files)
    → (replace works t r b s).1 ≡ true
    → (replace works t r b s).0 t ≡ s r
replaced_lem true t r b s h = put_same t (s r) (put r none (put b (s t) s))
replaced_lem false t r b s h = absurd (ground (arith, h))

moved_lem :
    (works : Bool) (r t : Bytes) (s : Files)
    → (move works r t s).1 ≡ true
    → (move works r t s).0 t ≡ s r
moved_lem true r t s h = put_same t (s r) (put r none s)
moved_lem false r t s h = absurd (ground (arith, h))

not_moved_lem :
    (works : Bool) (r t : Bytes) (s : Files)
    → (move works r t s).1 ≡ false
    → (move works r t s).0 t ≡ s t
not_moved_lem true r t s h = absurd (ground (arith, h))
not_moved_lem false r t s h = refl

not_replaced_lem :
    (works : Bool) (t r b : Bytes) (s : Files)
    → (replace works t r b s).1 ≡ false
    → ((replace works t r b s).0 t ≡ s t)
      ⊎ (((replace works t r b s).0 t ≡ none) × ((replace works t r b s).0 b ≡ s t))
not_replaced_lem true t r b s h = absurd (ground (arith, h))
not_replaced_lem false t r b s h = elim (Bool-cases (bytes_eq b t)) [
  | inl same ↦ inl (rw same refl)
  | inr other ↦ inr (rw other (put_same t none s), put_same b (s t) (put t none s))
]

table-IsDisk : (works : Bool) → IsDisk (table works)
table-IsDisk works = record {
  create_keeps = λ p q s h. put_other p q (some []) s h;
  write_keeps = λ p q json s h. put_other p q (some json) s h;
  flush_keeps = λ p q s h. refl;
  close_keeps = λ p q s h. refl;
  delete_keeps = λ p q s h. put_other p q none s h;
  written = λ p json s a b c d. put_same p (some json) (put p (some []) s);
  replaced = replaced_lem works;
  moved = moved_lem works;
  not_replaced = not_replaced_lem works;
  not_moved = not_moved_lem works;
}

abbrev bright : Config
bright = default_config

abbrev dark : Config
dark = record default_config { dark_theme = true; port = 9001 }

dark-IsValid : IsValid dark
dark-IsValid = (
  refl,
  (omega arith, omega arith),
  (omega arith, omega arith),
  (omega arith, omega arith),
  refl,
  (tt, tt, tt),
)

bright-IsValid : IsValid bright
bright-IsValid = (
  refl,
  (omega arith, omega arith),
  (omega arith, omega arith),
  (omega arith, omega arith),
  refl,
  (tt, tt, tt),
)

unfoldable bright_saved : Files
bright_saved = put (codes "c") (some (serialize bright)) (λ p. none)

bright_there : bright_saved (codes "c") ≡ some (serialize bright)
unfolding bright_saved
bright_there = put_same (codes "c") (some (serialize bright)) (λ p. none)

saves : (save_to_file (table true) dark bright_saved (codes "c")).1 ≡ true
unfolding save_to_file replace_target bright_saved bytes_eq
saves = rw ((==_iff (length (serialize dark)) (length (serialize dark))).1 refl) refl

save_to_file-load_example :
    load_from_file
      (table true)
      (save_to_file (table true) dark bright_saved (codes "c")).0
      (codes "c")
    ≡ dark
save_to_file-load_example =
    save_to_file-load (table true) (table-IsDisk true) dark bright_saved (codes "c") dark-IsValid
      (tt, omega arith) saves

fails : (save_to_file (table false) dark bright_saved (codes "c")).1 ≡ false
unfolding save_to_file replace_target bright_saved bytes_eq
fails = rw ((==_iff (length (serialize dark)) (length (serialize dark))).1 refl) refl

failed_save-load_example :
    load_from_file
      (table false)
      (save_to_file (table false) dark bright_saved (codes "c")).0
      (codes "c")
    ≡ bright
failed_save-load_example =
    failed_save-load (table false) (table-IsDisk false) dark bright (serialize bright) bright_saved
      (codes "c") bright_there (try_parse_config-serialize bright bright-IsValid (tt, omega arith))
      fails
