-- ===== src/App/Config/RoundTrip/Entries.antt =====
-- `JsonParser::ParseObject` of src/app/Config.cpp on the members that `Config::Serialize` writes.
use ipad_second_display.Common.{
  ℕ, zero, suc, ◌+◌, ◌≤◌, ◌≡◌, refl, ap, ◌∙◌, sym, true, List, [], ◌∷◌, ◌++◌, some, length, Bytes,
  All, arith,
}
use ipad_second_display.Common.Text.{ends_number}
use ipad_second_display.App.Config.Json.{
  Json, object, Members, Result, ok, ◌>>=◌, from_option, skip, consume, string_rest, at_byte,
  parse_string, parse_at, parse_value, parse_members, parse_items, open_object, no_members,
  out_of_fuel, insert_or_assign, after_member,
}
use ipad_second_display.App.Config.Json.Strings.{string_rest-escape_json}
use ipad_second_display.App.Config.Serialize.{Writer, escape_json}
use ipad_second_display.App.Config.RoundTrip.Values.{ReadsAs}

pub record Entry : Type 0 where
  pub key : Bytes
  pub writer : Writer
  pub value : Json

-- White space before each key, and behind each colon.
pub record Spacing : Type 0 where
  pub lead : Bytes
  pub gap : Bytes

abbrev pub IsSpacing : Spacing → Type 0
IsSpacing s =
    ((input : Bytes) → skip (s.lead ++ b'"' ∷ input) ≡ b'"' ∷ input)
    × ((f : ℕ) (input : Bytes) → parse_value (suc f) (s.gap ++ input) ≡ parse_value (suc f) input)

unfoldable pub write_entry : Spacing → Entry → Writer
write_entry s e rest = s.lead ++ (b'"' ∷ (e.key ++ (b'"' ∷ b':' ∷ (s.gap ++ e.writer rest))))

unfoldable pub write_more : Spacing → List Entry → Writer
unfolding write_entry
write_more s [] rest = rest
write_more s (e ∷ es) rest = b',' ∷ write_entry s e (write_more s es rest)

unfoldable pub assign_all : Members → List Entry → Members
unfolding insert_or_assign
assign_all ms [] = ms
assign_all ms (e ∷ es) = assign_all (insert_or_assign e.key e.value ms) es

-- The key needs no escapes, and the writer's text is read as the value.
abbrev pub EntryReads : ℕ → Entry → Type 0
EntryReads n e = (escape_json e.key ≡ e.key) × ReadsAs n e.writer e.value

plain_key :
    (key rest : Bytes)
    → escape_json key ≡ key
    → string_rest at_byte (key ++ b'"' ∷ rest) [] ≡ some (key, rest)
plain_key key rest e =
    ap (λ k. string_rest at_byte (k ++ b'"' ∷ rest) []) (sym e)
    ∙ string_rest-escape_json key rest []

members_zero : (ms : Members) (input : Bytes) → parse_members zero ms input ≡ out_of_fuel
unfolding parse_value
members_zero ms input = refl

members_suc :
    (f : ℕ) (ms : Members) (input : Bytes)
    → parse_members (suc f) ms input ≡ (
        from_option (parse_string input) >>= λ (key, after_key).
        from_option (consume b':' after_key) >>= λ after_colon.
        parse_value f after_colon >>= λ (v, rest).
        after_member (parse_members f) (insert_or_assign key v ms) rest)
unfolding parse_value
members_suc f ms input = refl

-- A member whose three parts are read.
member_read :
    (f : ℕ) (ms : Members) (input key after_key after_colon rest : Bytes) (v : Json)
    → parse_string input ≡ some (key, after_key)
    → consume b':' after_key ≡ some after_colon
    → parse_value f after_colon ≡ ok (v, rest)
    → parse_members (suc f) ms input
      ≡ after_member (parse_members f) (insert_or_assign key v ms) rest
member_read f ms input key after_key after_colon rest v h k l =
    members_suc f ms input ∙ rw h (rw k (rw l refl))

entry_string :
    (s : Spacing) (e : Entry) (rest : Bytes)
    → IsSpacing s
    → escape_json e.key ≡ e.key
    → parse_string (write_entry s e rest) ≡ some (e.key, b':' ∷ (s.gap ++ e.writer rest))
unfolding write_entry
entry_string s e rest h k =
    rw (h.0 (e.key ++ (b'"' ∷ b':' ∷ (s.gap ++ e.writer rest))))
      (plain_key e.key (b':' ∷ (s.gap ++ e.writer rest)) k)

entry_value :
    (s : Spacing) (e : Entry) (n f : ℕ) (rest : Bytes)
    → IsSpacing s
    → ReadsAs n e.writer e.value
    → n ≤ f
    → 1 ≤ f
    → ends_number rest ≡ true
    → parse_value f (s.gap ++ e.writer rest) ≡ ok (e.value, rest)
entry_value s e n zero rest h k l p ends = absurd (omega arith)
entry_value s e n (suc f) rest h k l p ends = h.1 f (e.writer rest) ∙ k (suc f) rest l ends

colon : (rest : Bytes) → consume b':' (b':' ∷ rest) ≡ some rest
unfolding skip
colon rest = refl

entry_read :
    (s : Spacing) (e : Entry) (n f : ℕ) (ms : Members) (rest : Bytes)
    → IsSpacing s
    → EntryReads n e
    → n ≤ f
    → 1 ≤ f
    → ends_number rest ≡ true
    → parse_members (suc f) ms (write_entry s e rest)
      ≡ after_member (parse_members f) (insert_or_assign e.key e.value ms) rest
entry_read s e n f ms rest h k l p ends =
    member_read f ms (write_entry s e rest) e.key (b':' ∷ (s.gap ++ e.writer rest))
      (s.gap ++ e.writer rest) rest e.value (entry_string s e rest h k.0)
      (colon (s.gap ++ e.writer rest)) (entry_value s e n f rest h k.1 l p ends)

comma :
    (more : Members → Bytes → Result (Json × Bytes)) (ms : Members) (rest : Bytes)
    → after_member more ms (b',' ∷ rest) ≡ more ms rest
unfolding skip
comma more ms rest = refl

more_ends :
    (s : Spacing) (es : List Entry) (tail : Bytes)
    → ends_number tail ≡ true
    → ends_number (write_more s es tail) ≡ true
unfolding write_more
more_ends s [] tail h = h
more_ends s (e ∷ es) tail h = refl

closing :
    (more : Members → Bytes → Result (Json × Bytes)) (ms : Members) (tail rest : Bytes)
    → consume b'}' tail ≡ some rest
    → after_member more ms tail ≡ ok (object ms, rest)
closing more ms tail rest h = rw h refl

-- The members of an object, from the first key to behind the bracket.
pub entries_read :
    (s : Spacing) (e : Entry) (es : List Entry) (n f : ℕ) (ms : Members) (tail rest : Bytes)
    → IsSpacing s
    → All (EntryReads n) (e ∷ es)
    → n + length es + 2 ≤ f
    → ends_number tail ≡ true
    → consume b'}' tail ≡ some rest
    → parse_members f ms (write_entry s e (write_more s es tail))
      ≡ ok (object (assign_all ms (e ∷ es)), rest)
unfolding write_more assign_all
entries_read s e es n zero ms tail rest h k l ends closes = absurd (omega arith)
entries_read s e [] n (suc f) ms tail rest h k l ends closes =
    entry_read s e n f ms tail h k.0 (omega arith) (omega arith) ends
    ∙ closing (parse_members f) (insert_or_assign e.key e.value ms) tail rest closes
entries_read s e (e' ∷ es) n (suc f) ms tail rest h k l ends closes =
    entry_read s e n f ms (write_more s (e' ∷ es) tail) h k.0 (omega arith) (omega arith)
      (more_ends s (e' ∷ es) tail ends)
    ∙ comma (parse_members f) (insert_or_assign e.key e.value ms)
        (write_entry s e' (write_more s es tail))
    ∙ entries_read s e' es n f (insert_or_assign e.key e.value ms) tail rest h k.1 (omega arith)
        ends closes

skipped_string :
    (s : Spacing) (input : Bytes)
    → IsSpacing s
    → parse_string (s.lead ++ (b'"' ∷ input)) ≡ parse_string (b'"' ∷ input)
unfolding skip
skipped_string s input h = rw (h.0 input) refl

skipped_members :
    (f : ℕ) (s : Spacing) (ms : Members) (input : Bytes)
    → IsSpacing s
    → parse_members f ms (b'"' ∷ input) ≡ parse_members f ms (s.lead ++ (b'"' ∷ input))
skipped_members zero s ms input h =
    members_zero ms (b'"' ∷ input) ∙ sym (members_zero ms (s.lead ++ (b'"' ∷ input)))
skipped_members (suc f) s ms input h =
    members_suc f ms (b'"' ∷ input)
    ∙ rw (skipped_string s input h) refl
    ∙ sym (members_suc f ms (s.lead ++ (b'"' ∷ input)))

pub value_suc :
    (f : ℕ) (input : Bytes)
    → parse_value (suc f) input ≡ parse_at (parse_members f) (parse_items f) (skip input)
unfolding parse_value
value_suc f input = refl

-- An object with a first member is read from that member on.
opened :
    (f : ℕ) (s : Spacing) (input : Bytes)
    → IsSpacing s
    → open_object (parse_members f) (s.lead ++ (b'"' ∷ input))
      ≡ parse_members f no_members (s.lead ++ (b'"' ∷ input))
opened f s input h = rw (h.0 input) (skipped_members f s no_members input h)

brace :
    (f : ℕ) (input : Bytes)
    → parse_value (suc f) (b'{' ∷ input) ≡ open_object (parse_members f) input
unfolding parse_at skip
brace f input = value_suc f (b'{' ∷ input)

pub object_read :
    (s : Spacing) (e : Entry) (es : List Entry) (n f : ℕ) (tail rest : Bytes)
    → IsSpacing s
    → All (EntryReads n) (e ∷ es)
    → n + length es + 3 ≤ f
    → ends_number tail ≡ true
    → consume b'}' tail ≡ some rest
    → parse_value f (b'{' ∷ write_entry s e (write_more s es tail))
      ≡ ok (object (assign_all no_members (e ∷ es)), rest)
unfolding write_entry
object_read s e es n zero tail rest h k l ends closes = absurd (omega arith)
object_read s e es n (suc f) tail rest h k l ends closes =
    brace f (write_entry s e (write_more s es tail))
    ∙ opened f s (e.key ++ (b'"' ∷ b':' ∷ (s.gap ++ e.writer (write_more s es tail)))) h
    ∙ entries_read s e es n f no_members tail rest h k (omega arith) ends closes
