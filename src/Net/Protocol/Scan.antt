-- ===== src/Net/Protocol/Scan.antt =====
-- The scan of src/net/Protocol.cpp for a member: its rounds and its positions.
use ipad_second_display.Common.{
  ℕ, zero, suc, ◌+◌, ◌-◌, ◌≤◌, ◌<◌, ◌≡◌, Bool, true, false, not, ◌&&◌, ◌||◌, Bool-cases,
  Option-cases, inl, inr, [], ◌∷◌, Option, none, some, arith, ◌==◌, ltb, length, length-drop, take,
  drop, if◌then◌else◌, Bytes, bytes_eq, byte_at,
}
use ipad_second_display.Common.Text.{is_space}
use ipad_second_display.Net.Protocol.{
  Search, found, absent, out_of_fuel, search_of, position_of, skip_while, stands_at, count_while,
  string_end, is_member_name, value_after, find_loop, find_value_start,
}

string_end_bound :
    (text : Bytes) (at : ℕ) (escaped passed : Bool) (stop : ℕ) (e : Bool)
    → string_end text at escaped passed ≡ some (stop, e)
    → at ≤ stop
unfolding string_end
string_end_bound [] at escaped passed stop e h = absurd (ground (arith, h))
string_end_bound (c ∷ text) at true passed stop e h =
    omega (arith, string_end_bound text (suc at) false true stop e h)
string_end_bound (c ∷ text) at false passed stop e h = ground (
  arith,
  h,
  string_end_bound text (suc at) true passed stop e,
  string_end_bound text (suc at) false passed stop e,
)

-- The search did not end for want of fuel.
abbrev pub Ends : Search → Type 0
Ends (found position) = Unit {0}
Ends absent = Unit {0}
Ends out_of_fuel = ⊥

Ends-if : (b : Bool) (s t : Search) → Ends s → Ends t → Ends (if b then s else t)
Ends-if true s t x y = x
Ends-if false s t x y = y

search_of-Ends : (o : Option ℕ) → Ends (search_of o)
search_of-Ends none = tt
search_of-Ends (some position) = tt

find_loop_enough :
    (fuel : ℕ) (json key : Bytes) (root at depth : ℕ)
    → length json - at < fuel
    → Ends (find_loop fuel json key root at depth)
unfolding find_loop
find_loop_enough zero json key root at depth h = absurd (omega arith)
find_loop_enough (suc fuel) json key root at depth h =
    elim (Bool-cases (ltb at (length json) && ltb 0 depth)) [
      | inr stops ↦ rw stops tt
      | inl goes ↦
          let smaller : length json - (at + 1) < fuel = ground (arith, h, goes) in
          let on = λ (deep : ℕ). find_loop_enough fuel json key root (at + 1) deep smaller in
          let round = λ (at_quote : Search) (q : Ends at_quote).
            Ends-if (byte_at json at == b'{' || byte_at json at == b'[')
              (find_loop fuel json key root (at + 1) (depth + 1)) _ (on (depth + 1))
              (Ends-if (byte_at json at == b'}' || byte_at json at == b']')
                (find_loop fuel json key root (at + 1) (depth - 1)) _ (on (depth - 1))
                (Ends-if (not (byte_at json at == b'"'))
                  (find_loop fuel json key root (at + 1) depth) at_quote (on depth) q)) in
          elim (Option-cases (string_end (drop (at + 1) json) (at + 1) false false)) [
            | inl open_string ↦ rw (goes, open_string) (round absent tt)
            | inr (stop, closed) ↦
                let advances = string_end_bound _ _ _ _ stop.0 stop.1 closed in
                rw (goes, closed)
                  (round _ (
                    Ends-if
                      (is_member_name json root at depth
                        && not stop.1
                        && bytes_eq (take (stop.0 - (at + 1)) (drop (at + 1) json)) key)
                      (search_of (value_after json stop.0))
                      (find_loop fuel json key root (stop.0 + 1) depth)
                      (search_of-Ends (value_after json stop.0))
                      (find_loop_enough fuel json key root (stop.0 + 1) depth
                        (omega (arith, smaller, advances)))))
          ]
    ]

-- The scan of an object always ends, within as many rounds as the text has bytes and one.
pub find_loop-Ends :
    (json key : Bytes) (root : ℕ) → Ends (find_loop (suc (length json)) json key root (root + 1) 1)
find_loop-Ends json key root =
    find_loop_enough (suc (length json)) json key root (root + 1) 1 (omega arith)

count_while_bound : (p : ℕ → Bool) (xs : Bytes) → count_while p xs ≤ length xs
unfolding count_while
count_while_bound p [] = omega arith
count_while_bound p (x ∷ xs) = ground (arith, count_while_bound p xs)

skip_while_bound :
    (p : ℕ → Bool) (json : Bytes) (at : ℕ)
    → at ≤ length json
    → at + count_while p (drop at json) ≤ length json
skip_while_bound p json at h =
    omega (arith, h, count_while_bound p (drop at json), length-drop at json)

abbrev pub InText : Bytes → Option ℕ → Type 0
InText json none = Unit {0}
InText json (some p) = (0 < p) × (p ≤ length json)

InText-if :
    (json : Bytes) (b : Bool) (o k : Option ℕ)
    → InText json o
    → InText json k
    → InText json (if b then o else k)
InText-if json true o k x y = x
InText-if json false o k x y = y

value_after-InText : (json : Bytes) (stop : ℕ) → InText json (value_after json stop)
value_after-InText json stop =
    let colon = stop + 1 + count_while is_space (drop (stop + 1) json) in
    elim (Bool-cases (ltb colon (length json) && byte_at json colon == b':')) [
      | inr fails ↦ rw fails tt
      | inl holds ↦
          rw holds (omega arith, skip_while_bound is_space json (colon + 1) (ground (arith, holds)))
    ]

search_of-InText :
    (json : Bytes) (o : Option ℕ) → InText json o → InText json (position_of (search_of o))
search_of-InText json none h = h
search_of-InText json (some position) h = h

search_if :
    (json : Bytes) (b : Bool) (s t : Search)
    → InText json (position_of s)
    → InText json (position_of t)
    → InText json (position_of (if b then s else t))
search_if json true s t x y = x
search_if json false s t x y = y

find_loop-InText :
    (fuel : ℕ) (json key : Bytes) (root at depth : ℕ)
    → InText json (position_of (find_loop fuel json key root at depth))
unfolding find_loop
find_loop-InText zero json key root at depth = tt
find_loop-InText (suc fuel) json key root at depth =
    let on = λ (next deep : ℕ). find_loop-InText fuel json key root next deep in
    let round = λ (at_quote : Search) (h : InText json (position_of at_quote)).
      search_if json (not (ltb at (length json) && ltb 0 depth)) absent _ tt (
        search_if json (byte_at json at == b'{' || byte_at json at == b'[')
          (find_loop fuel json key root (at + 1) (depth + 1)) _ (on (at + 1) (depth + 1))
          (search_if json (byte_at json at == b'}' || byte_at json at == b']')
            (find_loop fuel json key root (at + 1) (depth - 1)) _ (on (at + 1) (depth - 1))
            (search_if json (not (byte_at json at == b'"'))
              (find_loop fuel json key root (at + 1) depth) at_quote (on (at + 1) depth) h))) in
    elim (Option-cases (string_end (drop (at + 1) json) (at + 1) false false)) [
      | inl open_string ↦ rw open_string (round absent tt)
      | inr (stop, closed) ↦ rw closed (
          round _ (
            search_if json
              (is_member_name json root at depth
                && not stop.1
                && bytes_eq (take (stop.0 - (at + 1)) (drop (at + 1) json)) key)
              (search_of (value_after json stop.0))
              (find_loop fuel json key root (stop.0 + 1) depth)
              (search_of-InText json _ (value_after-InText json stop.0)) (on (stop.0 + 1) depth)))
    ]

-- A value that the scan finds begins inside the text or at its end, never beyond it.
pub find_value_start-InText : (json key : Bytes) → InText json (find_value_start json key)
unfolding find_value_start
find_value_start-InText json key =
    let root = skip_while is_space json 0 in
    InText-if json (stands_at json root b'{')
      (position_of (find_loop (suc (length json)) json key root (root + 1) 1)) none
      (find_loop-InText (suc (length json)) json key root (root + 1) 1) tt
