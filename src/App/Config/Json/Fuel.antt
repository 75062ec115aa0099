-- ===== src/App/Config/Json/Fuel.antt =====
-- Runs of `JsonParser` of src/app/Config.cpp with different fuel.
use ipad_second_display.Common.{
  ℕ, zero, suc, ◌≤◌, ◌≡◌, refl, Bool, true, false, [], ◌∷◌, if◌then◌else◌, Option, none, some, ◌==◌,
  Bytes, arith,
}
use ipad_second_display.App.Config.Json.{
  Json, Members, no_members, object, Items, no_items, array, Result, ok, failed, out_of_fuel, ◌>>=◌,
  from_option, skip, consume, closed_or, parse_scalar, text_value, string_rest, at_byte,
  parse_string, insert_or_assign, push_item, parse_at, parse_value, parse_members, parse_items,
}

-- The second answers what the first does, unless the first is out of fuel.
abbrev pub Settles {ℓ} : {A : Type ℓ} → Result A → Result A → Type ℓ
Settles (ok a) r = r ≡ ok a
Settles failed r = r ≡ failed
Settles out_of_fuel r = Unit

same-Settles {ℓ} : {A : Type ℓ} (r : Result A) → Settles r r
same-Settles (ok a) = refl
same-Settles failed = refl
same-Settles out_of_fuel = tt

bind-Settles {ℓ κ} :
    {A : Type ℓ} {B : Type κ} (r s : Result A) (k m : A → Result B)
    → Settles r s
    → ((a : A) → Settles (k a) (m a))
    → Settles (r >>= k) (s >>= m)
bind-Settles (ok a) s k m h next = rw h (next a)
bind-Settles failed s k m h next = rw h refl
bind-Settles out_of_fuel s k m h next = tt

option-Settles {ℓ κ} :
    {A : Type ℓ} {B : Type κ} (o : Option A) (k m : A → Result B)
    → ((a : A) → Settles (k a) (m a))
    → Settles (from_option o >>= k) (from_option o >>= m)
option-Settles o k m next =
    bind-Settles (from_option o) (from_option o) k m (same-Settles (from_option o)) next

closed_or-Settles :
    (o : Option Bytes) (v : Json) (r s : Result (Json × Bytes))
    → Settles r s
    → Settles (closed_or o v r) (closed_or o v s)
closed_or-Settles none v r s h = h
closed_or-Settles (some rest) v r s h = refl

if-Settles {ℓ} :
    {A : Type ℓ} (b : Bool) (r s r' s' : Result A)
    → Settles r s
    → Settles r' s'
    → Settles (if b then r else r') (if b then s else s')
if-Settles true r s r' s' h k = h
if-Settles false r s r' s' h k = k

parse_at-Settles :
    (members members' : Members → Bytes → Result (Json × Bytes))
    (items items' : Items → Bytes → Result (Json × Bytes))
    → ((ms : Members) (input : Bytes) → Settles (members ms input) (members' ms input))
    → ((is : Items) (input : Bytes) → Settles (items is input) (items' is input))
    → (input : Bytes) → Settles (parse_at members items input) (parse_at members' items' input)
unfolding parse_at
parse_at-Settles members members' items items' h k [] = refl
parse_at-Settles members members' items items' h k (c ∷ input) =
    if-Settles (c == b'"') _ _ _ _
      (same-Settles (from_option (string_rest at_byte input []) >>= text_value))
      (if-Settles (c == b'{') _ _ _ _
        (closed_or-Settles (consume b'}' input) (object no_members) _ _ (h no_members (skip input)))
        (if-Settles (c == b'[') _ _ _ _
          (closed_or-Settles (consume b']' input) (array no_items) _ _ (k no_items (skip input)))
          (same-Settles (parse_scalar (c ∷ input)))))

-- Whatever a run answers before its fuel is spent, a run with more fuel answers as well.
mutual
  unfolding parse_value

  pub value-Settles :
      (f g : ℕ) (input : Bytes) → f ≤ g → Settles (parse_value f input) (parse_value g input)
  value-Settles zero g input h = tt
  value-Settles (suc f) zero input h = absurd (omega arith)
  value-Settles (suc f) (suc g) input h =
      parse_at-Settles (parse_members f) (parse_members g) (parse_items f) (parse_items g)
        (λ ms rest. members-Settles f g ms rest (omega arith))
        (λ is rest. items-Settles f g is rest (omega arith)) (skip input)

  members-Settles :
      (f g : ℕ) (ms : Members) (input : Bytes)
      → f ≤ g
      → Settles (parse_members f ms input) (parse_members g ms input)
  members-Settles zero g ms input h = tt
  members-Settles (suc f) zero ms input h = absurd (omega arith)
  members-Settles (suc f) (suc g) ms input h =
      option-Settles (parse_string input) _ _ (λ (key, after_key).
        option-Settles (consume b':' after_key) _ _ (λ after_colon.
          bind-Settles (parse_value f after_colon) (parse_value g after_colon) _ _
            (value-Settles f g after_colon (omega arith))
            (λ (v, rest).
              closed_or-Settles (consume b'}' rest) (object (insert_or_assign key v ms)) _ _ (
                option-Settles (consume b',' rest) _ _ (λ behind.
                  members-Settles f g (insert_or_assign key v ms) behind (omega arith))))))

  items-Settles :
      (f g : ℕ) (is : Items) (input : Bytes)
      → f ≤ g
      → Settles (parse_items f is input) (parse_items g is input)
  items-Settles zero g is input h = tt
  items-Settles (suc f) zero is input h = absurd (omega arith)
  items-Settles (suc f) (suc g) is input h =
      bind-Settles (parse_value f input) (parse_value g input) _ _
        (value-Settles f g input (omega arith))
        (λ (v, rest). closed_or-Settles (consume b']' rest) (array (push_item is v)) _ _ (
          option-Settles (consume b',' rest) _ _
            (λ behind. items-Settles f g (push_item is v) behind (omega arith))))
