-- ===== src/Net/Connection/Loading.antt =====
-- `ReadExact` of src/net/Connection.cpp: what its loop gets of the stream, and where a `recv` fails.
use ipad_second_display.Common.{
  ℕ, zero, suc, ◌+◌, ◌-◌, ◌≤◌, ◌<◌, ◌≡◌, ◌∙◌, ◌⊎◌, sym, subst, ap, refl, min, true, false, [], ◌∷◌,
  ◌++◌, Option, none, some, arith, ◌==◌, length, take, drop, length-take, length-drop, append_assoc,
  append-nil, if◌then◌else◌, Bool-cases, Bytes, inl, inr,
}
use ipad_second_display.Net.Connection.{Environment, Connection, recv, read_loop}

take_nil : (m : ℕ) → take {A = ℕ} m [] ≡ []
take_nil zero = refl
take_nil (suc m) = refl

drop_nil : (m : ℕ) → drop {A = ℕ} m [] ≡ []
drop_nil zero = refl
drop_nil (suc m) = refl

take-take-drop : (n m : ℕ) (xs : Bytes) → take n xs ++ take m (drop n xs) ≡ take (n + m) xs
take-take-drop zero m xs = ap (λ k. take k xs) (omega arith)
take-take-drop (suc n) m [] = rw (take_nil m, take_nil (suc n + m)) refl
take-take-drop (suc n) m (x ∷ xs) =
    let e : suc n + m ≡ suc (n + m) = omega arith in rw e (ap (◌∷◌ x) (take-take-drop n m xs))

drop-drop : (n m : ℕ) (xs : Bytes) → drop m (drop n xs) ≡ drop (n + m) xs
drop-drop zero m xs = ap (λ k. drop k xs) (omega arith)
drop-drop (suc n) m [] = rw (drop_nil m, drop_nil (suc n + m)) refl
drop-drop (suc n) m (x ∷ xs) =
    let e : suc n + m ≡ suc (n + m) = omega arith in rw e (drop-drop n m xs)

-- The connection after `n` more bytes were received.
abbrev received : Connection → ℕ → Connection
received c n = record c { inbound = drop n c.inbound; receives = suc c.receives }

-- No `recv` returns `SOCKET_ERROR`.
abbrev pub NeverFails : Environment → Type 0
NeverFails env = (i : ℕ) → 0 < env.received i

-- What one `recv` of `wanted` bytes does on a stream that was not shut down.
record Gives (env : Environment) (c : Connection) (wanted n : ℕ) : Type 0 where
  answer : recv env c wanted ≡ (take n c.inbound, received c n)
  at_most : n ≤ wanted
  available : n ≤ length c.inbound
  progress : 0 < env.received c.receives → 0 < wanted → 0 < length c.inbound → 0 < n

abbrev recv_count : Environment → Connection → ℕ → ℕ
recv_count env c wanted = min wanted (min (env.received c.receives) (length c.inbound))

recv-Gives :
    (env : Environment) (c : Connection) (wanted : ℕ)
    → c.is_shut ≡ false
    → Gives env c wanted (recv_count env c wanted)
unfolding recv
recv-Gives env c wanted s = record {
  answer = rw s;
  at_most = omega arith;
  available = omega arith;
  progress = λ f w a. omega arith;
}

-- `wanted` bytes of the stream were read behind `got`, and no more.
pub record Loaded (wanted : ℕ) (got : Bytes) (c : Connection) (r : Option Bytes × Connection)
    : Type 0 where
  pub rounds : ℕ
  pub there : wanted ≤ length c.inbound
  pub result : r ≡ (
    some (got ++ take wanted c.inbound),
    record c { inbound = drop wanted c.inbound; receives = rounds },
  )

Loaded-nothing :
    (wanted : ℕ) (got : Bytes) (c : Connection) → wanted ≡ 0 → Loaded wanted got c (some got, c)
Loaded-nothing wanted got c e = record {
  rounds = c.receives;
  there = omega arith;
  result = rw (e, append-nil);
}

-- First `n` bytes, then the rest.
Loaded-join :
    (wanted n : ℕ) (got : Bytes) (c : Connection) (r : Option Bytes × Connection)
    → n ≤ wanted
    → n ≤ length c.inbound
    → Loaded (wanted - n) (got ++ take n c.inbound) (received c n) r
    → Loaded wanted got c r
Loaded-join wanted n got c r h k later =
    let left : n + (wanted - n) ≡ wanted = omega arith in
    let joined : (got ++ take n c.inbound) ++ take (wanted - n) (drop n c.inbound)
        ≡ got ++ take wanted c.inbound =
      append_assoc got _ _
      ∙ ap (◌++◌ got) (take-take-drop n (wanted - n) c.inbound ∙ ap (λ j. take j c.inbound) left) in
    let dropped : drop (wanted - n) (drop n c.inbound) ≡ drop wanted c.inbound =
      drop-drop n (wanted - n) c.inbound ∙ ap (λ j. drop j c.inbound) left in
    record {
      rounds = later.rounds;
      there = omega (arith, later.there, length-drop n c.inbound);
      result = later.result ∙ λ i.
          (some (joined i), record c { inbound = dropped i; receives = later.rounds });
    }

module _ (env : Environment) where
  read_loop_done :
      (fuel wanted : ℕ) (got : Bytes) (c : Connection)
      → wanted ≡ 0
      → read_loop env fuel wanted got c ≡ (some got, c)
  unfolding read_loop
  read_loop_done zero wanted got c e = ground arith
  read_loop_done (suc fuel) wanted got c e = rw e

  read_loop_step :
      (fuel wanted n : ℕ) (got : Bytes) (c : Connection)
      → Gives env c wanted n
      → c.is_open ≡ true
      → 0 < wanted
      → read_loop env (suc fuel) wanted got c ≡ (
          if n == 0
          then (none, received c n)
          else read_loop env fuel (wanted - n) (got ++ take n c.inbound) (received c n))
  unfolding read_loop
  read_loop_step fuel wanted n got c g o w =
      let l : length (take n c.inbound) ≡ n = omega (arith, length-take n c.inbound, g.available) in
      let nonzero : (wanted == 0) ≡ false = ground arith in rw (g.answer, l, nonzero, o)

  -- A round that gets bytes goes on with the rest.
  read_loop_more :
      (fuel wanted n : ℕ) (got : Bytes) (c : Connection)
      → Gives env c wanted n
      → c.is_open ≡ true
      → 0 < wanted
      → (n == 0) ≡ false
      → read_loop env (suc fuel) wanted got c
        ≡ read_loop env fuel (wanted - n) (got ++ take n c.inbound) (received c n)
  read_loop_more fuel wanted n got c g o w more =
      read_loop_step fuel wanted n got c g o w ∙ rw more refl

  -- Whatever `recv` does, a read that succeeds got the next bytes of the stream.
  pub read_loop_agrees :
      (fuel wanted : ℕ) (got : Bytes) (c : Connection)
      → c.is_open ≡ true
      → c.is_shut ≡ false
      → ((read_loop env fuel wanted got c).0 ≡ none)
        ⊎ Loaded wanted got c (read_loop env fuel wanted got c)
  read_loop_agrees zero wanted got c o s = elim (Bool-cases (wanted == 0)) [
    | inr left ↦ inl (unfold read_loop in ground (arith, left))
    | inl done ↦
        let z : wanted ≡ 0 = ground arith in
        inr (
          subst (Loaded wanted got c) (sym (read_loop_done zero wanted got c z))
            (Loaded-nothing wanted got c z))
  ]
  read_loop_agrees (suc fuel) zero got c o s = inr (
      subst (Loaded zero got c) (sym (read_loop_done (suc fuel) zero got c refl))
        (Loaded-nothing zero got c refl))
  read_loop_agrees (suc fuel) (suc w) got c o s =
      let n = recv_count env c (suc w) in
      let g = recv-Gives env c (suc w) s in
      let once = read_loop_step fuel (suc w) n got c g o (omega arith) in
      elim (Bool-cases (n == 0)) [
        | inl ended ↦ inl (ap (λ r. r.0) once ∙ rw ended refl)
        | inr more ↦
            let next = read_loop_more fuel (suc w) n got c g o (omega arith) more in
            elim (read_loop_agrees fuel (suc w - n) (got ++ take n c.inbound) (received c n) o s) [
              | inl fails ↦ inl (ap (λ r. r.0) next ∙ fails)
              | inr later ↦ inr (
                  subst (Loaded (suc w) got c) (sym next)
                    (Loaded-join (suc w) n got c _ g.at_most g.available later))
            ]
      ]

  -- The stream holds `wanted` bytes and no `recv` fails: they are read.
  pub read_loop_enough :
      (fuel wanted : ℕ) (got : Bytes) (c : Connection)
      → NeverFails env
      → wanted ≤ fuel
      → c.is_open ≡ true
      → c.is_shut ≡ false
      → wanted ≤ length c.inbound
      → Loaded wanted got c (read_loop env fuel wanted got c)
  read_loop_enough zero wanted got c a f o s h =
      let z : wanted ≡ 0 = omega arith in
      subst (Loaded wanted got c) (sym (read_loop_done zero wanted got c z))
        (Loaded-nothing wanted got c z)
  read_loop_enough (suc fuel) zero got c a f o s h =
      subst (Loaded zero got c) (sym (read_loop_done (suc fuel) zero got c refl))
        (Loaded-nothing zero got c refl)
  read_loop_enough (suc fuel) (suc w) got c a f o s h =
      let n = recv_count env c (suc w) in
      let g = recv-Gives env c (suc w) s in
      let p : 0 < n = g.progress (a c.receives) (omega arith) (omega arith) in
      let more : (n == 0) ≡ false = ground arith in
      let next = read_loop_more fuel (suc w) n got c g o (omega arith) more in
      subst (Loaded (suc w) got c) (sym next) (
        Loaded-join (suc w) n got c _ g.at_most g.available (
          read_loop_enough fuel (suc w - n) (got ++ take n c.inbound) (received c n) a (omega arith)
            o s (omega (arith, length-drop n c.inbound))))

  -- The stream ends before `wanted` bytes: the read fails.
  pub read_loop_lacking :
      (fuel wanted : ℕ) (got : Bytes) (c : Connection)
      → c.is_open ≡ true
      → c.is_shut ≡ false
      → length c.inbound < wanted
      → (read_loop env fuel wanted got c).0 ≡ none
  read_loop_lacking zero wanted got c o s h = unfold read_loop in ground arith
  read_loop_lacking (suc fuel) wanted got c o s h =
      let n = recv_count env c wanted in
      let g = recv-Gives env c wanted s in
      let once = read_loop_step fuel wanted n got c g o (omega arith) in
      elim (Bool-cases (n == 0)) [
        | inl ended ↦ ap (λ r. r.0) once ∙ rw ended refl
        | inr more ↦
            ap (λ r. r.0) once
            ∙ rw more (
                read_loop_lacking fuel (wanted - n) (got ++ take n c.inbound) (received c n) o s
                  (omega (arith, length-drop n c.inbound, g.available)))
      ]
