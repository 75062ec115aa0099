-- ===== src/App/DeviceCoordinator/Order.antt =====
-- The order in which `Begin` puts the devices.
use ipad_second_display.Common.{
  ℕ, zero, suc, ◌+◌, ◌<◌, ◌≡◌, refl, Bool, true, false, ◌&&◌, not, List, [], ◌∷◌, ◌++◌, none, some,
  arith, sym, ◌∙◌, append-nil, append_assoc, inl, inr, ◌==◌, ltb, get_elem?, if◌then◌else◌, Bytes,
  bytes_eq, is_empty, Bool-cases,
}
use ipad_second_display.App.Config.{DeviceConfig}
use ipad_second_display.App.DeviceCoordinator.{
  contains, push_preferred, push_remaining, begin_order, begin, start_with,
}

-- How often an index stands in an order.
unfoldable pub count : ℕ → List ℕ → ℕ
count i [] = 0
count i (x ∷ xs) = (if x == i then 1 else 0) + count i xs

count-append : (i : ℕ) (xs ys : List ℕ) → count i (xs ++ ys) ≡ count i xs + count i ys
unfolding count
count-append i [] ys = omega arith
count-append i (x ∷ xs) ys = omega (arith, count-append i xs ys)

count_nil : (j : ℕ) → count j [] ≡ 0
unfolding count
count_nil j = refl

count_one : (j i : ℕ) → count j (i ∷ []) ≡ (if i == j then 1 else 0)
unfolding count
count_one j i = omega arith

count-contains : (i : ℕ) (xs : List ℕ) → contains xs i ≡ ltb 0 (count i xs)
unfolding count contains
count-contains i [] = refl
count-contains i (x ∷ xs) = ground (arith, count-contains i xs)

-- Device `i` of the list passes the test; there is no device past the end.
abbrev pub passes : (DeviceConfig → Bool) → List DeviceConfig → ℕ → Bool
passes test ds i = elim (get_elem? ds i) [ none ↦ false | some d ↦ test d ]

-- It is set to connect by itself.
abbrev pub is_eligible : List DeviceConfig → ℕ → Bool
is_eligible = passes (λ d. d.auto_connect)

-- It also has the preferred id.
abbrev pub is_preferred : Bytes → List DeviceConfig → ℕ → Bool
is_preferred p = passes (λ d. d.auto_connect && bytes_eq d.id p)

abbrev bit : Bool → ℕ
bit b = if b then 1 else 0

-- `passes` where the head of the list has index `i`.
passes_from : (DeviceConfig → Bool) → ℕ → List DeviceConfig → ℕ → Bool
passes_from test i [] j = false
passes_from test i (d ∷ ds) j =
    let rest = passes_from test (suc i) ds j in if i == j then test d else rest

module _ (test : DeviceConfig → Bool) where
  passes_from_below : (ds : List DeviceConfig) (i j : ℕ) → j < i → passes_from test i ds j ≡ false
  unfolding passes_from
  passes_from_below [] i j h = refl
  passes_from_below (d ∷ ds) i j h = ground (arith, passes_from_below ds (suc i) j)

  passes_from-passes :
      (ds : List DeviceConfig) (i k : ℕ) → passes_from test i ds (i + k) ≡ passes test ds k
  unfolding passes_from
  passes_from-passes [] i k = refl
  passes_from-passes (d ∷ ds) i zero = ground arith
  passes_from-passes (d ∷ ds) i (suc k) =
      let e : i + suc k ≡ suc i + k = omega arith in
      rw e (ground (arith, passes_from-passes ds (suc i) k))

preferred_from : Bytes → ℕ → List DeviceConfig → ℕ → Bool
preferred_from p = passes_from (λ d. d.auto_connect && bytes_eq d.id p)

eligible_from : ℕ → List DeviceConfig → ℕ → Bool
eligible_from = passes_from (λ d. d.auto_connect)

count-push_preferred :
    (p : Bytes) (j : ℕ) (ds : List DeviceConfig) (order : List ℕ) (i : ℕ)
    → count j (push_preferred order i ds p) ≡ count j order + bit (preferred_from p i ds j)
unfolding push_preferred preferred_from passes_from
count-push_preferred p j [] order i = omega arith
count-push_preferred p j (d ∷ ds) order i = ground (
  arith,
  count-push_preferred p j ds (if d.auto_connect && bytes_eq d.id p then order ++ i ∷ [] else order)
      (suc i),
  count-append j order (i ∷ []),
  count_one j i,
  passes_from_below (λ (e : DeviceConfig). e.auto_connect && bytes_eq e.id p) ds (suc i) j,
)

count-push_remaining :
    (j : ℕ) (ds : List DeviceConfig) (order : List ℕ) (i : ℕ)
    → count j (push_remaining order i ds)
      ≡ count j order + bit (eligible_from i ds j && not (ltb 0 (count j order)))
unfolding push_remaining eligible_from passes_from
count-push_remaining j [] order i = omega arith
count-push_remaining j (d ∷ ds) order i = ground (
  arith,
  count-push_remaining j ds
      (if d.auto_connect && not (contains order i) then order ++ i ∷ [] else order) (suc i),
  count-append j order (i ∷ []),
  count_one j i,
  count-contains i order,
  passes_from_below (λ (e : DeviceConfig). e.auto_connect) ds (suc i) j,
)

eligible_from_zero : (ds : List DeviceConfig) (j : ℕ) → eligible_from 0 ds j ≡ is_eligible ds j
unfolding eligible_from
eligible_from_zero ds j =
    let e : 0 + j ≡ j = omega arith in rw e at (passes_from-passes (λ d. d.auto_connect) ds 0 j)

preferred_from_zero :
    (p : Bytes) (ds : List DeviceConfig) (j : ℕ) → preferred_from p 0 ds j ≡ is_preferred p ds j
unfolding preferred_from
preferred_from_zero p ds j =
    let e : 0 + j ≡ j = omega arith in
    rw e at (passes_from-passes (λ d. d.auto_connect && bytes_eq d.id p) ds 0 j)

preferred_eligible :
    (p : Bytes) (ds : List DeviceConfig) (j : ℕ)
    → is_preferred p ds j ≡ true
    → is_eligible ds j ≡ true
preferred_eligible p ds j h = ground arith

count-begin_order :
    (ds : List DeviceConfig) (p : Bytes) (j : ℕ)
    → count j (begin_order ds p) ≡ bit (is_eligible ds j)
unfolding begin_order
count-begin_order ds p j = ground (
  arith,
  count-push_remaining j ds (if not (is_empty p) then push_preferred [] 0 ds p else []) 0,
  count-push_preferred p j ds [] 0,
  eligible_from_zero ds j,
  preferred_from_zero p ds j,
  preferred_eligible p ds j,
  count_nil j,
)

start_with-order : (order : List ℕ) → (start_with order).0.order ≡ order
unfolding start_with
start_with-order [] = refl
start_with-order (i ∷ order) = refl

-- The order that `Begin` leaves holds each device that connects by itself exactly once, and no
-- other index.
pub count-begin :
    (ds : List DeviceConfig) (preferred : Bytes) (j : ℕ)
    → count j (begin ds preferred).0.order ≡ (if is_eligible ds j then 1 else 0)
unfolding begin
count-begin ds preferred j = rw start_with-order (count-begin_order ds preferred j)

push_remaining-prefix :
    (ds : List DeviceConfig) (order : List ℕ) (i : ℕ)
    → (more : List ℕ) × (push_remaining order i ds ≡ order ++ more)
unfolding push_remaining
push_remaining-prefix [] order i = ([], sym (append-nil order))
push_remaining-prefix (d ∷ ds) order i =
    elim (Bool-cases (d.auto_connect && not (contains order i))) [
      | inl new ↦
          let (more, e) = push_remaining-prefix ds (order ++ i ∷ []) (suc i) in
          (i ∷ more, rw new (e ∙ append_assoc order (i ∷ []) more))
      | inr old ↦ let (more, e) = push_remaining-prefix ds order (suc i) in (more, rw old e)
    ]

count_head : (i : ℕ) (xs : List ℕ) → 0 < count i (i ∷ xs)
unfolding count
count_head i xs = ground arith

-- Where a device that connects by itself has the preferred id, and the id is not empty, `Begin`
-- returns such a device.
pub begin-preferred :
    (ds : List DeviceConfig) (preferred : Bytes) (j : ℕ)
    → is_empty preferred ≡ false
    → is_preferred preferred ds j ≡ true
    → (i : ℕ) × ((begin ds preferred).1 ≡ some i) × (is_preferred preferred ds i ≡ true)
unfolding begin begin_order
begin-preferred ds preferred j named h = pick (push_preferred [] 0 ds preferred) refl
  where
    counted :
        (i : ℕ) → count i (push_preferred [] 0 ds preferred) ≡ bit (is_preferred preferred ds i)
    counted i = ground (
      arith,
      count-push_preferred preferred i ds [] 0,
      preferred_from_zero preferred ds i,
      count_nil i,
    )

    pick :
        (first : List ℕ)
        → push_preferred [] 0 ds preferred ≡ first
        → (i : ℕ) × ((start_with (begin_order ds preferred)).1 ≡ some i)
          × (is_preferred preferred ds i ≡ true)
    pick [] e = absurd (ground (arith, counted j, count_nil j))
    pick (i ∷ first) e =
        let (more, f) = push_remaining-prefix ds (push_preferred [] 0 ds preferred) 0 in
        (
          i,
          (rw (named, f, e) (unfold start_with in refl)),
          ground (arith, counted i, count_head i first),
        )
