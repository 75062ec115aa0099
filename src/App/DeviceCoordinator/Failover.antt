-- ===== src/App/DeviceCoordinator/Failover.antt =====
-- Failures one after the other, and the states that any calls can reach.
use ipad_second_display.Common.{
  ℕ, zero, suc, ◌+◌, ◌≤◌, ◌<◌, ◌≡◌, ◌≢◌, ◌↔◌, ◌∙◌, Bool-cases, ◌⊎◌, inl, inr, refl, Bool, true,
  false, List, [], ◌∷◌, Option, none, some, arith, ◌==◌, length, get_elem?, if◌then◌else◌, Bytes,
}
use ipad_second_display.App.Config.{DeviceConfig}
use ipad_second_display.App.DeviceCoordinator.Order.{count, is_eligible, count-begin}
use ipad_second_display.App.DeviceCoordinator.{
  DeviceCoordinator, trying, waiting_next, exhausted, DeviceFailureClass, device, global, reset,
  begin, start_with, begin_order, report_failure, report_device_failure, report_streaming,
  request_switch, complete_switch, current, is_switching,
}

-- The object after `k` failures of single devices.
unfoldable pub after_failures : ℕ → DeviceCoordinator → DeviceCoordinator
after_failures zero c = c
after_failures (suc k) c = (report_failure (after_failures k c) device).0

-- What the calls return: `Begin` first, then each failure.
unfoldable pub offer : List DeviceConfig → Bytes → ℕ → Option ℕ
offer ds preferred zero = (begin ds preferred).1
offer ds preferred (suc k) = (report_failure (after_failures k (begin ds preferred).0) device).1

record AtPosition (c : DeviceCoordinator) (k : ℕ) (d : DeviceCoordinator) : Type 0 where
  same_order : d.order ≡ c.order
  inside :
      k < length c.order → (d.position ≡ k) × (d.state ≡ (if k == 0 then c.state else waiting_next))
  outside : length c.order ≤ k → (length c.order ≤ d.position + 1) × (0 < k → d.state ≡ exhausted)

after_failures-AtPosition :
    (c : DeviceCoordinator) → c.position ≡ 0 → (k : ℕ) → AtPosition c k (after_failures k c)
unfolding after_failures report_failure report_device_failure
after_failures-AtPosition c start zero = record {
  same_order = refl;
  inside = λ h. (start, refl);
  outside = λ h. (omega arith, λ p. absurd (omega arith));
}
after_failures-AtPosition c start (suc k) =
    let ih = after_failures-AtPosition c start k in
    record {
      same_order = ground (arith, ih.same_order);
      inside = λ h. ground (arith, ih.same_order, ih.inside (omega arith));
      outside = λ h. ground (arith, ih.same_order, ih.inside, ih.outside);
    }

get_elem?_above : (xs : List ℕ) (k : ℕ) → length xs ≤ k → get_elem? xs k ≡ none
get_elem?_above [] k h = refl
get_elem?_above (x ∷ xs) zero h = absurd (omega arith)
get_elem?_above (x ∷ xs) (suc k) h = get_elem?_above xs k (omega arith)

begin_first :
    (order : List ℕ)
    → ((start_with order).1 ≡ get_elem? order 0)
      × ((start_with order).0.position ≡ 0)
      × ((start_with order).0.order ≡ order)
      × ((start_with order).0.state ≡ (if length order == 0 then exhausted else trying))
unfolding start_with
begin_first [] = (refl, refl, refl, refl)
begin_first (i ∷ order) = (refl, refl, refl, ground arith)

-- `Begin` and then one device failure after the other return the order's entries one by one, and
-- nothing from there on.
pub offer_lem :
    (ds : List DeviceConfig) (preferred : Bytes) (k : ℕ)
    → offer ds preferred k ≡ get_elem? (begin ds preferred).0.order k
unfolding offer report_failure report_device_failure begin
offer_lem ds preferred zero = ground (arith, begin_first (begin_order ds preferred))
offer_lem ds preferred (suc k) =
    let c = (start_with (begin_order ds preferred)).0 in
    let first = begin_first (begin_order ds preferred) in
    let at = after_failures-AtPosition c first.1 k in
    ground (arith, at.same_order, at.inside, at.outside, get_elem?_above c.order (suc k))

state_of-AtPosition :
    (c d : DeviceCoordinator) (k : ℕ)
    → AtPosition c k d
    → c.state ≡ (if length c.order == 0 then exhausted else trying)
    → (k ≡ 0 → d.state ≡ c.state)
    → (d.state ≡ exhausted) ↔ (length c.order ≤ k)
state_of-AtPosition c d k at s z =
    (λ h. ground (arith, at.inside, at.outside), λ h. ground (arith, at.inside, at.outside))

after_failures_zero : (c : DeviceCoordinator) (k : ℕ) → k ≡ 0 → (after_failures k c).state ≡ c.state
unfolding after_failures
after_failures_zero c zero h = refl
after_failures_zero c (suc k) h = absurd (omega arith)

-- The attempts end: after as many failures as there are candidates the state is `exhausted`, and
-- before that it is not.
pub exhausted_iff :
    (ds : List DeviceConfig) (preferred : Bytes) (k : ℕ)
    → ((after_failures k (begin ds preferred).0).state ≡ exhausted)
      ↔ (length (begin ds preferred).0.order ≤ k)
unfolding begin
exhausted_iff ds preferred k =
    let c = (start_with (begin_order ds preferred)).0 in
    let first = begin_first (begin_order ds preferred) in
    state_of-AtPosition c (after_failures k c) k (after_failures-AtPosition c first.1 k)
      (ground (arith, first)) (after_failures_zero c k)

index_of_count :
    (i : ℕ) (xs : List ℕ) → 0 < count i xs → (k : ℕ) × (k < length xs) × (get_elem? xs k ≡ some i)
unfolding count
index_of_count i [] h = absurd (omega arith)
index_of_count i (x ∷ xs) h = elim (Bool-cases (x == i)) [
  | inl here ↦ (0, omega arith, ground arith)
  | inr there ↦ let (k, inside, e) = index_of_count i xs (ground arith) in (suc k, omega arith, e)
]

-- Every device that connects by itself is offered by some call before the state is `exhausted`.
pub offer-eligible :
    (ds : List DeviceConfig) (preferred : Bytes) (i : ℕ)
    → is_eligible ds i ≡ true
    → (k : ℕ) × (offer ds preferred k ≡ some i)
      × ((after_failures k (begin ds preferred).0).state ≢ exhausted)
offer-eligible ds preferred i h =
    let (k, inside, e) =
      index_of_count i (begin ds preferred).0.order (ground (arith, count-begin ds preferred i)) in
    (
      k,
      offer_lem ds preferred k ∙ e,
      λ done. absurd (omega (arith, (exhausted_iff ds preferred k).0 done)),
    )

-- The calls, in any order and with any arguments.
pub data Call : Type 0 where
  begins : List DeviceConfig → Bytes → Call
  fails : DeviceFailureClass → Call
  streams : Bytes → Call
  switches : ℕ → Call
  completes : Bool → Call
  resets : Call

unfoldable pub call : DeviceCoordinator → Call → DeviceCoordinator
call c (begins ds preferred) = (begin ds preferred).0
call c (fails class) = (report_failure c class).0
call c (streams id) = report_streaming c id
call c (switches i) = (request_switch c i).0
call c (completes ok) = complete_switch c ok
call c resets = reset

unfoldable pub run : DeviceCoordinator → List Call → DeviceCoordinator
run c [] = c
run c (x ∷ xs) = run (call c x) xs

-- The position points into the order, or is 0 in an empty one; a switch under way has a target.
pub record IsConsistent (c : DeviceCoordinator) : Type 0 where
  pub in_range : (c.position ≡ 0) ⊎ (c.position < length c.order)
  pub has_target : is_switching c.state ≡ true → c.switch_target ≢ none

start_with-IsConsistent : (order : List ℕ) → IsConsistent (start_with order).0
unfolding start_with
start_with-IsConsistent [] = record { in_range = inl refl; has_target = λ h. cc }
start_with-IsConsistent (i ∷ order) = record { in_range = inl refl; has_target = λ h. cc }

call-IsConsistent : (c : DeviceCoordinator) (x : Call) → IsConsistent c → IsConsistent (call c x)
unfolding call begin report_failure report_device_failure report_streaming request_switch
    complete_switch
call-IsConsistent c (begins ds preferred) v = start_with-IsConsistent (begin_order ds preferred)
call-IsConsistent c (fails device) v = record {
  in_range = ground arith;
  has_target = λ h. ground (arith, v.has_target);
}
call-IsConsistent c (fails global) v = record { in_range = v.in_range; has_target = λ h. cc }
call-IsConsistent c (streams id) v = record { in_range = v.in_range; has_target = λ h. cc }
call-IsConsistent c (switches i) v = record {
  in_range = ground arith;
  has_target = λ h. ground (arith, v.has_target);
}
call-IsConsistent c (completes ok) v = record {
  in_range = v.in_range;
  has_target = λ h. ground arith;
}
call-IsConsistent c resets v = record { in_range = inl refl; has_target = λ h. cc }

run-IsConsistent :
    (xs : List Call) (c : DeviceCoordinator) → IsConsistent c → IsConsistent (run c xs)
unfolding run
run-IsConsistent [] c v = v
run-IsConsistent (x ∷ xs) c v = run-IsConsistent xs (call c x) (call-IsConsistent c x v)

get_elem?_below : (xs : List ℕ) (k : ℕ) → k < length xs → get_elem? xs k ≢ none
get_elem?_below [] k h = absurd (omega arith)
get_elem?_below (x ∷ xs) zero h = λ e. cc
get_elem?_below (x ∷ xs) (suc k) h = get_elem?_below xs k (omega arith)

current-IsConsistent :
    (c : DeviceCoordinator)
    → IsConsistent c
    → current c ≡ none
    → (c.order ≡ []) × (is_switching c.state ≡ false)
unfolding current
current-IsConsistent c v h =
    (ground (arith, v.has_target, get_elem?_below c.order c.position), ground (arith, v.has_target))

-- Whatever calls were made on a new object, `Current` has no candidate only where no device is
-- in the order; while a user's switch is under way it always has one.
pub current-none :
    (xs : List Call)
    → current (run reset xs) ≡ none
    → ((run reset xs).order ≡ []) × (is_switching (run reset xs).state ≡ false)
current-none xs h =
    current-IsConsistent _
      (run-IsConsistent xs reset (record { in_range = inl refl; has_target = λ e. cc })) h
