-- ===== src/App/Config/Valid/Devices.antt =====
-- The devices that `TryParseConfig` of src/app/Config.cpp makes of an array, whatever it holds.
use ipad_second_display.Common.{
  ℕ, suc, ◌+◌, ◌%◌, ◌^◌, ◌≤◌, ◌≡◌, refl, ap, ◌∙◌, sym, subst, inl, inr, Bool, true, false, List, [],
  ◌∷◌, ◌++◌, append_assoc, append-nil, Option, none, some, length, length-append, Bytes, bytes_eq,
  codes, All, arith, ltb, if◌then◌else◌, Bool-cases, is_empty,
}
use ipad_second_display.Common.Int.{ℤ, pos, negsuc}
use ipad_second_display.App.Config.{DeviceConfig}
use ipad_second_display.App.Config.Json.{
  Json, null, bool, number, text, object, array, Members, no_members, member, Items, no_items, item,
}
use ipad_second_display.App.Config.Json.Total.{Fits, MembersFit, ItemsFit, FitsInt64}
use ipad_second_display.App.Config.Parse.{
  field, get_number, int_field, legacy_device, read_device, is_reachable, read_item, read_items,
  read_array, or_single, insert_device, sort_devices, is_duplicate, any_duplicate, keep_unique,
  renumber, or_old, between, read_devices, string_field,
}
use ipad_second_display.App.Config.Valid.{DeviceFits, IsNumbered, IsDistinct, AreInOrder}

pub between-low :
    (low high old : ℕ) (o : Option ℤ) → low ≤ old → low ≤ or_old (between low high o) old
between-low low high old none h = h
between-low low high old (some (negsuc n)) h = h
between-low low high old (some (pos n)) h = ground arith

pub between-high :
    (low high old : ℕ) (o : Option ℤ) → old ≤ high → or_old (between low high o) old ≤ high
between-high low high old none h = h
between-high low high old (some (negsuc n)) h = h
between-high low high old (some (pos n)) h = ground arith

abbrev pub FieldFits : Option Json → Type 0
FieldFits none = Unit
FieldFits (some v) = Fits v

or_zero_fits : (o : Option Json) → FieldFits o → FitsInt64 (or_old (get_number o) (pos 0))
unfolding Fits
or_zero_fits none h = omega arith
or_zero_fits (some null) h = omega arith
or_zero_fits (some (bool b)) h = omega arith
or_zero_fits (some (number n)) h = h
or_zero_fits (some (text s)) h = omega arith
or_zero_fits (some (object ms)) h = omega arith
or_zero_fits (some (array is)) h = omega arith

pub field-Fits : (ms : Members) (key : Bytes) → MembersFit ms → FieldFits (field ms key)
unfolding field MembersFit
field-Fits no_members key h = tt
field-Fits (member k w ms) key h = elim (Bool-cases (bytes_eq k key)) [
  | inl same ↦ rw same h.0
  | inr other ↦ rw other (field-Fits ms key h.1)
]

read_device-DeviceFits :
    (port size : ℕ) (ms : Members)
    → 1 ≤ port
    → port ≤ 65535
    → MembersFit ms
    → DeviceFits (read_device port size ms)
unfolding read_device
read_device-DeviceFits port size ms h k fit = (
  between-low 1 65535 port (int_field ms (codes "port")) h,
  between-high 1 65535 port (int_field ms (codes "port")) k,
  or_zero_fits (field ms (codes "lastSeen")) (field-Fits ms (codes "lastSeen") fit),
)

legacy_device-DeviceFits :
    (value : Bytes) (port priority : ℕ)
    → 1 ≤ port
    → port ≤ 65535
    → DeviceFits (legacy_device value port priority)
unfolding legacy_device
legacy_device-DeviceFits value port priority h k = (h, k, omega arith)

All-push :
    (ds : List DeviceConfig) (d : DeviceConfig)
    → All DeviceFits ds
    → DeviceFits d
    → All DeviceFits (ds ++ d ∷ [])
All-push [] d h k = (k, tt)
All-push (e ∷ es) d h k = (h.0, All-push es d h.1 k)

if-All :
    (b : Bool) (ds es : List DeviceConfig)
    → All DeviceFits ds
    → All DeviceFits es
    → All DeviceFits (if b then ds else es)
if-All true ds es h k = h
if-All false ds es h k = k

read_item-Fit :
    (port : ℕ) (ds : List DeviceConfig) (v : Json)
    → 1 ≤ port
    → port ≤ 65535
    → Fits v
    → All DeviceFits ds
    → All DeviceFits (read_item port ds v)
unfolding read_item Fits
read_item-Fit port ds null h k fit l = l
read_item-Fit port ds (bool b) h k fit l = l
read_item-Fit port ds (number n) h k fit l = l
read_item-Fit port ds (array is) h k fit l = l
read_item-Fit port ds (text s) h k fit l =
    if-All (is_empty s) ds _ l
      (All-push ds _ l (legacy_device-DeviceFits s port (length ds % 2 ^ 32) h k))
read_item-Fit port ds (object ms) h k fit l =
    if-All (is_reachable (read_device port (length ds) ms)) _ ds
      (All-push ds _ l (read_device-DeviceFits port (length ds) ms h k fit)) l

read_items-Fit :
    (port : ℕ) (ds : List DeviceConfig) (is : Items)
    → 1 ≤ port
    → port ≤ 65535
    → ItemsFit is
    → All DeviceFits ds
    → All DeviceFits (read_items port ds is)
unfolding read_items ItemsFit
read_items-Fit port ds no_items h k fit l = l
read_items-Fit port ds (item v is) h k fit l =
    read_items-Fit port (read_item port ds v) is h k fit.1 (read_item-Fit port ds v h k fit.0 l)

read_array-Fit :
    (port : ℕ) (o : Option Json)
    → 1 ≤ port
    → port ≤ 65535
    → FieldFits o
    → All DeviceFits (read_array port o)
unfolding Fits
read_array-Fit port none h k fit = tt
read_array-Fit port (some null) h k fit = tt
read_array-Fit port (some (bool b)) h k fit = tt
read_array-Fit port (some (number n)) h k fit = tt
read_array-Fit port (some (text s)) h k fit = tt
read_array-Fit port (some (object ms)) h k fit = tt
read_array-Fit port (some (array is)) h k fit = read_items-Fit port [] is h k fit tt

or_single-Fit :
    (port : ℕ) (ip : Bytes) (ds : List DeviceConfig)
    → 1 ≤ port
    → port ≤ 65535
    → All DeviceFits ds
    → All DeviceFits (or_single port ip ds)
or_single-Fit port ip (d ∷ ds) h k l = l
or_single-Fit port [] [] h k l = tt
or_single-Fit port (c ∷ ip) [] h k l = (legacy_device-DeviceFits (c ∷ ip) port 0 h k, tt)

insert_device-Fit :
    (d : DeviceConfig) (ds : List DeviceConfig)
    → DeviceFits d
    → All DeviceFits ds
    → All DeviceFits (insert_device d ds)
unfolding insert_device
insert_device-Fit d [] h k = (h, tt)
insert_device-Fit d (e ∷ es) h k =
    if-All (ltb e.priority d.priority) _ _ (k.0, insert_device-Fit d es h k.1) (h, k)

sort_devices-Fit : (ds : List DeviceConfig) → All DeviceFits ds → All DeviceFits (sort_devices ds)
unfolding sort_devices
sort_devices-Fit [] h = tt
sort_devices-Fit (d ∷ ds) h = insert_device-Fit d (sort_devices ds) h.0 (sort_devices-Fit ds h.1)

keep_unique-Fit :
    (kept ds : List DeviceConfig)
    → All DeviceFits kept
    → All DeviceFits ds
    → All DeviceFits (keep_unique kept ds)
unfolding keep_unique
keep_unique-Fit kept [] h k = h
keep_unique-Fit kept (d ∷ ds) h k =
    keep_unique-Fit (if any_duplicate d kept then kept else kept ++ d ∷ []) ds
      (if-All (any_duplicate d kept) kept _ h (All-push kept d h k.0)) k.1

renumber-Fit : (i : ℕ) (ds : List DeviceConfig) → All DeviceFits ds → All DeviceFits (renumber i ds)
unfolding renumber
renumber-Fit i [] h = tt
renumber-Fit i (d ∷ ds) h = (h.0, renumber-Fit (suc i) ds h.1)

renumber-IsNumbered : (i : ℕ) (ds : List DeviceConfig) → IsNumbered i (renumber i ds)
unfolding renumber
renumber-IsNumbered i [] = tt
renumber-IsNumbered i (d ∷ ds) = (refl, renumber-IsNumbered (suc i) ds)

-- What two devices stand for does not depend on their priorities.
any_duplicate-renumber :
    (d : DeviceConfig) (p i : ℕ) (es : List DeviceConfig)
    → any_duplicate (record d { priority = p }) (renumber i es) ≡ any_duplicate d es
unfolding any_duplicate renumber is_duplicate
any_duplicate-renumber d p i [] = refl
any_duplicate-renumber d p i (e ∷ es) = rw (any_duplicate-renumber d p (suc i) es) refl

renumber-push :
    (i : ℕ) (es : List DeviceConfig) (d : DeviceConfig)
    → renumber i (es ++ d ∷ [])
      ≡ renumber i es ++ record d { priority = (i + length es) % 2 ^ 32 } ∷ []
unfolding renumber
renumber-push i [] d = ap (λ p. record d { priority = p % 2 ^ 32 } ∷ []) (omega arith)
renumber-push i (e ∷ es) d =
    let shift : suc i + length es ≡ i + suc (length es) = omega arith in
    ap (λ rest. record e { priority = i % 2 ^ 32 } ∷ rest)
      (renumber-push (suc i) es d
        ∙ ap (λ n. renumber (suc i) es ++ record d { priority = n % 2 ^ 32 } ∷ []) shift)

renumber-IsDistinct :
    (es ds : List DeviceConfig)
    → IsDistinct es ds
    → IsDistinct (renumber 0 es) (renumber (length es) ds)
unfolding renumber
renumber-IsDistinct es [] h = tt
renumber-IsDistinct es (d ∷ ds) h =
    let none_before : 0 + length es ≡ length es = omega arith in
    let grown : length (es ++ d ∷ []) ≡ suc (length es) =
      omega (arith, length-append es (d ∷ [])) in
    (
      any_duplicate-renumber d (length es % 2 ^ 32) 0 es ∙ h.0,
      subst (λ e. IsDistinct e (renumber (suc (length es)) ds))
          (renumber-push 0 es d
            ∙ ap (λ n. renumber 0 es ++ record d { priority = n % 2 ^ 32 } ∷ []) none_before)
          (subst (λ n. IsDistinct (renumber 0 (es ++ d ∷ [])) (renumber n ds)) grown
            (renumber-IsDistinct (es ++ d ∷ []) ds h.1)),
    )

push-IsDistinct :
    (earlier kept : List DeviceConfig) (d : DeviceConfig)
    → IsDistinct earlier kept
    → any_duplicate d (earlier ++ kept) ≡ false
    → IsDistinct earlier (kept ++ d ∷ [])
push-IsDistinct earlier [] d h k = (ap (any_duplicate d) (sym (append-nil earlier)) ∙ k, tt)
push-IsDistinct earlier (e ∷ kept) d h k = (
  h.0,
  push-IsDistinct (earlier ++ e ∷ []) kept d h.1
      (ap (any_duplicate d) (append_assoc earlier (e ∷ []) kept) ∙ k),
)

keep_unique-IsDistinct :
    (kept ds : List DeviceConfig) → IsDistinct [] kept → IsDistinct [] (keep_unique kept ds)
unfolding keep_unique
keep_unique-IsDistinct kept [] h = h
keep_unique-IsDistinct kept (d ∷ ds) h = elim (Bool-cases (any_duplicate d kept)) [
  | inl known ↦ rw known (keep_unique-IsDistinct kept ds h)
  | inr fresh ↦
      rw fresh (keep_unique-IsDistinct (kept ++ d ∷ []) ds (push-IsDistinct [] kept d h fresh))
]

-- Whatever a settings object holds, its devices fit, are numbered by position, and no two of them stand for one device.
pub read_devices-AreInOrder :
    (port : ℕ) (ms : Members)
    → 1 ≤ port
    → port ≤ 65535
    → MembersFit ms
    → AreInOrder (read_devices port ms)
unfolding read_devices renumber
read_devices-AreInOrder port ms h k fit =
    let found =
      or_single port (string_field ms (codes "ip"))
        (read_array port (field ms (codes "devices"))) in
    let found_fit =
      or_single-Fit port (string_field ms (codes "ip"))
        (read_array port (field ms (codes "devices"))) h k
        (read_array-Fit port (field ms (codes "devices")) h k
          (field-Fits ms (codes "devices") fit)) in
    (
      renumber-Fit 0 (keep_unique [] (sort_devices found))
          (keep_unique-Fit [] (sort_devices found) tt (sort_devices-Fit found found_fit)),
      renumber-IsNumbered 0 (keep_unique [] (sort_devices found)),
      renumber-IsDistinct [] (keep_unique [] (sort_devices found))
          (keep_unique-IsDistinct [] (sort_devices found) tt),
    )
