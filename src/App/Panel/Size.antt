-- ===== src/App/Panel/Size.antt =====
-- The panel sizes that a `hello` may ask for.
use ipad_second_display.Common.{
  ℕ, ◌+◌, ◌*◌, ◌%◌, ◌≤◌, ◌≡◌, ◌≢◌, ◌↔◌, ◌⊎◌, inl, inr, subst, Bool-cases, ◌==◌, none, some, arith,
}
use ipad_second_display.Common.Int.{ℤ, pos, negsuc}
use ipad_second_display.App.Panel.{normalize_panel_size, even_part, min_axis, max_axis, max_pixels}

-- An axis that was accepted: even, within the limits, and at most one pixel less than asked.
pub record IsAxis (raw : ℤ) (axis : ℕ) : Type 0 where
  pub even : axis % 2 ≡ 0
  pub at_least : min_axis ≤ axis
  pub at_most : axis ≤ max_axis
  pub close : (raw ≡ pos axis) ⊎ (raw ≡ pos (axis + 1))

-- The limits on a size as received.
record InLimits (w h : ℕ) : Type 0 where
  wide : min_axis ≤ w
  not_too_wide : w ≤ max_axis
  high : min_axis ≤ h
  not_too_high : h ≤ max_axis
  few_pixels : w * h ≤ max_pixels

normalize_inside :
    (w h : ℕ)
    → InLimits w h
    → normalize_panel_size (pos w) (pos h) ≡ some (even_part w, even_part h)
unfolding normalize_panel_size
normalize_inside w h v = ground arith

normalize-InLimits : (w h : ℕ) → normalize_panel_size (pos w) (pos h) ≢ none → InLimits w h
unfolding normalize_panel_size
normalize-InLimits w h e = record {
  wide = ground arith;
  not_too_wide = ground arith;
  high = ground arith;
  not_too_high = ground arith;
  few_pixels = ground arith;
}

even_part-IsAxis : (x : ℕ) → min_axis ≤ x → x ≤ max_axis → IsAxis (pos x) (even_part x)
even_part-IsAxis x low high = record {
  even = omega arith;
  at_least = omega arith;
  at_most = omega arith;
  close = elim (Bool-cases (x % 2 == 0)) [
    | inl e ↦ inl (ground arith)
    | inr e ↦ inr (ground arith)
  ];
}

even_area : (w h : ℕ) → even_part w * even_part h ≤ w * h
even_area w h = grind arith

positive_axes :
    (w h : ℕ) {w' h' : ℕ}
    → normalize_panel_size (pos w) (pos h) ≡ some (w', h')
    → IsAxis (pos w) w' × IsAxis (pos h) h' × (w' * h' ≤ max_pixels)
positive_axes w h {w'} {h'} e =
    let v = normalize-InLimits w h (λ n. cc) in
    let even : (even_part w ≡ w') × (even_part h ≡ h') = ground (arith, normalize_inside w h v) in
    (
      subst (IsAxis (pos w)) even.0 (even_part-IsAxis w v.wide v.not_too_wide),
      subst (IsAxis (pos h)) even.1 (even_part-IsAxis h v.high v.not_too_high),
      rw (← even.0, ← even.1) (omega (arith, even_area w h, v.few_pixels)),
    )

-- An accepted size has two even axes within 320 to 8192 that are the receiver's, less a pixel
-- where one was odd, and fits the pixel limit.
pub normalize_panel_size-IsAxis :
    (raw_width raw_height : ℤ) {w h : ℕ}
    → normalize_panel_size raw_width raw_height ≡ some (w, h)
    → IsAxis raw_width w × IsAxis raw_height h × (w * h ≤ max_pixels)
unfolding normalize_panel_size
normalize_panel_size-IsAxis (pos w) (pos h) e = positive_axes w h e
normalize_panel_size-IsAxis (pos w) (negsuc h) e = cc
normalize_panel_size-IsAxis (negsuc w) (pos h) e = cc
normalize_panel_size-IsAxis (negsuc w) (negsuc h) e = cc

-- Every size within the limits is accepted, and only such a size.
pub normalize_panel_size-none :
    (w h : ℕ)
    → (normalize_panel_size (pos w) (pos h) ≢ none)
      ↔ ((min_axis ≤ w) × (w ≤ max_axis) × (min_axis ≤ h) × (h ≤ max_axis) × (w * h ≤ max_pixels))
normalize_panel_size-none w h = (
  λ e.
      let v = normalize-InLimits w h e in
      (v.wide, v.not_too_wide, v.high, v.not_too_high, v.few_pixels),
  λ (a, b, c, d, p) e.
      let inside =
        normalize_inside w h
          (record { wide = a; not_too_wide = b; high = c; not_too_high = d; few_pixels = p }) in
      cc inside,
)
