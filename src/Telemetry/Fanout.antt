-- ===== src/Telemetry/Fanout.antt =====
-- fanout.go. `H` is a handler of package slog.
use corrupt_cv.Common.{
  ℕ, ◌≡◌, ◌↔◌, refl, ap, Bool, true, false, ◌&&◌, List, [], ◌∷◌, map, arith, select, if◌then◌else◌,
  inl, inr, Bool-cases,
}

-- What the fan-out uses of a handler. A level is a number, from DEBUG up.
pub record Slog (H Rec Attrs : Type 0) : Type 0 where
  pub level_of : Rec → ℕ
  pub enabled : H → ℕ → Bool
  -- whether `Handle` returns no error
  pub handle : H → Rec → Bool
  pub with_attrs : H → Attrs → H
  pub with_group : H → List ℕ → H

module _ {H Rec Attrs : Type 0} (slog : Slog H Rec Attrs) where
  open slog use {level_of, enabled, handle, with_attrs, with_group}

  -- `Enabled`
  unfoldable pub fan_enabled : List H → ℕ → Bool
  fan_enabled [] level = false
  fan_enabled (h ∷ hs) level =
      let rest = fan_enabled hs level in if enabled h level then true else rest

  -- `Handle`: whether it returns nil, and the handlers that get the record.
  unfoldable pub fan_handle : List H → Rec → Bool × List H
  fan_handle [] r = (true, [])
  fan_handle (h ∷ hs) r =
      let (ok, given) = fan_handle hs r in
      if enabled h (level_of r) then (handle h r && ok, h ∷ given) else (ok, given)

  -- `WithAttrs` and `WithGroup`
  unfoldable pub fan_with_attrs : List H → Attrs → List H
  fan_with_attrs hs attrs = map (λ h. with_attrs h attrs) hs

  unfoldable pub fan_with_group : List H → List ℕ → List H
  fan_with_group hs name = map (λ h. with_group h name) hs

  -- A record goes to the handlers that are enabled for its level, in their order, also if one
  -- before fails; the fan-out is enabled for a level if a record of it goes anywhere.
  pub fan_handle-select :
      (hs : List H) (r : Rec)
      → ((fan_handle hs r).1 ≡ select (λ h. enabled h (level_of r)) hs)
        × ((fan_enabled hs (level_of r) ≡ false) ↔ ((fan_handle hs r).1 ≡ []))
  unfolding fan_handle fan_enabled
  fan_handle-select [] r = (refl, ((λ e. refl), (λ e. refl)))
  fan_handle-select (h ∷ hs) r =
      let (given, rest) = fan_handle-select hs r in
      elim (Bool-cases (enabled h (level_of r))) [
        | inl e ↦ rw e (ap (λ gs. h ∷ gs) given, ((λ f. ground arith), (λ f. ground arith)))
        | inr e ↦ rw e (given, rest)
      ]
