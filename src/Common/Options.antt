-- ===== src/Common/Options.antt =====
-- The combinators of Rust's `Option`.
use mathlib.Core.Bool.{Bool, true, false}
use mathlib.Core.Option.{Option, none, some}

module _ {ℓ} {A : Type ℓ} where
  abbrev pub or_else : Option A → Option A → Option A
  or_else (some v) other = some v
  or_else none other = other

  abbrev pub unwrap_or : A → Option A → A
  unwrap_or d none = d
  unwrap_or d (some v) = v

  abbrev pub is_some : Option A → Bool
  is_some none = false
  is_some (some v) = true

module _ {ℓ κ} {A : Type ℓ} {B : Type κ} where
  abbrev pub and_then : Option A → (A → Option B) → Option B
  and_then none f = none
  and_then (some v) f = f v

  abbrev pub map_or : B → (A → B) → Option A → B
  map_or d f none = d
  map_or d f (some v) = f v
