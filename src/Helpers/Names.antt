-- ===== src/Helpers/Names.antt =====
-- Sanitised file names.
use mathlib.Core.Path.{ap₂}
use crabclaw.Prelude.{Bool-cases, inl, inr, ℕ, ◌≡◌, refl, false, [], ◌∷◌, map, All, nat_eq}
use crabclaw.Prelude.Text.{Text, strip, strip_left, strip_right, trim_before, is_space}
use crabclaw.Helpers.{is_unsafe, sanitize, safe_filename}

-- A text that can be one component of a path.
abbrev pub IsSafe : Text → Type 0
IsSafe = All (λ c. is_unsafe c ≡ false)

sanitize-safe : (c : ℕ) → is_unsafe (sanitize c) ≡ false
sanitize-safe c = elim (Bool-cases (is_unsafe c)) [ inl u ↦ rw u | inr u ↦ rw u u ]

map-sanitize-IsSafe : (s : Text) → IsSafe (map sanitize s)
map-sanitize-IsSafe [] = tt
map-sanitize-IsSafe (c ∷ s) = (sanitize-safe c, map-sanitize-IsSafe s)

sanitize_lem : (c : ℕ) → is_unsafe c ≡ false → sanitize c ≡ c
sanitize_lem c h = rw h

map-sanitize_lem : (s : Text) → IsSafe s → map sanitize s ≡ s
map-sanitize_lem [] h = refl
map-sanitize_lem (c ∷ s) (h, hs) = ap₂ ◌∷◌ (sanitize_lem c h) (map-sanitize_lem s hs)

module _ {ℓ} (P : ℕ → Type ℓ) where
  All-strip_left : (s : Text) → All P s → All P (strip_left s)
  unfolding strip_left
  All-strip_left [] h = h
  All-strip_left (c ∷ s) h = elim (Bool-cases (is_space c)) [
    | inl w ↦ rw w (All-strip_left s h.1)
    | inr w ↦ rw w h
  ]

  All-trim_before : (c : ℕ) (s : Text) → P c → All P s → All P (trim_before c s)
  All-trim_before c [] p h = elim (Bool-cases (is_space c)) [
    | inl w ↦ rw w tt
    | inr w ↦ rw w (p, tt)
  ]
  All-trim_before c (d ∷ s) p h = (p, h)

  All-strip_right : (s : Text) → All P s → All P (strip_right s)
  unfolding strip_right
  All-strip_right [] h = h
  All-strip_right (c ∷ s) h = All-trim_before c (strip_right s) h.0 (All-strip_right s h.1)

  All-strip : (s : Text) → All P s → All P (strip s)
  unfolding strip
  All-strip s h = All-strip_right (strip_left s) (All-strip_left s h)

-- No character of the result of safe_filename is one of those that it replaces, so that no path
-- separator is left.
pub safe_filename-IsSafe : (name : Text) → IsSafe (safe_filename name)
unfolding safe_filename
safe_filename-IsSafe name = All-strip (λ c. is_unsafe c ≡ false) _ (map-sanitize-IsSafe name)
