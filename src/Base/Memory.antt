-- ===== src/Base/Memory.antt =====
-- Byte buffers: `memcpy` with a fault where it would leave a buffer.
use Prim.Native.Nat.{ℕ, ◌+◌, ◌-◌, ◌≤◌, ◌<◌}
use mathlib.Core.Path.{◌≡◌, refl, ◌∙◌}
use mathlib.Core.Logic.{◌⊎◌, inl, inr}
use mathlib.Core.Bool.{◌&&◌}
use mathlib.Core.List.{List, ◌++◌}
use mathlib.Core.Option.{Option, none, some}
use native.Mathlib.Omega.{arith}
use utils_modules.Base.Tests.{leb, if◌then◌else◌}
use utils_modules.Base.Lists.{
  length, get_or, take, drop, length-append, length-take, length-drop, get_or-append_left,
  get_or-append_right, get_or-take, get_or-drop,
}

-- `dst` with the bytes `bs` written at index `at`.
abbrev pub splice : List ℕ → ℕ → List ℕ → List ℕ
splice dst at bs = take at dst ++ (bs ++ drop (at + length bs) dst)

-- memcpy(dst + at, src + from, n): `none` is an access out of a buffer.
unfoldable pub memcpy : List ℕ → ℕ → List ℕ → ℕ → ℕ → Option (List ℕ)
memcpy dst at src from n =
    if leb (at + n) (length dst) && leb (from + n) (length src)
    then some (splice dst at (take n (drop from src)))
    else none

module _ (dst : List ℕ) (at : ℕ) (src : List ℕ) (from n : ℕ) where
  abbrev pub copied : List ℕ
  copied = splice dst at (take n (drop from src))

  pub memcpy-in_bounds :
      at + n ≤ length dst → from + n ≤ length src → memcpy dst at src from n ≡ some copied
  unfolding memcpy
  memcpy-in_bounds h k = ground arith

  pub memcpy-fault : length dst < at + n → memcpy dst at src from n ≡ none
  unfolding memcpy
  memcpy-fault h = ground arith

  module _ (h : at + n ≤ length dst) (k : from + n ≤ length src) where
    chunk-length : length (take n (drop from src)) ≡ n
    chunk-length = omega (arith, length-take n (drop from src), length-drop from src)

    pub length-copied : length copied ≡ length dst
    length-copied = omega (
      arith,
      length-append (take at dst)
          (take n (drop from src) ++ drop (at + length (take n (drop from src))) dst),
      length-append (take n (drop from src)) (drop (at + length (take n (drop from src))) dst),
      length-take at dst,
      length-drop (at + length (take n (drop from src))) dst,
      chunk-length,
    )

    pub copied-inside : (p j : ℕ) → p ≡ at + j → j < n → get_or copied p 0 ≡ get_or src (from + j) 0
    copied-inside p j e lt =
        get_or-append_right (take at dst) _ p j 0 (omega (arith, length-take at dst))
        ∙ get_or-append_left (take n (drop from src)) _ j 0 (omega (arith, chunk-length))
        ∙ get_or-take n (drop from src) j 0 lt
        ∙ get_or-drop from src j (from + j) 0 refl

    pub copied-outside : (p : ℕ) → (p < at) ⊎ (at + n ≤ p) → get_or copied p 0 ≡ get_or dst p 0
    copied-outside p (inl lt) =
        get_or-append_left (take at dst) _ p 0 (omega (arith, length-take at dst))
        ∙ get_or-take at dst p 0 lt
    copied-outside p (inr le) =
        get_or-append_right (take at dst) _ p (p - at) 0 (omega (arith, length-take at dst))
        ∙ get_or-append_right (take n (drop from src)) _ (p - at) (p - at - n) 0
            (omega (arith, chunk-length))
        ∙ get_or-drop (at + length (take n (drop from src))) dst (p - at - n) p 0
            (omega (arith, chunk-length))
