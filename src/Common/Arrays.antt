-- ===== src/Common/Arrays.antt =====
-- Lists by position: Python's slices and slice assignment, and what stands at a position.
use Prim.Native.Nat.{ℕ, zero, suc, ◌+◌, ◌-◌, ◌≤◌, ◌<◌, min}
use mathlib.Core.Path.{◌≡◌, refl, ap, ◌∙◌}
use mathlib.Core.List.{List, [], ◌∷◌, ◌++◌}
use native.Mathlib.Omega.{arith}
use ai_tts.Common.Tests.{ltb, if◌then◌else◌}
use ai_tts.Common.Lists.{length, length-append}

abbrev pub take : ℕ → List ℕ → List ℕ
take zero xs = []
take (suc n) [] = []
take (suc n) (x ∷ xs) = x ∷ take n xs

abbrev pub drop : ℕ → List ℕ → List ℕ
drop zero xs = xs
drop (suc n) [] = []
drop (suc n) (x ∷ xs) = drop n xs

abbrev pub replicate : ℕ → ℕ → List ℕ
replicate zero x = []
replicate (suc n) x = x ∷ replicate n x

-- `xs[lo:hi]`.
unfoldable pub slice : ℕ → ℕ → List ℕ → List ℕ
slice lo hi xs = take (hi - lo) (drop lo xs)

-- `xs[lo:hi] = ys`.
unfoldable pub assign : ℕ → ℕ → List ℕ → List ℕ → List ℕ
assign lo hi ys xs = take lo xs ++ (ys ++ drop hi xs)

-- What stands at a position, 0 beyond the end.
abbrev pub nth : List ℕ → ℕ → ℕ
nth [] i = 0
nth (x ∷ xs) zero = x
nth (x ∷ xs) (suc i) = nth xs i

-- The first `n` values of a function.
abbrev pub tabulate : ℕ → (ℕ → ℕ) → List ℕ
tabulate zero f = []
tabulate (suc n) f = f 0 ∷ tabulate n (λ i. f (suc i))

pub length-take : (n : ℕ) (xs : List ℕ) → length (take n xs) ≡ min n (length xs)
length-take zero xs = omega arith
length-take (suc n) [] = omega arith
length-take (suc n) (x ∷ xs) = omega (arith, length-take n xs)

pub length-drop : (n : ℕ) (xs : List ℕ) → length (drop n xs) ≡ length xs - n
length-drop zero xs = omega arith
length-drop (suc n) [] = omega arith
length-drop (suc n) (x ∷ xs) = omega (arith, length-drop n xs)

pub length-replicate : (n x : ℕ) → length (replicate n x) ≡ n
length-replicate zero x = refl
length-replicate (suc n) x = omega (arith, length-replicate n x)

pub length-tabulate : (n : ℕ) (f : ℕ → ℕ) → length (tabulate n f) ≡ n
length-tabulate zero f = refl
length-tabulate (suc n) f = omega (arith, length-tabulate n (λ i. f (suc i)))

pub length-slice :
    (lo hi : ℕ) (xs : List ℕ) → length (slice lo hi xs) ≡ min (hi - lo) (length xs - lo)
unfolding slice
length-slice lo hi xs = length-take (hi - lo) (drop lo xs) ∙ ap (min (hi - lo)) (length-drop lo xs)

pub nth-append :
    (xs ys : List ℕ) (i : ℕ)
    → nth (xs ++ ys) i ≡ (if ltb i (length xs) then nth xs i else nth ys (i - length xs))
nth-append [] ys i = ground arith
nth-append (x ∷ xs) ys zero = ground arith
nth-append (x ∷ xs) ys (suc i) = ground (arith, nth-append xs ys i)

pub nth-take : (n : ℕ) (xs : List ℕ) (i : ℕ) → nth (take n xs) i ≡ (if ltb i n then nth xs i else 0)
nth-take zero xs i = ground arith
nth-take (suc n) [] i = ground arith
nth-take (suc n) (x ∷ xs) zero = ground arith
nth-take (suc n) (x ∷ xs) (suc i) = ground (arith, nth-take n xs i)

pub nth-drop : (n : ℕ) (xs : List ℕ) (i : ℕ) → nth (drop n xs) i ≡ nth xs (n + i)
nth-drop zero xs i = ground arith
nth-drop (suc n) [] i = refl
nth-drop (suc n) (x ∷ xs) i = nth-drop n xs i ∙ ground arith

pub nth-tabulate : (n : ℕ) (f : ℕ → ℕ) (i : ℕ) → i < n → nth (tabulate n f) i ≡ f i
nth-tabulate zero f i h = absurd (omega arith)
nth-tabulate (suc n) f zero h = refl
nth-tabulate (suc n) f (suc i) h = nth-tabulate n (λ k. f (suc k)) i (omega arith)

pub nth-slice :
    (lo hi : ℕ) (xs : List ℕ) (i : ℕ) → i < hi - lo → nth (slice lo hi xs) i ≡ nth xs (lo + i)
unfolding slice
nth-slice lo hi xs i h = nth-take (hi - lo) (drop lo xs) i ∙ ground (arith, nth-drop lo xs i)

pub length-assign :
    (lo hi : ℕ) (ys xs : List ℕ)
    → lo + length ys ≡ hi
    → hi ≤ length xs
    → length (assign lo hi ys xs) ≡ length xs
unfolding assign
length-assign lo hi ys xs e h = omega (
  arith,
  length-append (take lo xs) (ys ++ drop hi xs),
  length-append ys (drop hi xs),
  length-take lo xs,
  length-drop hi xs,
)

pub nth-assign :
    (lo hi : ℕ) (ys xs : List ℕ) (i : ℕ)
    → lo + length ys ≡ hi
    → hi ≤ length xs
    → nth (assign lo hi ys xs) i
      ≡ (if ltb i lo then nth xs i else if ltb i hi then nth ys (i - lo) else nth xs i)
unfolding assign
nth-assign lo hi ys xs i e h = ground (
  arith,
  nth-append (take lo xs) (ys ++ drop hi xs) i,
  length-take lo xs,
  nth-take lo xs i,
  nth-append ys (drop hi xs) (i - lo),
  nth-drop hi xs (i - lo - length ys),
)

-- Two lists of one length with the same values at each position are the same list.
pub list_ext :
    (xs ys : List ℕ)
    → length xs ≡ length ys
    → ((i : ℕ) → i < length xs → nth xs i ≡ nth ys i)
    → xs ≡ ys
list_ext [] [] e h = refl
list_ext [] (y ∷ ys) e h = absurd (omega arith)
list_ext (x ∷ xs) [] e h = absurd (omega arith)
list_ext (x ∷ xs) (y ∷ ys) e h =
    let rest = list_ext xs ys (omega arith) (λ i l. h (suc i) (omega arith)) in
    ground (arith, h 0 (omega arith))
