-- ===== src/Text/Utf8.antt =====
-- `str::from_utf8` and `String::from_utf8_lossy` of the standard library: a scan over the bytes
-- with the range that the next byte must lie in. A maximal ill-formed part becomes one U+FFFD.
use pg_x.Base.{
  ℕ, zero, suc, ◌≡◌, refl, sym, ap, ◌∙◌, Option-cases, inl, inr, Bool, true, false, ◌&&◌, Option,
  none, some, [], ◌∷◌, ◌++◌, arith, ltb, leb, ◌==◌, if◌then◌else◌,
}
use mathlib.Core.List.{append-nil, append_assoc}
use pg_x.Text.{Bytes, Text}

pub data Lead : Type 0 where
  ascii invalid : Lead
  -- the range of the second byte, and how many continuation bytes follow it
  needs : ℕ → ℕ → ℕ → Lead

abbrev within : ℕ → ℕ → ℕ → Bool
within lo hi c = leb lo c && leb c hi

lead : ℕ → Lead
lead c =
    if ltb c 0x80
    then ascii
    else if within 0xc2 0xdf c
    then needs 0x80 0xbf 0
    else if c == 0xe0
    then needs 0xa0 0xbf 1
    else if c == 0xed
    then needs 0x80 0x9f 1
    else if within 0xe1 0xef c
    then needs 0x80 0xbf 1
    else if c == 0xf0
    then needs 0x90 0xbf 2
    else if within 0xf1 0xf3 c
    then needs 0x80 0xbf 2
    else if c == 0xf4
    then needs 0x80 0x8f 2
    else invalid

pub data State : Type 0 where
  idle : State
  -- range of the next byte, continuation bytes after it, bytes of the character so far
  want : ℕ → ℕ → ℕ → Bytes → State

abbrev replacement : Text
replacement = 0xef ∷ 0xbf ∷ 0xbd ∷ []

-- One byte: what is known to be text now, and the next state; `none` where the bytes are no text.
start : ℕ → Lead → Option (Text × State)
start c ascii = some (c ∷ [], idle)
start c invalid = none
start c (needs lo hi more) = some ([], want lo hi more (c ∷ []))

continue : ℕ → Bytes → ℕ → Text × State
continue zero buf c = (buf ++ c ∷ [], idle)
continue (suc more) buf c = ([], want 0x80 0xbf more (buf ++ c ∷ []))

step : State → ℕ → Option (Text × State)
step idle c = start c (lead c)
step (want lo hi more buf) c = if within lo hi c then some (continue more buf c) else none

-- What has to be read again after a replacement: the byte itself, if it did not begin the part.
restart : State → ℕ → Text × State
restart idle c = (replacement, idle)
restart (want lo hi more buf) c = elim (start c (lead c)) [
  | none ↦ (replacement ++ replacement, idle)
  | some r ↦ (replacement ++ r.0, r.1)
]

lossy_step : State → ℕ → Text × State
lossy_step s c = elim (step s c) [ none ↦ restart s c | some r ↦ r ]

pending : State → Bytes
pending idle = []
pending (want _ _ _ buf) = buf

finish : State → Text
finish idle = []
finish (want _ _ _ _) = replacement

lossy : State → Bytes → Text
lossy s [] = finish s
lossy s (c ∷ cs) = (lossy_step s c).0 ++ lossy (lossy_step s c).1 cs

-- `String::from_utf8_lossy`.
unfoldable pub from_utf8_lossy : Bytes → Text
unfolding lossy lossy_step restart step start continue lead finish
from_utf8_lossy = lossy idle

is_idle : State → Bool
is_idle idle = true
is_idle (want _ _ _ _) = false

valid : State → Bytes → Bool
valid s [] = is_idle s
valid s (c ∷ cs) = elim (step s c) [ none ↦ false | some r ↦ valid r.1 cs ]

-- Whether `str::from_utf8` succeeds.
unfoldable pub is_utf8 : Bytes → Bool
unfolding valid step start continue lead is_idle
is_utf8 = valid idle

-- A byte is kept in the output or in the state.
step-pending :
    (s : State) (c : ℕ) {r : Text × State}
    → step s c ≡ some r
    → r.0 ++ pending r.1 ≡ pending s ++ c ∷ []
unfolding step start pending continue
step-pending idle c h = ground arith
step-pending (want lo hi zero buf) c h = ground (arith, append-nil (buf ++ c ∷ []))
step-pending (want lo hi (suc more) buf) c h = ground arith

lossy-valid : (cs : Bytes) (s : State) → valid s cs ≡ true → lossy s cs ≡ pending s ++ cs
unfolding valid lossy lossy_step pending finish is_idle
lossy-valid [] idle h = refl
lossy-valid [] (want lo hi more buf) h = cc
lossy-valid (c ∷ cs) s h = elim (Option-cases (step s c)) [
  | inl e ↦ cc (rw (e, valid) at h)
  | inr (r, e) ↦
      let ih = lossy-valid cs r.1 (rw (e, valid) at h) in
      rw (e, lossy_step)
        (ap (λ t. r.0 ++ t) ih
          ∙ sym (append_assoc r.0 (pending r.1) cs)
          ∙ ap (λ t. t ++ cs) (step-pending s c e)
          ∙ append_assoc (pending s) (c ∷ []) cs)
]

-- Bytes that are valid UTF-8 are taken over unchanged.
pub from_utf8_lossy-is_utf8 : (cs : Bytes) → is_utf8 cs ≡ true → from_utf8_lossy cs ≡ cs
unfolding is_utf8 from_utf8_lossy pending
from_utf8_lossy-is_utf8 cs h = lossy-valid cs idle h
