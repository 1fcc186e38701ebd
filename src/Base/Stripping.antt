-- ===== src/Base/Stripping.antt =====
-- What `str.strip` leaves is stripped.
use Prim.Native.Char.{Char, code}
use Prim.Native.String.{String}
use mathlib.Core.Path.{◌≡◌, refl, ap, ◌∙◌}
use mathlib.Core.Logic.{inl, inr}
use mathlib.Core.Bool.{false}
use capability_os.Base.Tests.{Bool-cases}
use capability_os.Base.Texts.{is_space, strip_cons, lstrip, rstrip, strip}

-- A text without space at its end, behind one more character.
rstrip-strip_cons :
    (c : Char) (t : String) → rstrip t ≡ t → rstrip (strip_cons c t) ≡ strip_cons c t
unfolding rstrip
rstrip-strip_cons c String.[] h = elim (Bool-cases (is_space (code c))) [
  | inl space ↦ rw space refl
  | inr other ↦ rw other (rw other refl)
]
rstrip-strip_cons c (String.◌∷◌ d t) h = ap (strip_cons c) h

rstrip_idem : (s : String) → rstrip (rstrip s) ≡ rstrip s
unfolding rstrip
rstrip_idem String.[] = refl
rstrip_idem (String.◌∷◌ c s) = rstrip-strip_cons c (rstrip s) (rstrip_idem s)

-- A text that is empty or begins with something else than space.
data IsTrim : String → Type 0 where
  nothing : IsTrim String.[]
  begins : (c : Char) (s : String) → is_space (code c) ≡ false → IsTrim (String.◌∷◌ c s)

lstrip-IsTrim : (s : String) → IsTrim (lstrip s)
unfolding lstrip
lstrip-IsTrim String.[] = nothing
lstrip-IsTrim (String.◌∷◌ c s) = elim (Bool-cases (is_space (code c))) [
  | inl space ↦ rw space (lstrip-IsTrim s)
  | inr other ↦ rw other (begins c s other)
]

strip_cons-IsTrim : (c : Char) (t : String) → is_space (code c) ≡ false → IsTrim (strip_cons c t)
strip_cons-IsTrim c String.[] h = rw h (begins c String.[] h)
strip_cons-IsTrim c (String.◌∷◌ d t) h = begins c (String.◌∷◌ d t) h

rstrip-IsTrim : {s : String} → IsTrim s → IsTrim (rstrip s)
unfolding rstrip
rstrip-IsTrim nothing = nothing
rstrip-IsTrim (begins c s h) = strip_cons-IsTrim c (rstrip s) h

lstrip_of_IsTrim : {s : String} → IsTrim s → lstrip s ≡ s
unfolding lstrip
lstrip_of_IsTrim nothing = refl
lstrip_of_IsTrim (begins c s h) = rw h refl

pub strip_idem : (s : String) → strip (strip s) ≡ strip s
unfolding strip
strip_idem s =
    ap rstrip (lstrip_of_IsTrim (rstrip-IsTrim (lstrip-IsTrim s))) ∙ rstrip_idem (lstrip s)
