-- ===== src/Base/Prefixes.antt =====
-- A prefix of a text is what stands in front of the rest.
use Prim.Native.Char.{code}
use Prim.Native.String.{String}
use mathlib.Core.Path.{◌≡◌, ap}
use mathlib.Core.Logic.{inl, inr}
use mathlib.Core.Option.{some}
use native.Mathlib.Omega.{arith}
use text.Mathlib.TextEquality.{Char-path}
use text.Mathlib.TextLemmas.{nil-append, cons-append}
use capability_os.Base.Tests.{eqb, Bool-cases}
use capability_os.Base.Texts.{◌⋯◌, strip_prefix}

pub strip_prefix-append : (p t : String) → strip_prefix p (p ⋯ t) ≡ some t
unfolding strip_prefix
strip_prefix-append String.[] t = rw nil-append
strip_prefix-append (String.◌∷◌ c p) t = rw cons-append (ground (arith, strip_prefix-append p t))

pub append_of_strip_prefix : (p s t : String) → strip_prefix p s ≡ some t → s ≡ p ⋯ t
unfolding strip_prefix
append_of_strip_prefix String.[] s t h = rw nil-append (ground arith)
append_of_strip_prefix (String.◌∷◌ d p) String.[] t h = cc
append_of_strip_prefix (String.◌∷◌ d p) (String.◌∷◌ c s) t h =
    elim (Bool-cases (eqb (code d) (code c))) [
      | inl same ↦
          let found : strip_prefix p s ≡ some t = ground arith in
          rw cons-append (
            rw (Char-path d c (ground arith))
              (ap (String.◌∷◌ c) (append_of_strip_prefix p s t found)))
      | inr differs ↦ ground arith
    ]
