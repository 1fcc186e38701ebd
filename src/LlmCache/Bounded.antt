-- ===== src/LlmCache/Bounded.antt =====
-- The cache of system/core/interpretation/llm_cache.py over its calls.
use capability_os.Base.{
  ℕ, suc, ◌+◌, ◌≤◌, String, true, false, some, [], ◌∷◌, ◌++◌, length, length-append, ltb, contains,
  Distinct, ◌==◌, eq_iff, Dict, lookup, insert, erase, has, keys, Distinct-insert, ◌≡◌, refl, ap,
  ◌∙◌, arith, Bool-cases, Option-cases, inl, inr,
}
use capability_os.LlmCache.Held.{lookup-move_to_end}
use capability_os.LlmCache.{LlmCache, move_to_end, key, trim, put}

abbrev Entry : Type 0
Entry = String × ℕ

has-some : (k : String) (d : Dict Entry) → has k d ≡ true → (v : Entry) × (lookup k d ≡ some v)
unfolding has lookup
has-some k [] h = let bad : false ≡ true = h in cc
has-some k ((i, w) ∷ d) h = elim (Bool-cases (i == k)) [
  | inl hit ↦ (w, rw hit refl)
  | inr miss ↦ let (v, found) = has-some k d (rw miss at h) in (v, rw miss found)
]

length-insert-le : (k : String) (v : Entry) (d : Dict Entry) → length (insert k v d) ≤ length d + 1
unfolding insert
length-insert-le k v [] = omega arith
length-insert-le k v ((i, w) ∷ d) =
    let rest = length-insert-le k v d in
    elim (Bool-cases (i == k)) [ inl hit ↦ rw hit (omega arith) | inr miss ↦ rw miss (omega arith) ]

length-insert-old :
    (k : String) (u v : Entry) (d : Dict Entry)
    → lookup k d ≡ some u
    → length (insert k v d) ≡ length d
unfolding insert lookup
length-insert-old k u v [] h = cc
length-insert-old k u v ((i, w) ∷ d) h = elim (Bool-cases (i == k)) [
  | inl hit ↦ rw hit refl
  | inr miss ↦ rw miss (ap suc (length-insert-old k u v d (rw miss at h)))
]

length-erase-le : (k : String) (d : Dict Entry) → length (erase k d) ≤ length d
unfolding erase
length-erase-le k [] = omega arith
length-erase-le k ((i, w) ∷ d) =
    let rest = length-erase-le k d in
    elim (Bool-cases (i == k)) [ inl hit ↦ rw hit (omega arith) | inr miss ↦ rw miss (omega arith) ]

length-erase-lt :
    (k : String) (v : Entry) (d : Dict Entry)
    → lookup k d ≡ some v
    → length (erase k d) + 1 ≤ length d
unfolding erase lookup
length-erase-lt k v [] h = cc
length-erase-lt k v ((i, w) ∷ d) h = elim (Bool-cases (i == k)) [
  | inl hit ↦ let rest = length-erase-le k d in rw hit (omega arith)
  | inr miss ↦ let rest = length-erase-lt k v d (rw miss at h) in rw miss (omega arith)
]

length-move_to_end-le : (k : String) (d : Dict Entry) → length (move_to_end k d) ≤ length d
unfolding move_to_end
length-move_to_end-le k d = elim (Option-cases (lookup k d)) [
  | inl missing ↦ rw (missing, move_to_end) (omega arith)
  | inr (v, found) ↦
      let less = length-erase-lt k v d found in
      let joined = length-append (erase k d) ((k, v) ∷ []) in rw (found, move_to_end) (omega arith)
]

absent-erase :
    (k j : String) (d : Dict Entry)
    → contains (keys d) j ≡ false
    → contains (keys (erase k d)) j ≡ false
unfolding erase keys
absent-erase k j [] h = refl
absent-erase k j ((i, w) ∷ d) h = elim (Bool-cases (i == k)) [
  | inl hit ↦ rw hit (absent-erase k j d (ground arith))
  | inr miss ↦ rw miss (ground (arith, absent-erase k j d))
]

erased_absent : (k : String) (d : Dict Entry) → contains (keys (erase k d)) k ≡ false
unfolding erase keys
erased_absent k [] = refl
erased_absent k ((i, w) ∷ d) = elim (Bool-cases (i == k)) [
  | inl hit ↦ rw hit (erased_absent k d)
  | inr miss ↦ rw miss (rw miss (erased_absent k d))
]

Distinct-erase : (k : String) (d : Dict Entry) → Distinct (keys d) → Distinct (keys (erase k d))
unfolding erase keys
Distinct-erase k [] h = tt
Distinct-erase k ((i, w) ∷ d) h = elim (Bool-cases (i == k)) [
  | inl hit ↦ rw hit (Distinct-erase k d h.1)
  | inr miss ↦ rw miss (absent-erase k i d h.0, Distinct-erase k d h.1)
]

absent-append :
    (j k : String) (v : Entry) (d : Dict Entry)
    → contains (keys d) j ≡ false
    → k == j ≡ false
    → contains (keys (d ++ (k, v) ∷ [])) j ≡ false
unfolding keys
absent-append j k v [] h other = rw other refl
absent-append j k v ((i, w) ∷ d) h other = ground (arith, absent-append j k v d)

Distinct-append :
    (k : String) (v : Entry) (d : Dict Entry)
    → Distinct (keys d)
    → contains (keys d) k ≡ false
    → Distinct (keys (d ++ (k, v) ∷ []))
unfolding keys
Distinct-append k v [] h new = (refl, tt)
Distinct-append k v ((i, w) ∷ d) h new = (
  absent-append i k v d h.0 (ground (arith, eq_iff i k, eq_iff k i)),
  Distinct-append k v d h.1 (ground arith),
)

Distinct-move_to_end :
    (k : String) (d : Dict Entry) → Distinct (keys d) → Distinct (keys (move_to_end k d))
unfolding move_to_end
Distinct-move_to_end k d h = elim (Option-cases (lookup k d)) [
  | inl missing ↦ rw (missing, move_to_end) h
  | inr (v, found) ↦
      rw (found, move_to_end)
        (Distinct-append k v (erase k d) (Distinct-erase k d h) (erased_absent k d))
]

-- No key twice, and no more entries than the bound.
pub record IsSmall (max : ℕ) (d : Dict Entry) : Type 0 where
  pub distinct : Distinct (keys d)
  pub size : length d ≤ max

pub IsSmall-erase :
    (max : ℕ) (k : String) (d : Dict Entry) → IsSmall max d → IsSmall max (erase k d)
IsSmall-erase max k d s =
    let less = length-erase-le k d in
    let old = s.size in record { distinct = Distinct-erase k d s.distinct; size = omega arith }

pub IsSmall-move_to_end :
    (max : ℕ) (k : String) (d : Dict Entry) → IsSmall max d → IsSmall max (move_to_end k d)
IsSmall-move_to_end max k d s =
    let less = length-move_to_end-le k d in
    let old = s.size in
    record { distinct = Distinct-move_to_end k d s.distinct; size = omega arith }

pub IsSmall-trim :
    (max : ℕ) (d : Dict Entry) → Distinct (keys d) → length d ≤ max + 1 → IsSmall max (trim max d)
unfolding trim keys
IsSmall-trim max [] h size =
    let fits : ltb max 0 ≡ false = ground arith in
    rw fits (record { distinct = tt; size = omega arith })
IsSmall-trim max ((k, v) ∷ d) h size = elim (Bool-cases (ltb max (length ((k, v) ∷ d)))) [
  | inl long ↦ rw long (record { distinct = h.1; size = omega arith })
  | inr short ↦ rw short (record { distinct = h; size = ground arith })
]

-- The cache after `put`.
pub IsSmall-put :
    (digest : String → String) (system user response : String) (now : ℕ) (c : LlmCache)
    → IsSmall c.max c.cache
    → IsSmall c.max (put digest system user response now c).cache
unfolding put
IsSmall-put digest system user response now c s =
    let k = key digest system user in
    let entry : Entry = (response, now + c.ttl) in
    elim (Bool-cases (has k c.cache)) [
      | inl there ↦
          let (u, found) = has-some k c.cache there in
          let moved = IsSmall-move_to_end c.max k c.cache s in
          let size = moved.size in
          let kept =
            length-insert-old k u entry (move_to_end k c.cache)
              (lookup-move_to_end k k c.cache ∙ found) in
          rw (there, put)
            (record {
              distinct = Distinct-insert k entry (move_to_end k c.cache) moved.distinct;
              size = omega arith;
            })
      | inr new ↦
          let most = length-insert-le k entry c.cache in
          let size = s.size in
          rw (new, put)
            (IsSmall-trim c.max (insert k entry c.cache)
              (Distinct-insert k entry c.cache s.distinct) (omega arith))
    ]
